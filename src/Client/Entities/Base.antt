-- ===== src/Client/Entities/Base.antt =====
-- What every entity of src/domain/entities.ts has.
use closer_v.Prelude.{ℕ, Bool, String}
use closer_v.Domain.Values.{Uuid, Instant, Cents}

pub record TenantEntity : Type 0 where
  pub id : Uuid
  pub business_id : Uuid
  pub created_at : Instant
  pub updated_at : Instant

-- `CustomerFactValue`, and what the metadata of an activity holds.
pub data Scalar : Type 0 where
  text : String → Scalar
  number : ℕ → Scalar
  flag : Bool → Scalar

-- A value of `priceRangesCents`.
pub record PriceRange : Type 0 where
  pub min_cents : Cents
  pub max_cents : Cents
