-- ===== src/Client/Repository.antt =====
-- `LocalTenantRepository` of src/infrastructure/persistence.ts: one collection of the database, as
-- the list of its rows. The check of the whole schema that `commit` makes is about the shapes of
-- values, which the types give.
pub mod Refinement
pub mod Counts
use closer_v.Prelude.{
  ℕ, Bool, true, false, ◌&&◌, ◌==◌, Option, none, some, List, [], ◌∷◌, ◌++◌, find?, select, any,
  update_first, if◌then◌else◌,
}
use closer_v.Domain.Values.{Uuid}
use closer_v.Client.Entities.{TenantEntity}
use closer_v.Client.Rules.{DomainCode, Checked, passed, refused, check, ◌>>=◌}

-- A type of entities.
pub record Entity {ℓ} (A : Type ℓ) : Type ℓ where
  pub base_of : A → TenantEntity

module _ {ℓ} {A : Type ℓ} ⦃e : Entity A⦄ where
  abbrev pub id_of : A → Uuid
  id_of a = (e.base_of a).id

  abbrev pub business_of : A → Uuid
  business_of a = (e.base_of a).business_id

  abbrev pub is_row : Uuid → Uuid → A → Bool
  is_row business id a = business_of a == business && id_of a == id

  abbrev pub list : Uuid → List A → List A
  list business rows = select (λ a. business_of a == business) rows

  unfoldable pub get : Uuid → Uuid → List A → Option A
  get business id rows = find? (is_row business id) rows

  -- The write of `save`: at the index that is found, or at the end.
  unfoldable pub put : Uuid → A → List A → List A
  put business a rows =
      if any (is_row business (id_of a)) rows
      then update_first (is_row business (id_of a)) (λ _. a) rows
      else rows ++ a ∷ []

  unfoldable pub save : Uuid → A → List A → Checked (List A)
  unfolding put
  save business a rows = check (business_of a == business) DomainCode.tenant_mismatch >>= λ _.
      passed (put business a rows)

  -- `collection.splice(index, 1)` at the index that is found.
  unfoldable pub remove : Uuid → Uuid → List A → List A
  remove business id [] = []
  remove business id (a ∷ rows) = if is_row business id a then rows else a ∷ remove business id rows

  abbrev pub find_all : Uuid → (A → Bool) → List A → List A
  find_all business test rows = select test (list business rows)
