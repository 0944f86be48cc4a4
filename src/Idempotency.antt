-- ===== src/Idempotency.antt =====
-- Requests that run once (server/application/idempotency.ts, with `beginIdempotency`,
-- `completeIdempotency` and `abandonIdempotency` of server/infrastructure/inMemoryProductionStore.ts).
-- The guarded operation is a parameter: it turns a world into a value or an error and a new world.
pub mod Once
use text.Mathlib.Text.{◌==◌ as str_eq}
use closer_v.Prelude.{
  ℕ, Bool, true, false, not, ◌&&◌, ◌==◌, Option, none, some, List, [], ◌∷◌, ◌++◌, find?, select,
  update_first, if◌then◌else◌, String,
}
use closer_v.Domain.Values.{Uuid, Key}

-- The key `${tenantId}:${scope}:${key}`.
pub record CompositeKey : Type 0 where
  pub tenant_id : Uuid
  pub scope : String
  pub key : Key

pub data Progress {ℓ} (V : Type ℓ) : Type ℓ where
  started : Progress V
  completed : V → Progress V

pub record IdempotencyRecord {ℓ} (V : Type ℓ) : Type ℓ where
  pub name : CompositeKey
  pub request_hash : Key
  pub progress : Progress V

pub data BeginResult {ℓ} (V : Type ℓ) : Type ℓ where
  begun : BeginResult V
  conflict : BeginResult V
  in_progress : BeginResult V
  replay : V → BeginResult V

-- What `execute` returns or throws; `failed` is the error of the operation.
pub data Outcome {ℓ κ} (V : Type ℓ) (E : Type κ) : Type (ℓ ⊔ κ) where
  value : V → Bool → Outcome V E
  idempotency_conflict : Outcome V E
  idempotency_in_progress : Outcome V E
  missing_record : Outcome V E
  failed : E → Outcome V E

abbrev pub same_key : CompositeKey → CompositeKey → Bool
same_key a b = a.tenant_id == b.tenant_id && str_eq a.scope b.scope && str_eq a.key b.key

module _ {ℓ} {V : Type ℓ} where
  abbrev pub has_name : CompositeKey → IdempotencyRecord V → Bool
  has_name name r = same_key r.name name

  abbrev pub begin_existing : Key → IdempotencyRecord V → BeginResult V
  begin_existing hash r =
      if str_eq r.request_hash hash
      then (elim r.progress [ started ↦ in_progress | completed v ↦ replay v ])
      else conflict

  unfoldable pub begin_idempotency :
      CompositeKey → Key → List (IdempotencyRecord V) → BeginResult V × List (IdempotencyRecord V)
  begin_idempotency name hash rs = elim (find? (has_name name) rs) [
    | none ↦ (begun, rs ++ record { name = name; request_hash = hash; progress = started } ∷ [])
    | some r ↦ (begin_existing hash r, rs)
  ]

  abbrev pub complete : V → IdempotencyRecord V → IdempotencyRecord V
  complete v r = record { name = r.name; request_hash = r.request_hash; progress = completed v }

  -- `none` where the record is missing, which throws.
  unfoldable pub complete_idempotency :
      CompositeKey → V → List (IdempotencyRecord V) → Option (List (IdempotencyRecord V))
  complete_idempotency name v rs = elim (find? (has_name name) rs) [
    | none ↦ none
    | some r ↦ some (update_first (has_name name) (complete v) rs)
  ]

  unfoldable pub abandon_idempotency :
      CompositeKey → List (IdempotencyRecord V) → List (IdempotencyRecord V)
  abandon_idempotency name rs = select (λ r. not (has_name name r)) rs

pub data Ran {ℓ κ} (V : Type ℓ) (E : Type κ) : Type (ℓ ⊔ κ) where
  ok : V → Ran V E
  err : E → Ran V E

module _ {ℓ κ} {V : Type ℓ} {E : Type κ} where
  -- The `try` block and its handler, after the operation has run.
  unfoldable pub finish_execution :
      CompositeKey → Ran V E → List (IdempotencyRecord V) → Outcome V E × List (IdempotencyRecord V)
  finish_execution name (ok v) rs = elim (complete_idempotency name v rs) [
    | none ↦ (missing_record, abandon_idempotency name rs)
    | some rs' ↦ (value v false, rs')
  ]
  finish_execution name (err e) rs = (failed e, abandon_idempotency name rs)

module _ {ℓ κ μ} {V : Type ℓ} {E : Type κ} {W : Type μ} where
  -- `execute`: the outcome, the records and the world.
  unfoldable pub execute :
      CompositeKey
      → Key
      → (W → Ran V E × W)
      → List (IdempotencyRecord V)
      → W
      → Outcome V E × List (IdempotencyRecord V) × W
  execute name hash operation rs w =
      let (b, rs') = begin_idempotency name hash rs in
      elim b [
        | conflict ↦ (idempotency_conflict, rs', w)
        | in_progress ↦ (idempotency_in_progress, rs', w)
        | replay v ↦ (value v true, rs', w)
        | begun ↦
            let (r, w') = operation w in
            let (o, rs'') = finish_execution name r rs' in (o, rs'', w')
      ]
