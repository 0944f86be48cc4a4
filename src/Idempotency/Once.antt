-- ===== src/Idempotency/Once.antt =====
-- A guarded operation runs once: what a second request with the same key gets.
use text.Mathlib.Text.{◌==◌ as str_eq}
use text.Mathlib.TextPositions.{eq_refl}
use closer_v.Prelude.{
  true, false, ◌≡◌, refl, none, some, List, [], ◌∷◌, ◌++◌, find?, update_first, ◌∙◌, arith,
}
use closer_v.Prelude.Laws.{find?-append_new, find?-update_first}
use closer_v.Domain.Values.{Key}
use closer_v.Idempotency.{
  CompositeKey, IdempotencyRecord, Progress, started, completed, same_key, has_name,
  begin_idempotency, complete, complete_idempotency, begun, replay, conflict, value,
  idempotency_conflict, Ran, ok, finish_execution, execute,
}

same_key_refl : (k : CompositeKey) → same_key k k ≡ true
same_key_refl k = ground (arith, eq_refl k.scope, eq_refl k.key)

module _ {ℓ} {V : Type ℓ} (name : CompositeKey) (hash : Key) where
  abbrev noted : Progress V → IdempotencyRecord V
  noted p = record { name = name; request_hash = hash; progress = p }

  begin_free :
      (rs : List (IdempotencyRecord V))
      → find? (has_name name) rs ≡ none
      → begin_idempotency name hash rs ≡ (begun, rs ++ noted started ∷ [])
  unfolding begin_idempotency
  begin_free rs free = rw (begin_idempotency, free) refl

  begin_noted :
      (rs : List (IdempotencyRecord V)) (v : V)
      → find? (has_name name) rs ≡ some (noted (completed v))
      → begin_idempotency name hash rs ≡ (replay v, rs)
  unfolding begin_idempotency
  begin_noted rs v found = rw (begin_idempotency, found) (rw (eq_refl hash) refl)

  begin_other :
      (other : Key) (rs : List (IdempotencyRecord V)) (v : V)
      → find? (has_name name) rs
        ≡ some (record { name = name; request_hash = other; progress = completed v })
      → str_eq other hash ≡ false
      → begin_idempotency name hash rs ≡ (conflict, rs)
  unfolding begin_idempotency
  begin_other other rs v found differs = rw (begin_idempotency, found) (rw differs refl)

  find?-begun :
      (rs : List (IdempotencyRecord V))
      → find? (has_name name) rs ≡ none
      → find? (has_name name) (rs ++ noted started ∷ []) ≡ some (noted started)
  find?-begun rs free = find?-append_new (has_name name) rs (noted started ∷ []) free ∙ found
    where
      found : find? (has_name name) (noted started ∷ []) ≡ some (noted started)
      found = rw (same_key_refl name) refl

  done : V → List (IdempotencyRecord V) → List (IdempotencyRecord V)
  done v rs = update_first (has_name name) (complete v) (rs ++ noted started ∷ [])

  find?-done :
      (rs : List (IdempotencyRecord V)) (v : V)
      → find? (has_name name) rs ≡ none
      → find? (has_name name) (done v rs) ≡ some (noted (completed v))
  unfolding done
  find?-done rs v free =
      find?-update_first (has_name name) (complete v) (λ x e. e) (rs ++ noted started ∷ [])
        (noted started) (find?-begun rs free)

  complete_begun :
      (rs : List (IdempotencyRecord V)) (v : V)
      → find? (has_name name) rs ≡ none
      → complete_idempotency name v (rs ++ noted started ∷ []) ≡ some (done v rs)
  unfolding done complete_idempotency
  complete_begun rs v free = rw (complete_idempotency, find?-begun rs free) refl

module _ {ℓ κ μ} {V : Type ℓ} {E : Type κ} {W : Type μ} (name : CompositeKey) (hash : Key)
    (operation : W → Ran V E × W) where
  execute_free :
      (rs : List (IdempotencyRecord V)) (w : W) (v : V) (w' : W)
      → find? (has_name name) rs ≡ none
      → operation w ≡ (ok v, w')
      → execute name hash operation rs w ≡ (value v false, done name hash v rs, w')
  unfolding execute finish_execution
  execute_free rs w v w' free runs =
      rw (execute, begin_free name hash rs free, runs)
        (rw (begin_free name hash rs free)
          (rw (finish_execution, complete_begun name hash rs v free) refl))

  execute-noted :
      (rs : List (IdempotencyRecord V)) (w : W) (v : V)
      → find? (has_name name) rs ≡ some (noted name hash (completed v))
      → execute name hash operation rs w ≡ (value v true, rs, w)
  unfolding execute
  execute-noted rs w v found =
      rw (execute, begin_noted name hash rs v found) (rw (begin_noted name hash rs v found) refl)

  execute_other :
      (other : Key) (rs : List (IdempotencyRecord V)) (w : W) (v : V)
      → find? (has_name name) rs ≡ some (noted name other (completed v))
      → str_eq other hash ≡ false
      → execute name hash operation rs w ≡ (idempotency_conflict, rs, w)
  unfolding execute
  execute_other other rs w v found differs =
      let refused = begin_other name hash other rs v found differs in
      rw (execute, refused) (rw refused refl)

module _ {ℓ κ μ} {V : Type ℓ} {E : Type κ} {W : Type μ} (name : CompositeKey) (hash : Key)
    (operation : W → Ran V E × W) where
  -- A request that succeeded on a free key is not run again. The first call returns the operation's
  -- value, not as a replay, and the operation has run. Whoever repeats it with the same key and hash
  -- gets that value as a replay, and with another hash is refused as a conflict; either way the
  -- records and the world stay as they are, whatever the operation would now do.
  pub execute_once :
      (again : W → Ran V E × W) (other : Key) (rs : List (IdempotencyRecord V)) (w later : W)
      {v : V} {w' : W}
      → find? (has_name name) rs ≡ none
      → operation w ≡ (ok v, w')
      → str_eq hash other ≡ false
      → let rs' = (execute name hash operation rs w).1 in
        ((execute name hash operation rs w).0 ≡ value v false)
        × ((execute name hash operation rs w).2 ≡ w')
        × (execute name hash again rs' later ≡ (value v true, rs', later))
        × (execute name other again rs' later ≡ (idempotency_conflict, rs', later))
  execute_once again other rs w later {v = v} {w' = w'} free runs differs =
      rw (execute_free name hash operation rs w v w' free runs) (
        refl,
        refl,
        execute-noted name hash again (done name hash v rs) later v
            (find?-done name hash rs v free),
        execute_other name other again hash (done name hash v rs) later v
            (find?-done name hash rs v free) differs,
      )
