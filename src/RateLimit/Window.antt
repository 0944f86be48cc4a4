-- ===== src/RateLimit/Window.antt =====
-- How many calls the limiter accepts within one window.
use text.Mathlib.Text.{◌==◌ as str_eq}
use text.Mathlib.TextEquality.{eq_iff}
use closer_v.Prelude.{
  ℕ, ◌+◌, ◌-◌, ◌≤◌, ◌<◌, Bool, true, false, ◌&&◌, ltb, leb, ◌≡◌, refl, inl, inr, some, List, [],
  ◌∷◌, find?, select, update_first, arith, if◌then◌else◌, Bool-cases, Option-cases, String, All,
}
use closer_v.Prelude.Laws.{find?-append_found, find?-update_first}
use closer_v.RateLimit.{
  Bucket, Limits, has_key, open_bucket, hit, sweep, allow_new, allow_known, allow,
}

-- A call of `allow`: its key and its time.
pub record Call : Type 0 where
  pub key : String
  pub now : ℕ

-- How many of the calls with the key are accepted, of calls with any keys in turn.
unfoldable pub accepted : Limits → String → List Call → List Bucket → ℕ
accepted l key [] bs = 0
accepted l key (c ∷ cs) bs =
    let (bs', passes) = allow l c.key c.now bs in
    (if str_eq c.key key && passes then 1 else 0) + accepted l key cs bs'

-- How many of the calls have the key.
abbrev pub calls_with : String → List Call → ℕ
calls_with key [] = 0
calls_with key (c ∷ cs) = (if str_eq c.key key then 1 else 0) + calls_with key cs

abbrev pub least : ℕ → ℕ → ℕ
least m n = if leb m n then m else n

module _ {ℓ} {A : Type ℓ} (p q : A → Bool) where
  find?-update_other :
      (f : A → A)
      → ((x : A) → p x ≡ true → (q x ≡ false) × (q (f x) ≡ false))
      → (xs : List A) → find? q (update_first p f xs) ≡ find? q xs
  find?-update_other f apart [] = refl
  find?-update_other f apart (x ∷ xs) = elim (Bool-cases (p x)) [
    | inl t ↦ rw (t, (apart x t).0, (apart x t).1) refl
    | inr t ↦ rw t (elim (Bool-cases (q x)) [
      | inl u ↦ rw u refl
      | inr u ↦ rw u (find?-update_other f apart xs)
    ])
  ]

  find?-select :
      (xs : List A) (x : A) → p x ≡ true → find? q xs ≡ some x → find? q (select p xs) ≡ some x
  find?-select [] x t h = absurd (cc)
  find?-select (y ∷ xs) x t h = elim (Bool-cases (q y)) [
    | inl u ↦ let same : y ≡ x = ground (arith, u, h) in rw (same, t) (ground (arith, u, same))
    | inr u ↦
        let rest = find?-select xs x t (rw u at h) in
        elim (Bool-cases (p y)) [ inl v ↦ rw v (rw u rest) | inr v ↦ rw v rest ]
  ]

module _ (l : Limits) (key : String) (now : ℕ) (bs : List Bucket) (b : Bucket) where
  full :
      find? (has_key key) bs ≡ some b
      → now < b.reset_at
      → l.limit ≤ b.count
      → allow l key now bs ≡ (bs, false)
  unfolding allow allow_known
  full found runs most = ground (arith, found, runs, most)

  free :
      find? (has_key key) bs ≡ some b
      → now < b.reset_at
      → b.count < l.limit
      → allow l key now bs ≡ (update_first (has_key key) hit bs, true)
  unfolding allow allow_known
  free found runs less = ground (arith, found, runs, less)

module _ (l : Limits) (other key : String) (now : ℕ) (differ : str_eq other key ≡ false) where
  other_key : (b : Bucket) → has_key other b ≡ true → has_key key b ≡ false
  other_key b h = let same : b.key ≡ other = (eq_iff b.key other).0 h in rw same differ

  opens_other :
      (bs : List Bucket) (b : Bucket)
      → find? (has_key key) bs ≡ some b
      → now < b.reset_at
      → find? (has_key key) (allow_new l other now bs).0 ≡ some b
  unfolding allow_new
  opens_other bs b found runs =
      let kept =
        find?-select (λ x. ltb now x.reset_at) (has_key key) bs b (ground (arith, runs)) found in
      let pushed = find?-append_found (has_key key) bs (open_bucket l other now ∷ []) b found in
      let swept =
        find?-append_found (has_key key) (sweep now bs) (open_bucket l other now ∷ []) b kept in
      ground (arith, kept, pushed, swept, found)

  known_other :
      (bs : List Bucket) (b known : Bucket)
      → find? (has_key key) bs ≡ some b
      → find? (has_key key) (allow_known l other now known bs).0 ≡ some b
  unfolding allow_known
  known_other bs b known found =
      let opened =
        find?-update_other (has_key other) (has_key key) (λ _. open_bucket l other now)
          (λ x t. (other_key x t, differ)) bs in
      let counted =
        find?-update_other (has_key other) (has_key key) hit (λ x t. (other_key x t, other_key x t))
          bs in
      ground (arith, opened, counted, found)

  allow_other :
      (bs : List Bucket) (b : Bucket)
      → find? (has_key key) bs ≡ some b
      → now < b.reset_at
      → find? (has_key key) (allow l other now bs).0 ≡ some b
  unfolding allow
  allow_other bs b found runs = elim (Option-cases (find? (has_key other) bs)) [
    | inl e ↦ rw (allow, e) (opens_other bs b found runs)
    | inr (known, e) ↦ rw (allow, e) (known_other bs b known found)
  ]

module _ (l : Limits) (key : String) where
  -- While the window of a key runs, the limiter accepts of its calls exactly as many as the count of its
  -- bucket leaves of the limit, or all where they are fewer, whatever calls with other keys come
  -- between, and also where the map is full.
  pub accepted-least :
      (cs : List Call) (bs : List Bucket) (b : Bucket)
      → find? (has_key key) bs ≡ some b
      → All (λ c. c.now < b.reset_at) cs
      → accepted l key cs bs ≡ least (calls_with key cs) (l.limit - b.count)
  unfolding accepted
  accepted-least [] bs b found early = ground arith
  accepted-least (c ∷ cs) bs b found early = elim (Bool-cases (str_eq c.key key)) [
    | inr differ ↦
        let rest =
          accepted-least cs (allow l c.key c.now bs).0 b
            (allow_other l c.key key c.now differ bs b found early.0) early.1 in
        rw differ (ground (arith, rest))
    | inl t ↦
        let same : c.key ≡ key = (eq_iff c.key key).0 t in
        elim (Bool-cases (leb l.limit b.count)) [
          | inl most ↦
              let step = full l key c.now bs b found early.0 (ground (arith, most)) in
              let rest = accepted-least cs bs b found early.1 in
              rw t (rw (same, step) (ground (arith, rest, most)))
          | inr less ↦
              let step = free l key c.now bs b found early.0 (ground (arith, less)) in
              let rest =
                accepted-least cs (update_first (has_key key) hit bs) (hit b)
                  (find?-update_first (has_key key) hit (λ x u. u) bs b found) early.1 in
              rw t (rw (same, step) (ground (arith, rest, less)))
        ]
  ]
