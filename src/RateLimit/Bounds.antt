-- ===== src/RateLimit/Bounds.antt =====
-- Bounds on the map of the limiter.
use closer_v.Prelude.{
  ℕ, ◌≤◌, ltb, leb, inl, inr, List, [], ◌∷◌, ◌++◌, find?, length, arith, Bool-cases, Option-cases,
  String, All,
}
use closer_v.Prelude.Laws.{
  length-append, length-select-le, length-update_first, All-append, All-select, All-update_found,
}
use closer_v.RateLimit.{
  Bucket, Limits, has_key, open_bucket, hit, sweep, allow_new, allow_known, allow,
}

-- The count of a bucket is between one and the limit.
abbrev pub IsBounded : Limits → Bucket → Type 0
IsBounded l b = (1 ≤ b.count) × (b.count ≤ l.limit)

module _ (l : Limits) (key : String) (now : ℕ) where
  allow_new-length :
      (bs : List Bucket)
      → length bs ≤ l.max_buckets
      → length (allow_new l key now bs).0 ≤ l.max_buckets
  unfolding allow_new
  allow_new-length bs h = ground (
    arith,
    length-append bs (open_bucket l key now ∷ []),
    length-append (sweep now bs) (open_bucket l key now ∷ []),
    length-select-le (λ b. ltb now b.reset_at) bs,
  )

  -- The map never outgrows its limit: a call that finds at most `max_buckets` buckets leaves at most
  -- that many, whatever the key and the time.
  pub allow-length :
      (bs : List Bucket) → length bs ≤ l.max_buckets → length (allow l key now bs).0 ≤ l.max_buckets
  unfolding allow allow_known
  allow-length bs h = elim (Option-cases (find? (has_key key) bs)) [
    | inl e ↦ rw (allow, e) (allow_new-length bs h)
    | inr (b, e) ↦
        rw (allow, e)
          (ground (
            arith,
            length-update_first (has_key key) (λ _. open_bucket l key now) bs,
            length-update_first (has_key key) hit bs,
          ))
  ]

  opened :
      (bs : List Bucket)
      → 1 ≤ l.limit
      → All (IsBounded l) bs
      → All (IsBounded l) (bs ++ open_bucket l key now ∷ [])
  opened bs positive h =
      All-append (IsBounded l) bs (open_bucket l key now ∷ []) h ((ground arith, positive), tt)

  allow_new-IsBounded :
      (bs : List Bucket)
      → 1 ≤ l.limit
      → All (IsBounded l) bs
      → All (IsBounded l) (allow_new l key now bs).0
  unfolding allow_new
  allow_new-IsBounded bs positive h = elim (Bool-cases (leb l.max_buckets (length bs))) [
    | inl full ↦
        rw (allow_new, full)
          (elim (Bool-cases (leb l.max_buckets (length (sweep now bs)))) [
            | inl e ↦ rw e (All-select (IsBounded l) (λ b. ltb now b.reset_at) bs h)
            | inr e ↦ rw e (
                opened (sweep now bs) positive
                  (All-select (IsBounded l) (λ b. ltb now b.reset_at) bs h))
          ])
    | inr e ↦ rw (allow_new, e) (rw e (opened bs positive h))
  ]

  -- No window counts more requests than the limit, where the limit is at least one: a call keeps
  -- each bucket's count between one and the limit.
  pub allow-IsBounded :
      (bs : List Bucket)
      → 1 ≤ l.limit
      → All (IsBounded l) bs
      → All (IsBounded l) (allow l key now bs).0
  unfolding allow allow_known
  allow-IsBounded bs positive h = elim (Option-cases (find? (has_key key) bs)) [
    | inl e ↦ rw (allow, e) (allow_new-IsBounded bs positive h)
    | inr (b, e) ↦
        rw (allow, e)
          (elim (Bool-cases (leb b.reset_at now)) [
            | inl over ↦
                rw (allow_known, over)
                  (All-update_found (IsBounded l) (has_key key) (λ _. open_bucket l key now) bs
                    (λ x f k. (ground arith, positive)) h)
            | inr runs ↦ elim (Bool-cases (leb l.limit b.count)) [
              | inl full ↦ rw (allow_known, runs) (rw full h)
              | inr free ↦
                  rw (allow_known, runs)
                    (rw free (
                      All-update_found (IsBounded l) (has_key key) hit bs
                        (λ x f k. ground (arith, e, f, k, free)) h))
            ]
          ])
  ]
