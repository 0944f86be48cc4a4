-- ===== src/RateLimit.antt =====
-- The fixed-window limiter in memory (server/security/rateLimiter.ts).
pub mod Bounds
pub mod Window
use text.Mathlib.Text.{◌==◌ as str_eq}
use closer_v.Prelude.{
  ℕ, ◌+◌, Bool, true, false, not, ◌&&◌, ltb, leb, Option, none, some, List, [], ◌∷◌, ◌++◌, find?,
  select, update_first, length, if◌then◌else◌, String,
}

pub record Bucket : Type 0 where
  pub key : String
  pub count : ℕ
  pub reset_at : ℕ

pub record Limits : Type 0 where
  pub limit : ℕ
  pub window_ms : ℕ
  pub max_buckets : ℕ

abbrev pub has_key : String → Bucket → Bool
has_key key b = str_eq b.key key

abbrev pub open_bucket : Limits → String → ℕ → Bucket
open_bucket l key now = record { key = key; count = 1; reset_at = now + l.window_ms }

abbrev pub hit : Bucket → Bucket
hit b = record b { count = b.count + 1 }

-- `buckets.delete` for each bucket whose window has ended.
abbrev pub sweep : ℕ → List Bucket → List Bucket
sweep now bs = select (λ b. ltb now b.reset_at) bs

-- `allow` for a key that has no bucket: a full map is swept first.
unfoldable pub allow_new : Limits → String → ℕ → List Bucket → List Bucket × Bool
allow_new l key now bs =
    let kept = if leb l.max_buckets (length bs) then sweep now bs else bs in
    if leb l.max_buckets (length kept)
    then (kept, false)
    else (kept ++ open_bucket l key now ∷ [], true)

-- `allow` for a key with a bucket: a new window, a refusal, or one more hit.
unfoldable pub allow_known : Limits → String → ℕ → Bucket → List Bucket → List Bucket × Bool
allow_known l key now b bs =
    if leb b.reset_at now
    then (update_first (has_key key) (λ _. open_bucket l key now) bs, true)
    else if leb l.limit b.count
    then (bs, false)
    else (update_first (has_key key) hit bs, true)

unfoldable pub allow : Limits → String → ℕ → List Bucket → List Bucket × Bool
allow l key now bs = elim (find? (has_key key) bs) [
  | none ↦ allow_new l key now bs
  | some b ↦ allow_known l key now b bs
]
