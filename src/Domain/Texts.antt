-- ===== src/Domain/Texts.antt =====
-- The order of texts, by which the store compares the times that clients write.
use Prim.Native.String.compare
use Prim.Native.String.{compare, then}
use Prim.Native.Nat.{Ordering, compare as compare_ℕ}
use Prim.Native.Char.{code}
use closer_v.Prelude.{ℕ, String, true, false, ◌≡◌, refl, inl, inr, arith, Bool-cases}
use closer_v.Domain.Values.{TimeText, is_less, text_before}

then_trans :
    (x y z : ℕ) (o p q : Ordering)
    → (is_less o ≡ false → is_less p ≡ false → is_less q ≡ false)
    → is_less (then (compare_ℕ y x) o) ≡ false
    → is_less (then (compare_ℕ z y) p) ≡ false
    → is_less (then (compare_ℕ z x) q) ≡ false
then_trans x y z o p q k h i = ground (arith, k, h, i)

then_flip :
    (x y : ℕ) (o p : Ordering)
    → (is_less o ≡ true → is_less p ≡ false)
    → is_less (then (compare_ℕ x y) o) ≡ true
    → is_less (then (compare_ℕ y x) p) ≡ false
then_flip x y o p k h = ground (arith, k, h)

-- A text that is before another has not the other before it.
pub flip : (a b : TimeText) → text_before a b ≡ true → text_before b a ≡ false
flip String.[] String.[] h = refl
flip String.[] (String.◌∷◌ d t) h = rw (compare.cons-nil d t) refl
flip (String.◌∷◌ c s) String.[] h = absurd (ground (arith, rw (compare.cons-nil c s) at h))
flip (String.◌∷◌ c s) (String.◌∷◌ d t) h = rw (compare.cons-cons d c t s) (
    then_flip (code c) (code d) (compare s t) (compare t s) (flip s t)
      (rw (compare.cons-cons c d s t) at h))

-- What is no later than a text that is no later than a third, is no later than the third.
pub le_trans :
    (a b c : TimeText) → text_before b a ≡ false → text_before c b ≡ false → text_before c a ≡ false
le_trans String.[] b String.[] h i = refl
le_trans String.[] b (String.◌∷◌ e u) h i = rw (compare.cons-nil e u) refl
le_trans (String.◌∷◌ c s) String.[] w h i = absurd (ground (arith, rw (compare.nil-cons c s) at h))
le_trans (String.◌∷◌ c s) (String.◌∷◌ d t) String.[] h i =
    absurd (ground (arith, rw (compare.nil-cons d t) at i))
le_trans (String.◌∷◌ c s) (String.◌∷◌ d t) (String.◌∷◌ e u) h i = rw (compare.cons-cons e c u s) (
    then_trans (code c) (code d) (code e) (compare t s) (compare u t) (compare u s) (le_trans s t u)
      (rw (compare.cons-cons d c t s) at h) (rw (compare.cons-cons e d u t) at i))

-- What is no later than a text that is before a third, is before the third.
pub le_lt_trans :
    (a b c : TimeText) → text_before b a ≡ false → text_before b c ≡ true → text_before a c ≡ true
le_lt_trans a b c h i = elim (Bool-cases (text_before a c)) [
  | inl t ↦ t
  | inr f ↦ absurd (ground (arith, i, le_trans c a b f h))
]
