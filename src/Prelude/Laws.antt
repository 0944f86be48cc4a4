-- ===== src/Prelude/Laws.antt =====
-- Laws of `find?`, `select`, `any`, `sum_by` and of the writes, that the components share.
use Prim.Native.Nat.{ℕ, ◌+◌, ◌≤◌}
use mathlib.Core.Path.{◌≡◌, refl, subst}
use mathlib.Core.Logic.{inl, inr}
use mathlib.Core.Bool.{Bool, true, false, ◌||◌}
use mathlib.Core.Option.{none, some}
use mathlib.Core.List.{List, [], ◌∷◌, ◌++◌}
use native.Mathlib.Omega.{arith}
use closer_v.Prelude.Tests.{Bool-cases}
use closer_v.Prelude.Lists.{
  insert_by, sort_by, length, find?, select, any, sum_by, update_first, update_where, All,
}

module _ {ℓ} {A : Type ℓ} where
  pub length-append : (xs ys : List A) → length (xs ++ ys) ≡ length xs + length ys
  length-append [] ys = omega arith
  length-append (x ∷ xs) ys = omega (arith, length-append xs ys)

  pub length-select-le : (p : A → Bool) (xs : List A) → length (select p xs) ≤ length xs
  length-select-le p [] = omega arith
  length-select-le p (x ∷ xs) = ground (arith, length-select-le p xs)

  pub length-update_first :
      (p : A → Bool) (f : A → A) (xs : List A) → length (update_first p f xs) ≡ length xs
  length-update_first p f [] = refl
  length-update_first p f (x ∷ xs) = ground (arith, length-update_first p f xs)

  -- What `find` returns passes the test.
  pub find?-holds : (p : A → Bool) (xs : List A) (x : A) → find? p xs ≡ some x → p x ≡ true
  find?-holds p [] x h = absurd (cc)
  find?-holds p (y ∷ xs) x h = ground (arith, find?-holds p xs x)

  pub any_of_find? : (p : A → Bool) (xs : List A) (x : A) → find? p xs ≡ some x → any p xs ≡ true
  any_of_find? p [] x h = absurd (cc)
  any_of_find? p (y ∷ xs) x h = ground (arith, any_of_find? p xs x)

  pub find?-none : (p : A → Bool) (xs : List A) → find? p xs ≡ none → any p xs ≡ false
  find?-none p [] h = refl
  find?-none p (y ∷ xs) h = ground (arith, find?-none p xs)

  pub find?-append_found :
      (p : A → Bool) (xs ys : List A) (x : A) → find? p xs ≡ some x → find? p (xs ++ ys) ≡ some x
  find?-append_found p [] ys x h = absurd (cc)
  find?-append_found p (y ∷ xs) ys x h = ground (arith, find?-append_found p xs ys x)

  pub find?-append_new :
      (p : A → Bool) (xs ys : List A) → find? p xs ≡ none → find? p (xs ++ ys) ≡ find? p ys
  find?-append_new p [] ys h = refl
  find?-append_new p (y ∷ xs) ys h = ground (arith, find?-append_new p xs ys)

  pub any-append : (p : A → Bool) (xs ys : List A) → any p (xs ++ ys) ≡ (any p xs || any p ys)
  any-append p [] ys = refl
  any-append p (x ∷ xs) ys = ground (arith, any-append p xs ys)

  pub select-append :
      (p : A → Bool) (xs ys : List A) → select p (xs ++ ys) ≡ select p xs ++ select p ys
  select-append p [] ys = refl
  select-append p (x ∷ xs) ys = ground (arith, select-append p xs ys)

  pub sum_by-append : (f : A → ℕ) (xs ys : List A) → sum_by f (xs ++ ys) ≡ sum_by f xs + sum_by f ys
  sum_by-append f [] ys = omega arith
  sum_by-append f (x ∷ xs) ys = omega (arith, sum_by-append f xs ys)

  -- A write that keeps the test is found again.
  pub find?-update_first :
      (p : A → Bool) (f : A → A)
      → ((x : A) → p x ≡ true → p (f x) ≡ true)
      → (xs : List A) (x : A) → find? p xs ≡ some x
      → find? p (update_first p f xs) ≡ some (f x)
  find?-update_first p f keeps [] x h = absurd (cc)
  find?-update_first p f keeps (y ∷ xs) x h =
      ground (arith, keeps y, find?-update_first p f keeps xs x)

  -- Writes that touch nothing which a test selects leave the selection as it was.
  pub select-update_where :
      (q p : A → Bool) (f : A → A)
      → ((x : A) → p x ≡ true → q x ≡ false)
      → ((x : A) → q (f x) ≡ q x)
      → (xs : List A) → select q (update_where p f xs) ≡ select q xs
  select-update_where q p f apart keeps [] = refl
  select-update_where q p f apart keeps (x ∷ xs) =
      ground (arith, apart x, keeps x, select-update_where q p f apart keeps xs)

  pub select-update_first :
      (q p : A → Bool) (f : A → A)
      → ((x : A) → p x ≡ true → q x ≡ false)
      → ((x : A) → q (f x) ≡ q x)
      → (xs : List A) → select q (update_first p f xs) ≡ select q xs
  select-update_first q p f apart keeps [] = refl
  select-update_first q p f apart keeps (x ∷ xs) =
      ground (arith, apart x, keeps x, select-update_first q p f apart keeps xs)

  -- After the write, none of the elements passes a test that each written element fails.
  pub any-update_where :
      (p : A → Bool) (f : A → A)
      → ((x : A) → p (f x) ≡ false)
      → (xs : List A) → any p (update_where p f xs) ≡ false
  any-update_where p f clears [] = refl
  any-update_where p f clears (x ∷ xs) = ground (arith, clears x, any-update_where p f clears xs)

  pub any-never : (p : A → Bool) (xs : List A) → ((x : A) → p x ≡ false) → any p xs ≡ false
  any-never p [] h = refl
  any-never p (x ∷ xs) h = ground (arith, h x, any-never p xs h)

module _ {ℓ κ} {A : Type ℓ} (P : A → Type κ) where
  -- A write to the element that is found.
  pub All-update_found :
      (p : A → Bool) (f : A → A) (xs : List A)
      → ((x : A) → find? p xs ≡ some x → P x → P (f x))
      → All P xs
      → All P (update_first p f xs)
  All-update_found p f [] keeps h = tt
  All-update_found p f (y ∷ xs) keeps h = elim (Bool-cases (p y)) [
    | inl t ↦ rw t (keeps y (rw t) h.0, h.1)
    | inr t ↦ rw t (h.0, All-update_found p f xs (λ z e. keeps z (rw t e)) h.1)
  ]

  pub All-append : (xs ys : List A) → All P xs → All P ys → All P (xs ++ ys)
  All-append [] ys hx hy = hy
  All-append (x ∷ xs) ys hx hy = (hx.0, All-append xs ys hx.1 hy)

  pub All-update_first :
      (p : A → Bool) (f : A → A)
      → ((x : A) → p x ≡ true → P x → P (f x))
      → (xs : List A) → All P xs
      → All P (update_first p f xs)
  All-update_first p f keeps [] h = tt
  All-update_first p f keeps (x ∷ xs) h = elim (Bool-cases (p x)) [
    | inl e ↦ rw e (keeps x e h.0, h.1)
    | inr e ↦ rw e (h.0, All-update_first p f keeps xs h.1)
  ]

  pub All-update_where :
      (p : A → Bool) (f : A → A)
      → ((x : A) → p x ≡ true → P x → P (f x))
      → (xs : List A) → All P xs
      → All P (update_where p f xs)
  All-update_where p f keeps [] h = tt
  All-update_where p f keeps (x ∷ xs) h = elim (Bool-cases (p x)) [
    | inl e ↦ rw e (keeps x e h.0, All-update_where p f keeps xs h.1)
    | inr e ↦ rw e (h.0, All-update_where p f keeps xs h.1)
  ]

  pub All-select : (p : A → Bool) (xs : List A) → All P xs → All P (select p xs)
  All-select p [] h = tt
  All-select p (x ∷ xs) h = elim (Bool-cases (p x)) [
    | inl e ↦ rw e (h.0, All-select p xs h.1)
    | inr e ↦ rw e (All-select p xs h.1)
  ]

  pub All-find? : (p : A → Bool) (xs : List A) (x : A) → All P xs → find? p xs ≡ some x → P x
  All-find? p [] x h e = absurd (cc)
  All-find? p (y ∷ xs) x h e = elim (Bool-cases (p y)) [
    | inl t ↦ subst P {x = y} {y = x} (ground (arith, t, e)) h.0
    | inr t ↦ All-find? p xs x h.1 (ground (arith, t, e))
  ]

-- No two elements of a list clash, an earlier one with a later.
module _ {ℓ} {A : Type ℓ} (clash : A → A → Bool) where
  abbrev pub Apart : List A → Type 0
  Apart [] = Unit
  Apart (x ∷ xs) = (any (clash x) xs ≡ false) × Apart xs

  -- A list stays apart when the element that is pushed clashes with none.
  pub Apart-push :
      (xs : List A) (x : A)
      → ((y : A) → clash x y ≡ false → clash y x ≡ false)
      → Apart xs
      → any (clash x) xs ≡ false
      → Apart (xs ++ x ∷ [])
  Apart-push [] x flip h n = (refl, tt)
  Apart-push (y ∷ xs) x flip h n = (
    ground (arith, any-append (clash y) xs (x ∷ []), flip y, h.0),
    Apart-push xs x flip h.1 (ground arith),
  )

-- Sorting keeps what holds of all elements.
module _ {ℓ κ} {A : Type ℓ} (before : A → A → Bool) (P : A → Type κ) where
  pub All-insert_by : (x : A) (xs : List A) → P x → All P xs → All P (insert_by before x xs)
  All-insert_by x [] h k = (h, tt)
  All-insert_by x (y ∷ xs) h k = elim (Bool-cases (before y x)) [
    | inl e ↦ rw e (k.0, All-insert_by x xs h k.1)
    | inr e ↦ rw e (h, k)
  ]

  pub All-sort_by : (xs : List A) → All P xs → All P (sort_by before xs)
  All-sort_by [] h = tt
  All-sort_by (x ∷ xs) h = All-insert_by x (sort_by before xs) h.0 (All-sort_by xs h.1)
