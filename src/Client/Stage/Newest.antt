-- ===== src/Client/Stage/Newest.antt =====
-- `newest` of a list and of those in it that pass a test.
use closer_v.Prelude.{
  Bool, true, false, not, ◌&&◌, ◌≡◌, refl, ◌∙◌, ap, ◌⊎◌, inl, inr, leb, Option, none, some, List,
  [], ◌∷◌, select, arith, Bool-cases,
}
use closer_v.Client.Repository.{Entity}
use closer_v.Client.Stage.{keep_newer, newest_from, newest}

module _ {ℓ} {A : Type ℓ} ⦃e : Entity A⦄ (p : A → Bool) where
  -- The latest of all fails the test, and is no older than the latest of those that pass.
  abbrev hides : Option A → Option A → Bool
  hides none kept = false
  hides (some x) none = not (p x)
  hides (some x) (some y) = not (p x) && leb (e.base_of y).updated_at (e.base_of x).updated_at

  abbrev Follows : Option A → Option A → Type ℓ
  Follows all kept = (kept ≡ all) ⊎ (hides all kept ≡ true)

  passes-Follows :
      (all kept : Option A) (x : A)
      → p x ≡ true
      → Follows all kept
      → Follows (keep_newer all x) (keep_newer kept x)
  passes-Follows all kept x t (inl same) = inl (ap (λ o. keep_newer o x) same)
  passes-Follows none kept x t (inr h) = absurd (ground (arith, h))
  passes-Follows (some y) none x t (inr h) =
      elim (Bool-cases (leb (e.base_of y).updated_at (e.base_of x).updated_at)) [
        | inl l ↦ inl (rw l refl)
        | inr l ↦ inr (rw l (ground (arith, h, l)))
      ]
  passes-Follows (some y) (some z) x t (inr h) =
      elim (Bool-cases (leb (e.base_of y).updated_at (e.base_of x).updated_at)) [
        | inl l ↦ inl (
            let k : leb (e.base_of z).updated_at (e.base_of x).updated_at ≡ true =
              ground (arith, h, l) in
            rw (l, k) refl)
        | inr l ↦ inr (ground (arith, h, l))
      ]

  fails-Follows :
      (all kept : Option A) (x : A)
      → p x ≡ false
      → Follows all kept
      → Follows (keep_newer all x) kept
  fails-Follows none kept x t (inl same) = inr (rw (same, t) refl)
  fails-Follows (some y) kept x t (inl same) =
      elim (Bool-cases (leb (e.base_of y).updated_at (e.base_of x).updated_at)) [
        | inl l ↦ inr (rw (same, l) (rw (t, l) refl))
        | inr l ↦ inl (rw l same)
      ]
  fails-Follows none kept x t (inr h) = absurd (ground (arith, h))
  fails-Follows (some y) none x t (inr h) = inr (ground (arith, h, t))
  fails-Follows (some y) (some z) x t (inr h) = inr (ground (arith, h, t))

  newest_from-select :
      (all kept : Option A) (xs : List A) (a : A)
      → p a ≡ true
      → Follows all kept
      → newest_from all xs ≡ some a
      → newest_from kept (select p xs) ≡ some a
  newest_from-select all kept [] a t (inl same) h = same ∙ h
  newest_from-select none kept [] a t (inr f) h = absurd (ground (arith, f))
  newest_from-select (some y) none [] a t (inr f) h = absurd (ground (arith, f, h, t))
  newest_from-select (some y) (some z) [] a t (inr f) h = absurd (ground (arith, f, h, t))
  newest_from-select all kept (x ∷ xs) a t f h = elim (Bool-cases (p x)) [
    | inl passes ↦ rw passes (
        newest_from-select (keep_newer all x) (keep_newer kept x) xs a t
          (passes-Follows all kept x passes f) h)
    | inr fails ↦
        rw fails
          (newest_from-select (keep_newer all x) kept xs a t (fails-Follows all kept x fails f) h)
  ]

  -- The newest of a list, where it passes a test, is the newest of those that pass.
  pub newest-select :
      (xs : List A) (a : A) → p a ≡ true → newest xs ≡ some a → newest (select p xs) ≡ some a
  newest-select xs a t h = newest_from-select none none xs a t (inl refl) h
