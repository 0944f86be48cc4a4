-- ===== src/Client/Repository/Refinement.antt =====
-- A repository is a map from businesses and ids to entities, and keeps the businesses apart.
use mathlib.Core.Path.{fun_ext}
use closer_v.Prelude.{
  Bool, true, false, ◌&&◌, ◌==◌, ◌≡◌, refl, sym, ◌∙◌, ap, inl, inr, Option, none, some, List, [],
  ◌∷◌, any, if◌then◌else◌, arith, Bool-cases,
}
use closer_v.Prelude.Laws.{Apart}
use closer_v.Domain.Values.{Uuid}
use closer_v.Client.Rules.{passed}
use closer_v.Client.Repository.{Entity, id_of, business_of, is_row, get, put, save, remove}

-- What a repository promises: a map.
abbrev pub Lookup {ℓ} : Type ℓ → Type ℓ
Lookup A = Uuid → Uuid → Option A

-- The map, changed at one place.
abbrev pub changed {ℓ} : {A : Type ℓ} → Uuid → Uuid → Option A → Lookup A → Lookup A
changed b i new f = λ c j. if c == b && j == i then new else f c j

module _ {ℓ} {A : Type ℓ} ⦃e : Entity A⦄ where
  abbrev pub lookup : List A → Lookup A
  lookup rows = λ b i. get b i rows

  -- Two rows of one business with one id.
  abbrev pub same_row : A → A → Bool
  same_row x y = is_row (business_of x) (id_of x) y

  -- No two rows of a business have one id.
  abbrev pub IsKeyed : List A → Type 0
  IsKeyed = Apart same_row

  put_here :
      (b : Uuid) (a x : A) (rows : List A)
      → is_row b (id_of a) x ≡ true
      → put b a (x ∷ rows) ≡ a ∷ rows
  unfolding put
  put_here b a x rows h = rw h refl

  put_later :
      (b : Uuid) (a x : A) (rows : List A)
      → is_row b (id_of a) x ≡ false
      → put b a (x ∷ rows) ≡ x ∷ put b a rows
  unfolding put
  put_later b a x rows h = elim (Bool-cases (any (is_row b (id_of a)) rows)) [
    | inl t ↦ ground (arith, h, t)
    | inr t ↦ ground (arith, h, t)
  ]

  pub get-put :
      (b c j : Uuid) (a : A) (rows : List A)
      → business_of a ≡ b
      → get c j (put b a rows) ≡ changed b (id_of a) (some a) (lookup rows) c j
  unfolding get put
  get-put b c j a [] h = ground (arith, h)
  get-put b c j a (x ∷ rows) h = elim (Bool-cases (is_row b (id_of a) x)) [
    | inl t ↦ ground (arith, h, t, put_here b a x rows t)
    | inr t ↦ ground (arith, h, t, put_later b a x rows t, get-put b c j a rows h)
  ]

  any-remove :
      (b i c j : Uuid) (rows : List A)
      → any (is_row c j) rows ≡ false
      → any (is_row c j) (remove b i rows) ≡ false
  unfolding remove
  any-remove b i c j [] h = refl
  any-remove b i c j (x ∷ rows) h = ground (arith, h, any-remove b i c j rows)

  get-none : (c j : Uuid) (rows : List A) → any (is_row c j) rows ≡ false → get c j rows ≡ none
  unfolding get
  get-none c j [] h = refl
  get-none c j (x ∷ rows) h = ground (arith, h, get-none c j rows)

  get-remove :
      (b i c j : Uuid) (rows : List A)
      → IsKeyed rows
      → get c j (remove b i rows) ≡ changed b i none (lookup rows) c j
  unfolding get remove
  get-remove b i c j [] k = ground arith
  get-remove b i c j (x ∷ rows) k =
      ground (arith, get-remove b i c j rows k.1, get-none c j rows, k.0)

  remove-IsKeyed : (b i : Uuid) (rows : List A) → IsKeyed rows → IsKeyed (remove b i rows)
  unfolding remove
  remove-IsKeyed b i [] k = tt
  remove-IsKeyed b i (x ∷ rows) k = elim (Bool-cases (is_row b i x)) [
    | inl t ↦ rw (remove, t) k.1
    | inr t ↦
        rw (remove, t)
          (any-remove b i (business_of x) (id_of x) rows k.0, remove-IsKeyed b i rows k.1)
  ]

  any-put :
      (b : Uuid) (a x : A) (rows : List A)
      → same_row x a ≡ false
      → any (same_row x) rows ≡ false
      → any (same_row x) (put b a rows) ≡ false
  unfolding put
  any-put b a x [] n h = ground (arith, n)
  any-put b a x (y ∷ rows) n h = elim (Bool-cases (is_row b (id_of a) y)) [
    | inl t ↦ rw (put_here b a y rows t) (ground (arith, n, h))
    | inr t ↦ rw (put_later b a y rows t) (ground (arith, h, any-put b a x rows n))
  ]

  any_same :
      (b c i j : Uuid) (rows : List A)
      → b ≡ c
      → i ≡ j
      → any (is_row b i) rows ≡ false
      → any (is_row c j) rows ≡ false
  any_same b c i j rows p q h =
      ap (λ k. any (is_row c k) rows) (sym q) ∙ ap (λ k. any (is_row k i) rows) (sym p) ∙ h

  put-IsKeyed :
      (b : Uuid) (a : A) (rows : List A) → business_of a ≡ b → IsKeyed rows → IsKeyed (put b a rows)
  unfolding put
  put-IsKeyed b a [] h k = (refl, tt)
  put-IsKeyed b a (x ∷ rows) h k = elim (Bool-cases (is_row b (id_of a) x)) [
    | inl t ↦ rw (put_here b a x rows t) (
      any_same (business_of x) (business_of a) (id_of x) (id_of a) rows (ground (arith, h, t))
          (ground (arith, h, t)) k.0,
      k.1,
    )
    | inr t ↦
        rw (put_later b a x rows t)
          (any-put b a x rows (ground (arith, h, t)) k.0, put-IsKeyed b a rows h k.1)
  ]

  -- A repository refines a map from businesses and ids to entities, where no business has an id twice:
  -- `save` of an entity of the business changes the map at that entity's place, `remove` takes the
  -- place out, and both keep the ids apart.
  pub repository_refines_map :
      (b i : Uuid) (a : A) (rows : List A)
      → IsKeyed rows
      → business_of a ≡ b
      → ((saved : List A) × (save b a rows ≡ passed saved)
          × (lookup saved ≡ changed b (id_of a) (some a) (lookup rows))
          × IsKeyed saved)
        × (lookup (remove b i rows) ≡ changed b i none (lookup rows))
        × IsKeyed (remove b i rows)
  unfolding save
  repository_refines_map b i a rows k h = (
    (
      put b a rows,
      ground (arith, h),
      fun_ext (λ c. fun_ext (λ j. get-put b c j a rows h)),
      put-IsKeyed b a rows h k,
    ),
    fun_ext (λ c. fun_ext (λ j. get-remove b i c j rows k)),
    remove-IsKeyed b i rows k,
  )
