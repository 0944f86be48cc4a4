-- ===== src/Client/Repository/Counts.antt =====
-- How many rows of a collection pass a test, before a save and after it.
use closer_v.Prelude.{
  ℕ, ◌+◌, ◌≤◌, Bool, true, false, ◌&&◌, ◌==◌, ◌≡◌, refl, subst, inl, inr, Option, none, some, List,
  [], ◌∷◌, ◌++◌, find?, select, any, update_first, length, head?, arith, Bool-cases,
}
use closer_v.Prelude.Laws.{any_of_find?}
use closer_v.Domain.Values.{Uuid}
use closer_v.Client.Repository.{Entity, is_row, id_of, business_of, get, put, find_all}

-- How many rows pass a test.
abbrev pub count : {A : Type 0} → (A → Bool) → List A → ℕ
count test rows = length (select test rows)

module _ {A : Type 0} ⦃e : Entity A⦄ (test : A → Bool) where
  ap_some : {o : Option A} {x y : A} → o ≡ some x → o ≡ some y → x ≡ y
  ap_some f g = ground (arith, f, g)

  count-append : (xs : List A) (a : A) → count test (xs ++ a ∷ []) ≤ count test xs + 1
  count-append [] a = ground arith
  count-append (x ∷ xs) a = ground (arith, count-append xs a)

  count-append_other :
      (xs : List A) (a : A) → test a ≡ false → count test (xs ++ a ∷ []) ≡ count test xs
  count-append_other [] a h = ground (arith, h)
  count-append_other (x ∷ xs) a h = ground (arith, count-append_other xs a h)

  count-update :
      (p : A → Bool) (a : A) (xs : List A)
      → count test (update_first p (λ _. a) xs) ≤ count test xs + 1
  count-update p a [] = ground arith
  count-update p a (x ∷ xs) = ground (arith, count-update p a xs)

  count-update_found :
      (p : A → Bool) (a : A) (xs : List A)
      → ((x : A) → find? p xs ≡ some x → test a ≡ true → test x ≡ true)
      → count test (update_first p (λ _. a) xs) ≤ count test xs
  count-update_found p a [] h = omega arith
  count-update_found p a (x ∷ xs) h = elim (Bool-cases (p x)) [
    | inl t ↦ let k = h x (rw t refl) in rw t (ground (arith, k))
    | inr t ↦
        let rest = count-update_found p a xs (λ y f. h y (rw t f)) in rw t (ground (arith, rest))
  ]

  -- A write of an entity that passes only where the row that it replaces does.
  pub count-put_found :
      (b : Uuid) (a x : A) (rows : List A)
      → get b (id_of a) rows ≡ some x
      → (test a ≡ true → test x ≡ true)
      → count test (put b a rows) ≤ count test rows
  unfolding put get
  count-put_found b a x rows f h = elim (Bool-cases (any (is_row b (id_of a)) rows)) [
    | inl t ↦ rw t (
        count-update_found (is_row b (id_of a)) a rows
          (λ y g u. subst (λ z. test z ≡ true) (ap_some f g) (h u)))
    | inr t ↦ absurd (let k = any_of_find? (is_row b (id_of a)) rows x f in cc)
  ]

  pub count-put_other :
      (b : Uuid) (a : A) (rows : List A)
      → test a ≡ false
      → count test (put b a rows) ≤ count test rows
  unfolding put
  count-put_other b a rows h = elim (Bool-cases (any (is_row b (id_of a)) rows)) [
    | inl t ↦ rw t (count-update_found (is_row b (id_of a)) a rows (λ y g u. absurd (cc)))
    | inr t ↦ rw t (let k = count-append_other rows a h in omega (arith, k))
  ]

  pub count-put :
      (b : Uuid) (a : A) (rows : List A) → count test (put b a rows) ≤ count test rows + 1
  unfolding put
  count-put b a rows = elim (Bool-cases (any (is_row b (id_of a)) rows)) [
    | inl t ↦ rw t (count-update (is_row b (id_of a)) a rows)
    | inr t ↦ rw t (count-append rows a)
  ]

module _ {A : Type 0} ⦃e : Entity A⦄ (test : A → Bool) where
  -- Where `find` finds nothing, no row of the business passes the test.
  pub count_none :
      (b : Uuid) (rows : List A)
      → head? (find_all b test rows) ≡ none
      → count (λ a. business_of a == b && test a) rows ≡ 0
  count_none b [] h = refl
  count_none b (a ∷ rows) h = elim (Bool-cases (business_of a == b)) [
    | inl t ↦ elim (Bool-cases (test a)) [
      | inl u ↦ absurd (differs (rw (t, u) at h))
      | inr u ↦ rw (t, u) (count_none b rows (rw (t, u) at h))
    ]
    | inr t ↦ rw t (count_none b rows (rw t at h))
  ]
    where
      differs : some a ≡ none → ⊥
      differs k = ground (arith, k)
