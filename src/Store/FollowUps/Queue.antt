-- ===== src/Store/FollowUps/Queue.antt =====
-- Which follow-up a worker gets.
use closer_v.Prelude.{
  true, false, ◌≡◌, inl, inr, some, List, [], ◌∷◌, arith, subst, select, head?, sort_by, insert_by,
  All, Bool-cases,
}
use closer_v.Prelude.Laws.{All-insert_by, All-sort_by}
use closer_v.Domain.Values.{TimeText, text_before}
use closer_v.Domain.Texts.{flip, le_trans}
use closer_v.Domain.Model.{FollowUpJobRecord}
use closer_v.Store.FollowUps.{due_before, is_due, next_due}

-- The second time is not before the first.
abbrev pub NotBefore : TimeText → TimeText → Type 0
NotBefore a b = text_before b a ≡ false

-- The head of the list is due no later than any of it.
abbrev IsLeast : List FollowUpJobRecord → Type 0
IsLeast [] = Unit
IsLeast (f ∷ fs) = All (λ g. NotBefore f.due_at g.due_at) (f ∷ fs)

All-weaken :
    (m n : TimeText) (fs : List FollowUpJobRecord)
    → NotBefore m n
    → All (λ g. NotBefore n g.due_at) fs
    → All (λ g. NotBefore m g.due_at) fs
All-weaken m n [] h k = tt
All-weaken m n (g ∷ fs) h k = (le_trans m n g.due_at h k.0, All-weaken m n fs h k.1)

itself : (a : TimeText) → NotBefore a a
itself a = elim (Bool-cases (text_before a a)) [ inl t ↦ flip a a t | inr f ↦ f ]

insert_by-IsLeast :
    (f : FollowUpJobRecord) (fs : List FollowUpJobRecord)
    → IsLeast fs
    → IsLeast (insert_by due_before f fs)
insert_by-IsLeast f [] h = (itself f.due_at, tt)
insert_by-IsLeast f (g ∷ fs) h = elim (Bool-cases (due_before g f)) [
  | inl e ↦ rw e (
    h.0,
    All-insert_by due_before (λ x. NotBefore g.due_at x.due_at) f fs (flip g.due_at f.due_at e) h.1,
  )
  | inr e ↦ rw e (itself f.due_at, All-weaken f.due_at g.due_at (g ∷ fs) e h)
]

pub sort_by-IsLeast : (fs : List FollowUpJobRecord) → IsLeast (sort_by due_before fs)
sort_by-IsLeast [] = tt
sort_by-IsLeast (f ∷ fs) = insert_by-IsLeast f (sort_by due_before fs) (sort_by-IsLeast fs)

-- The order of a claim is over a permutation: what holds of the sorted list holds of the list.
All-insert_by_back :
    (P : FollowUpJobRecord → Type 0) (f : FollowUpJobRecord) (fs : List FollowUpJobRecord)
    → All P (insert_by due_before f fs)
    → P f × All P fs
All-insert_by_back P f [] h = h
All-insert_by_back P f (g ∷ fs) h =
    elim (Bool-cases (due_before g f)) as (λ c. P f × All P (g ∷ fs)) [
      | inl e ↦
          let k : P g × All P (insert_by due_before f fs) = rw e at h in
          let (pf, rest) = All-insert_by_back P f fs k.1 in (pf, (k.0, rest))
      | inr e ↦ let k : P f × All P (g ∷ fs) = rw e at h in k
    ]

All-sort_by_back :
    (P : FollowUpJobRecord → Type 0) (fs : List FollowUpJobRecord)
    → All P (sort_by due_before fs)
    → All P fs
All-sort_by_back P [] h = tt
All-sort_by_back P (f ∷ fs) h =
    let (pf, rest) = All-insert_by_back P f (sort_by due_before fs) h in
    (pf, All-sort_by_back P fs rest)

All-select_back :
    (now : TimeText) (n : TimeText) (fs : List FollowUpJobRecord)
    → All (λ g. NotBefore n g.due_at) (select (is_due now) fs)
    → All (λ g. is_due now g ≡ true → NotBefore n g.due_at) fs
All-select_back now n [] h = tt
All-select_back now n (f ∷ fs) h = elim (Bool-cases (is_due now f)) [
  | inl e ↦
      let k : (NotBefore n f.due_at) × All (λ g. NotBefore n g.due_at) (select (is_due now) fs) =
        rw e at h in
      ((λ _. k.0), All-select_back now n fs k.1)
  | inr e ↦ ((λ t. absurd (ground (arith, e, t))), All-select_back now n fs (rw e at h))
]

select_due :
    (now : TimeText) (fs : List FollowUpJobRecord)
    → All (λ g. is_due now g ≡ true) (select (is_due now) fs)
select_due now [] = tt
select_due now (f ∷ fs) = elim (Bool-cases (is_due now f)) [
  | inl e ↦ rw e (e, select_due now fs)
  | inr e ↦ rw e (select_due now fs)
]

pub head_facts :
    (P : FollowUpJobRecord → Type 0) (fs : List FollowUpJobRecord) (f : FollowUpJobRecord)
    → head? fs ≡ some f
    → IsLeast fs
    → All P fs
    → P f × All (λ g. NotBefore f.due_at g.due_at) fs
head_facts P [] f e l h = absurd (cc)
head_facts P (g ∷ fs) f e l h =
    let same : g ≡ f = cc in
    subst (λ x. P x × All (λ y. NotBefore x.due_at y.due_at) (g ∷ fs)) same (h.0, l)

-- The follow-up that a worker is offered is due, and the `dueAt` of none that is due is, as a text,
-- before its own.
pub next_due_earliest :
    (now : TimeText) (fs : List FollowUpJobRecord) (f : FollowUpJobRecord)
    → next_due now fs ≡ some f
    → (is_due now f ≡ true) × All (λ g. is_due now g ≡ true → NotBefore f.due_at g.due_at) fs
unfolding next_due
next_due_earliest now fs f e =
    let due = select (is_due now) fs in
    let (d, l) =
      head_facts (λ g. is_due now g ≡ true) (sort_by due_before due) f e (sort_by-IsLeast due)
        (All-sort_by due_before _ due (select_due now fs)) in
    (d, All-select_back now f.due_at fs (All-sort_by_back _ due l))
