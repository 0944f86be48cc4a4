-- ===== src/Worker/Due.antt =====
-- How many follow-ups are due at a time, and what writes to the queue do to that number.
use closer_v.Prelude.{
  ℕ, ◌≤◌, ◌<◌, Bool, true, false, ◌&&◌, ◌≡◌, refl, inl, inr, Option, none, some, List, [], ◌∷◌,
  select, any, update_first, length, head?, sort_by, insert_by, arith, Bool-cases, All,
}
use closer_v.Prelude.Laws.{All-sort_by}
use closer_v.Domain.Values.{Uuid, Key, TimeText}
use closer_v.Domain.Texts.{le_trans}
use closer_v.Domain.Model.{FollowUpJobRecord, FollowUpJobStatus}
use closer_v.Store.State.{State}
use closer_v.Store.FollowUps.{
  is_due, due_before, due_time, has_run_out, is_claimable, has_id, next_due, end_attempt,
}
use closer_v.Store.FollowUps.Queue.{NotBefore, head_facts, sort_by-IsLeast}
use closer_v.Store.FollowUps.Leases.{end_attempt-cases}

-- How many follow-ups may be claimed at a time.
abbrev pub count_due : TimeText → List FollowUpJobRecord → ℕ
count_due now fs = length (select (is_due now) fs)

module _ (a b : TimeText) (h : NotBefore a b) where
  has_run_out-later :
      (lease : Option TimeText) → has_run_out lease a ≡ true → has_run_out lease b ≡ true
  has_run_out-later none t = t
  has_run_out-later (some until) t = rw (le_trans until a b (ground (arith, t)) h) refl

  is_claimable-later :
      (status : FollowUpJobStatus) (lease : Option TimeText)
      → is_claimable status lease a ≡ true
      → is_claimable status lease b ≡ true
  is_claimable-later FollowUpJobStatus.leased lease t = has_run_out-later lease t
  is_claimable-later FollowUpJobStatus.scheduled lease t = refl
  is_claimable-later FollowUpJobStatus.failed lease t = refl
  is_claimable-later FollowUpJobStatus.completed lease t = t
  is_claimable-later FollowUpJobStatus.cancelled lease t = t

  -- What is due stays due.
  pub is_due-later : (f : FollowUpJobRecord) → is_due a f ≡ true → is_due b f ≡ true
  is_due-later f t = ground (
    arith,
    t,
    is_claimable-later f.status f.lease_expires_at,
    has_run_out-later (some (due_time f)),
  )

  pub count_due-later : (fs : List FollowUpJobRecord) → count_due a fs ≤ count_due b fs
  count_due-later [] = omega arith
  count_due-later (f ∷ fs) =
      let rest = count_due-later fs in
      elim (Bool-cases (is_due a f)) [
        | inl t ↦ rw (t, is_due-later f t) (omega (arith, rest))
        | inr t ↦ rw t (elim (Bool-cases (is_due b f)) [
          | inl u ↦ rw u (omega (arith, rest))
          | inr u ↦ rw u rest
        ])
      ]

module _ (at : TimeText) where
  pub count_due-update_first-le :
      (p : FollowUpJobRecord → Bool) (write : FollowUpJobRecord → FollowUpJobRecord)
      (fs : List FollowUpJobRecord)
      → ((f : FollowUpJobRecord) → is_due at (write f) ≡ false)
      → count_due at (update_first p write fs) ≤ count_due at fs
  count_due-update_first-le p write [] h = omega arith
  count_due-update_first-le p write (f ∷ fs) h =
      let rest = count_due-update_first-le p write fs h in
      elim (Bool-cases (p f)) [
        | inl t ↦
            rw (t, h f)
              (elim (Bool-cases (is_due at f)) [
                | inl d ↦ rw d (omega arith)
                | inr d ↦ rw d (omega arith)
              ])
        | inr t ↦ rw t (elim (Bool-cases (is_due at f)) [
          | inl d ↦ rw d (omega (arith, rest))
          | inr d ↦ rw d rest
        ])
      ]

  pub count_due-update_first-lt :
      (p : FollowUpJobRecord → Bool) (write : FollowUpJobRecord → FollowUpJobRecord)
      (fs : List FollowUpJobRecord)
      → ((f : FollowUpJobRecord) → is_due at (write f) ≡ false)
      → ((f : FollowUpJobRecord) → p f ≡ true → is_due at f ≡ true)
      → any p fs ≡ true
      → count_due at (update_first p write fs) < count_due at fs
  count_due-update_first-lt p write [] h due a = absurd (cc)
  count_due-update_first-lt p write (f ∷ fs) h due a = elim (Bool-cases (p f)) [
    | inl t ↦ rw (t, h f, due f t) (omega arith)
    | inr t ↦
        let rest = count_due-update_first-lt p write fs h due (rw t at a) in
        rw t (elim (Bool-cases (is_due at f)) [
          | inl d ↦ rw d (omega (arith, rest))
          | inr d ↦ rw d rest
        ])
  ]

  -- The end of an attempt makes nothing due, where its write does not.
  pub end_attempt-count_due :
      (write : FollowUpJobRecord → FollowUpJobRecord) (id : Uuid) (worker key : Key) (s : State)
      → ((f : FollowUpJobRecord) → is_due at (write f) ≡ false)
      → count_due at (end_attempt write id worker key s).1.follow_ups ≤ count_due at s.follow_ups
  end_attempt-count_due write id worker key s h = elim (end_attempt-cases write id worker key s) [
    | inl same ↦ rw same (omega arith)
    | inr (f, found, held, written) ↦
        rw written (count_due-update_first-le (has_id f.id) write s.follow_ups h)
  ]

module _ (now : TimeText) where
  insert_by_some :
      (f : FollowUpJobRecord) (fs : List FollowUpJobRecord)
      → head? (insert_by due_before f fs) ≡ none
      → ⊥
  insert_by_some f [] h = ground (arith, h)
  insert_by_some f (g ∷ fs) h = ground (arith, h)

  none_first : (fs : List FollowUpJobRecord) → head? (sort_by due_before fs) ≡ none → length fs ≡ 0
  none_first [] h = refl
  none_first (f ∷ fs) h = absurd (insert_by_some f (sort_by due_before fs) h)

  -- Where no follow-up is offered, none is due.
  pub none_due : (fs : List FollowUpJobRecord) → next_due now fs ≡ none → count_due now fs ≡ 0
  unfolding next_due
  none_due fs h = none_first (select (is_due now) fs) h

  abbrev Stands : List FollowUpJobRecord → FollowUpJobRecord → Type 0
  Stands fs f = any (λ g. has_id f.id g && is_due now g) fs ≡ true

  Stands-later :
      (g : FollowUpJobRecord) (fs gs : List FollowUpJobRecord)
      → All (Stands fs) gs
      → All (Stands (g ∷ fs)) gs
  Stands-later g fs [] h = tt
  Stands-later g fs (f ∷ gs) h = (ground (arith, h.0), Stands-later g fs gs h.1)

  select-Stands : (fs : List FollowUpJobRecord) → All (Stands fs) (select (is_due now) fs)
  select-Stands [] = tt
  select-Stands (f ∷ fs) = elim (Bool-cases (is_due now f)) [
    | inl d ↦ rw d (ground (arith, d), Stands-later f fs _ (select-Stands fs))
    | inr d ↦ rw d (Stands-later f fs _ (select-Stands fs))
  ]

  -- The follow-up that is offered stands in the queue and is due.
  pub some_due :
      (fs : List FollowUpJobRecord) (f : FollowUpJobRecord)
      → next_due now fs ≡ some f
      → any (λ g. has_id f.id g && is_due now g) fs ≡ true
  unfolding next_due
  some_due fs f h =
      let due = select (is_due now) fs in
      (head_facts (Stands fs) (sort_by due_before due) f h (sort_by-IsLeast due)
        (All-sort_by due_before (Stands fs) due (select-Stands fs))).0
