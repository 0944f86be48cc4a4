-- ===== src/Client/FollowUps/Silence.antt =====
-- What a response and a cancellation leave waiting.
use closer_v.Prelude.{
  Bool, true, false, ◌&&◌, ◌==◌, ◌≡◌, refl, sym, ◌∙◌, ap, inl, inr, Option, none, some, List, [],
  ◌∷◌, any, find?, All, arith, Bool-cases,
}
use closer_v.Prelude.Laws.{All-select}
use closer_v.Domain.Values.{Uuid, Instant}
use closer_v.Client.Kinds.{FollowUpStopReason}
use closer_v.Client.Entities.{ScheduledFollowUp}
use closer_v.Client.Repository.{is_row, get, find_all, list}
use closer_v.Client.Repository.Refinement.{lookup, changed, get-put}
use closer_v.Client.Database.{
  Database, in_scheduled_follow_ups, save_in, save_in-own, scheduled_follow_up_entity,
}
use closer_v.Client.Stage.{is_scheduled}
use closer_v.Client.FollowUps.Progress.{
  is_for, save_each, complete_by_response, complete_for_customer_response, cancel_by,
  cancel_pending,
}

-- Whether the follow-up that is found waits in the conversation.
abbrev pub waits : Uuid → Option ScheduledFollowUp → Bool
waits conversation none = false
waits conversation (some f) = is_for conversation f

module _ (b i : Uuid) (write : ScheduledFollowUp → ScheduledFollowUp)
    (keeps : (f : ScheduledFollowUp)
      → ((write f).id ≡ f.id) × ((write f).business_id ≡ f.business_id))
    (closes : (f : ScheduledFollowUp) → is_scheduled (write f).status ≡ false) where
  abbrev found_in : Database → Option ScheduledFollowUp
  found_in d = get b i d.scheduled_follow_ups

  -- What is found after the saves and waits was found before, and none of the saves was for its id.
  untouched :
      (conversation : Uuid) (fs : List ScheduledFollowUp) (d : Database)
      → All (λ f. f.business_id ≡ b) fs
      → waits conversation (found_in (save_each b write fs d)) ≡ true
      → (found_in (save_each b write fs d) ≡ found_in d) × (any (λ f. f.id == i) fs ≡ false)
  unfolding save_each
  untouched conversation [] d own w = (refl, refl)
  untouched conversation (f ∷ fs) d own w =
      let d1 = (save_in in_scheduled_follow_ups b (write f) d).1 in
      let (kept, apart) = untouched conversation fs d1 own.1 w in
      let mine : (write f).business_id ≡ b = (keeps f).1 ∙ own.0 in
      let wrote : found_in d1
          ≡ changed b (write f).id (some (write f)) (lookup d.scheduled_follow_ups) b i =
        rw (save_in-own in_scheduled_follow_ups b (write f) d mine)
          (get-put b b i (write f) d.scheduled_follow_ups mine) in
      elim (Bool-cases (b == b && i == (write f).id)) [
        | inl here ↦
            let there : found_in d1 ≡ some (write f) = wrote ∙ rw here refl in
            absurd (clash conversation f (ap (waits conversation) (sym (kept ∙ there)) ∙ w))
        | inr other ↦
            let there : found_in d1 ≡ found_in d = wrote ∙ rw other refl in
            (kept ∙ there, not_it f fs other apart)
      ]
    where
      clash :
          (conversation : Uuid) (f : ScheduledFollowUp) → is_for conversation (write f) ≡ true → ⊥
      clash conversation f h = ground (arith, h, closes f)

      not_it :
          (f : ScheduledFollowUp) (fs : List ScheduledFollowUp)
          → (b == b && i == (write f).id) ≡ false
          → any (λ g. g.id == i) fs ≡ false
          → any (λ g. g.id == i) (f ∷ fs) ≡ false
      not_it f fs other apart = ground (arith, other, apart, (keeps f).0)

module _ (b i : Uuid) (test : ScheduledFollowUp → Bool) where
  -- What is found and passes the test is among what `find` returns.
  listed :
      (rows : List ScheduledFollowUp) (f : ScheduledFollowUp)
      → find? (is_row b i) rows ≡ some f
      → test f ≡ true
      → any (λ g. g.id == i) (find_all b test rows) ≡ true
  listed [] f e t = absurd (ground (arith, e))
  listed (g ∷ rows) f e t = elim (Bool-cases (is_row b i g)) [
    | inl here ↦
        let same : g ≡ f = ground (arith, here, e) in
        let own : (g.business_id == b) ≡ true = ground (arith, here) in
        let named : (g.id == i) ≡ true = ground (arith, here) in
        let passes : test g ≡ true = rw same t in rw (own, passes) (rw named refl)
    | inr other ↦
        let rest = listed rows f (rw other at e) t in
        elim (Bool-cases (g.business_id == b)) [
          | inr not_mine ↦ rw not_mine rest
          | inl mine ↦ elim (Bool-cases (test g)) [
            | inl u ↦ rw (mine, u) (ground (arith, rest))
            | inr u ↦ rw (mine, u) rest
          ]
        ]
  ]

  All-own : (rows : List ScheduledFollowUp) → All (λ f. f.business_id ≡ b) (find_all b test rows)
  All-own rows = All-select (λ f. f.business_id ≡ b) test (list b rows) (own rows)
    where
      own : (rows : List ScheduledFollowUp) → All (λ f. f.business_id ≡ b) (list b rows)
      own [] = tt
      own (f ∷ rows) = elim (Bool-cases (f.business_id == b)) [
        | inl t ↦ rw t (ground (arith, t), own rows)
        | inr t ↦ rw t (own rows)
      ]

-- The saves over all that waits in a conversation leave nothing waiting there.
all_closed :
    (b i conversation : Uuid) (write : ScheduledFollowUp → ScheduledFollowUp) (d : Database)
    → ((f : ScheduledFollowUp) → ((write f).id ≡ f.id) × ((write f).business_id ≡ f.business_id))
    → ((f : ScheduledFollowUp) → is_scheduled (write f).status ≡ false)
    → waits conversation (
        get b i
          (save_each b write
            (find_all b (is_for conversation) d.scheduled_follow_ups)
            d).scheduled_follow_ups)
      ≡ false
unfolding get
all_closed b i conversation write d keeps closes =
    let fs = find_all b (is_for conversation) d.scheduled_follow_ups in
    elim (Bool-cases (waits conversation (get b i (save_each b write fs d).scheduled_follow_ups))) [
      | inr t ↦ t
      | inl w ↦
          let (kept, apart) =
            untouched b i write keeps closes conversation fs d
              (All-own b i (is_for conversation) d.scheduled_follow_ups) w in
          absurd (
            clash (get b i d.scheduled_follow_ups) refl (ap (waits conversation) (sym kept) ∙ w)
              apart)
    ]
  where
    clash :
        (o : Option ScheduledFollowUp)
        → get b i d.scheduled_follow_ups ≡ o
        → waits conversation o ≡ true
        → any (λ g. g.id == i) (find_all b (is_for conversation) d.scheduled_follow_ups) ≡ false
        → ⊥
    clash none e w apart = ground (arith, w)
    clash (some f) e w apart =
        let there = listed b i (is_for conversation) d.scheduled_follow_ups f e w in
        ground (arith, there, apart)

-- A response of the customer and a cancellation silence the conversation: afterwards no follow-up that
-- `get` finds, by whatever id, waits in it.
pub conversation_silenced :
    (b i conversation : Uuid) (reason : FollowUpStopReason) (manual : Bool) (now : Instant)
    (d : Database)
    → (waits conversation
          (get b i (complete_for_customer_response b conversation now d).scheduled_follow_ups)
        ≡ false)
      × (waits conversation
            (get b i (cancel_pending b conversation reason manual now d).scheduled_follow_ups)
          ≡ false)
unfolding complete_for_customer_response cancel_pending
conversation_silenced b i conversation reason manual now d = (
  all_closed b i conversation (complete_by_response now) d (λ f. (refl, refl)) (λ f. refl),
  all_closed b i conversation (cancel_by reason manual now) d (λ f. (refl, refl)) (λ f. refl),
)
