-- ===== src/Client/Attribution/Evidence.antt =====
-- What a verification leaves behind.
use closer_v.Prelude.{
  true, false, ◌&&◌, ◌==◌, ◌≡◌, refl, sym, ◌∙◌, ap, ◌⊎◌, inl, inr, some, List, [], ◌∷◌, any, every,
  All, arith, Bool-cases, Option-cases, if-both,
}
use closer_v.Prelude.Laws.{find?-holds, All-append, All-update_first}
use closer_v.Domain.Values.{Uuid, Instant}
use closer_v.Client.Entities.{Activity, RevenueEvent}
use closer_v.Client.Rules.{Checked, Checked-cases, passed}
use closer_v.Client.Repository.{Entity, is_row, id_of, business_of, get, put}
use closer_v.Client.Repository.Refinement.{get-put}
use closer_v.Client.Database.{
  Database, in_revenue_events, save_in-own, activity_entity, revenue_event_entity,
}
use closer_v.Client.Attribution.{
  VerifyRevenueAttributionInput, is_verified, is_evidence, has_ids, distinct, attributed,
  check_evidence, check_input, verify_event, verify, verify_checked, save_attribution, is_repeat,
}

-- A write that keeps a property keeps it of all rows.
All-put {ℓ κ} :
    {A : Type ℓ} ⦃e : Entity A⦄ (P : A → Type κ) (b : Uuid) (a : A) (rows : List A)
    → P a
    → All P rows
    → All P (put b a rows)
unfolding put
All-put P b a rows h hs = elim (Bool-cases (any (is_row b (id_of a)) rows)) [
  | inl t ↦ rw t (All-update_first P (is_row b (id_of a)) (λ _. a) (λ x m v. h) rows hs)
  | inr t ↦ rw t (All-append P rows (a ∷ []) hs (h, tt))
]

-- What a verification did: nothing, or it saved the event that it found, unverified before, with
-- evidence that fits.
module _ (input : VerifyRevenueAttributionInput) (now : Instant) (d : Database) where
  pub record Saves (e : RevenueEvent) : Type 0 where
    pub is_found : get input.business_id input.revenue_event_id d.revenue_events ≡ some e
    pub unverified : is_verified e.attribution_status ≡ false
    pub named : has_ids (distinct input.contributing_activity_ids) ≡ true
    pub fits :
        every
          (λ id. is_evidence e (get input.business_id id d.activities))
          (distinct input.contributing_activity_ids)
        ≡ true
    pub written : (verify input now d).1 ≡ record d {
      revenue_events =
          put input.business_id
            (attributed input (distinct input.contributing_activity_ids) now e)
            d.revenue_events;
    }

  check_input-found :
      (e : RevenueEvent)
      → check_input input d ≡ passed e
      → (get input.business_id input.revenue_event_id d.revenue_events ≡ some e)
        × (has_ids (distinct input.contributing_activity_ids) ≡ true)
  unfolding check_input
  check_input-found e h =
      elim (Option-cases (get input.business_id input.revenue_event_id d.revenue_events)) [
        | inl missing ↦ absurd (ground (arith, h, missing))
        | inr (x, found) ↦ (ground (arith, h, found), ground (arith, h, found))
      ]

  check_evidence-fits :
      (e : RevenueEvent) (u : Unit {0})
      → check_evidence input (distinct input.contributing_activity_ids) e d ≡ passed u
      → every
          (λ id. is_evidence e (get input.business_id id d.activities))
          (distinct input.contributing_activity_ids)
        ≡ true
  unfolding check_evidence
  check_evidence-fits e u h = ground (arith, h)

  found-business :
      (e : RevenueEvent)
      → get input.business_id input.revenue_event_id d.revenue_events ≡ some e
      → (business_of e ≡ input.business_id) × (id_of e ≡ input.revenue_event_id)
  unfolding get
  found-business e h =
      let row =
        find?-holds (is_row input.business_id input.revenue_event_id) d.revenue_events e h in
      (ground (arith, row), ground (arith, row))

  save_written :
      (e : RevenueEvent)
      → business_of e ≡ input.business_id
      → (save_attribution input now e (passed tt) d).1 ≡ record d {
        revenue_events =
            put input.business_id
              (attributed input (distinct input.contributing_activity_ids) now e)
              d.revenue_events;
      }
  save_written e own =
      ap (λ r. r.1)
        (save_in-own in_revenue_events input.business_id
          (attributed input (distinct input.contributing_activity_ids) now e) d own)

  verify_event-cases :
      (e : RevenueEvent)
      → ((verify_event input now e d).1 ≡ d)
        ⊎ (is_verified e.attribution_status ≡ false)
          × (check_evidence input (distinct input.contributing_activity_ids) e d ≡ passed tt)
          × ((verify_event input now e d).1 ≡ (save_attribution input now e (passed tt) d).1)
  unfolding verify_event
  verify_event-cases e = elim (Bool-cases (is_verified e.attribution_status)) [
    | inl old ↦ inl (
        rw old (
          if-both {A = Checked RevenueEvent × Database} (λ r. r.1 ≡ d)
            (is_repeat input (distinct input.contributing_activity_ids) e) refl refl))
    | inr new ↦
        elim (Checked-cases (check_evidence input (distinct input.contributing_activity_ids) e d)) [
          | inr (x, bad) ↦ inl (rw (new, bad) refl)
          | inl (u, good) ↦ inr (new, good, rw (new, good) refl)
        ]
  ]

  verify-cases : ((verify input now d).1 ≡ d) ⊎ (e : RevenueEvent) × Saves e
  unfolding verify
  verify-cases = elim (Checked-cases (check_input input d)) [
    | inr (x, r) ↦ inl (ap (λ c. (verify_checked input now c d).1) r)
    | inl (e, r) ↦
        let (found, named) = check_input-found e r in
        let checked = ap (λ c. (verify_checked input now c d).1) r in
        elim (verify_event-cases e) [
          | inl same ↦ inl (checked ∙ same)
          | inr (new, good, wrote) ↦ inr (
            e,
            record {
              is_found = found;
              unverified = new;
              named = named;
              fits = check_evidence-fits e tt good;
              written = checked ∙ wrote ∙ save_written e (found-business e found).0;
            },
          )
        ]
  ]

-- A verified attribution is immutable: no call of `verify`, with whatever input, changes an event that
-- is verified, or loses it.
pub verify-is_verified :
    (input : VerifyRevenueAttributionInput) (now : Instant) (d : Database) (business id : Uuid)
    (e : RevenueEvent)
    → get business id d.revenue_events ≡ some e
    → is_verified e.attribution_status ≡ true
    → get business id (verify input now d).1.revenue_events ≡ some e
verify-is_verified input now d business id e found old = elim (verify-cases input now d) [
  | inl same ↦ rw same found
  | inr (x, saves) ↦
      let (own, named) = found-business input now d x saves.is_found in
      let wrote =
        get-put input.business_id business id
          (attributed input (distinct input.contributing_activity_ids) now x) d.revenue_events
          own in
      elim (Bool-cases (business == input.business_id && id == id_of x)) [
        | inl here ↦ absurd (clash x saves.is_found saves.unverified named here)
        | inr apart ↦ rw saves.written (wrote ∙ rw apart found)
      ]
]
  where
    clash :
        (x : RevenueEvent)
        → get input.business_id input.revenue_event_id d.revenue_events ≡ some x
        → is_verified x.attribution_status ≡ false
        → id_of x ≡ input.revenue_event_id
        → (business == input.business_id && id == id_of x) ≡ true
        → ⊥
    clash x there new named here =
        let same_business : business ≡ input.business_id = ground (arith, here) in
        let same_id : id ≡ input.revenue_event_id = ground (arith, here, named) in
        let both : some e ≡ some x = sym found ∙ rw (same_business, same_id) there in
        ground (arith, both, old, new)

-- A verified event names activities, and each is of its customer and its conversation and not later.
pub record IsEvidenced (activities : List Activity) (e : RevenueEvent) : Type 0 where
  pub named : has_ids e.contributing_activity_ids ≡ true
  pub fits :
      every (λ id. is_evidence e (get e.business_id id activities)) e.contributing_activity_ids
      ≡ true

-- Every verified event of the database has its evidence there.
abbrev pub AllEvidenced : Database → Type 0
AllEvidenced d =
    All (λ e. is_verified e.attribution_status ≡ true → IsEvidenced d.activities e) d.revenue_events

-- No revenue is claimed without evidence: `verify` keeps, for every verified event, activities of the
-- same customer and conversation, not later than the revenue.
pub verify-AllEvidenced :
    (input : VerifyRevenueAttributionInput) (now : Instant) (d : Database)
    → AllEvidenced d
    → AllEvidenced (verify input now d).1
verify-AllEvidenced input now d h = elim (verify-cases input now d) [
  | inl same ↦ rw same h
  | inr (x, saves) ↦
      let own = (found-business input now d x saves.is_found).0 in
      rw saves.written (
        All-put (λ e. is_verified e.attribution_status ≡ true → IsEvidenced d.activities e)
          input.business_id (attributed input (distinct input.contributing_activity_ids) now x)
          d.revenue_events (λ v. record { named = saves.named; fits = rw own saves.fits }) h)
]
