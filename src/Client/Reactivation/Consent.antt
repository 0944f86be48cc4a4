-- ===== src/Client/Reactivation/Consent.antt =====
-- Who is offered for a reactivation.
use closer_v.Prelude.{
  ℕ, Bool, true, false, not, ◌&&◌, ◌==◌, ◌≡◌, refl, sym, ap, ◌∙◌, subst, inl, inr, Option, none,
  some, List, [], ◌∷◌, head?, any, All, arith, Bool-cases,
}
use closer_v.Prelude.Laws.{All-sort_by}
use closer_v.Domain.Values.{Uuid, Instant}
use closer_v.Client.Entities.{BusinessSettings, Contact, Lead, ScheduledFollowUp}
use closer_v.Client.Rules.{passed}
use closer_v.Client.Repository.{get, list}
use closer_v.Client.Database.{Database, business_settings_entity, contact_entity, lead_entity}
use closer_v.Client.Journey.Stages.{is_lost}
use closer_v.Client.Reactivation.{
  ReactivationReason, ReactivationCandidate, eligible_reason, is_inactive, is_reachable,
  consent_for, prepared_for, make_candidate, consider, candidate_of, add_some, candidates_of,
  comes_before, candidates_with, list_candidates,
}

abbrev pub is_none {ℓ} : {A : Type ℓ} → Option A → Bool
is_none none = true
is_none (some a) = false

abbrev pub is_at : Instant → Option Instant → Bool
is_at since none = false
is_at since (some closed) = since == closed

-- The lead stands behind the candidate: it is lost for a reason that leaves a chance, was closed at the
-- time that the candidate names and is inactive since, its customer's consent allows marketing and is
-- not withdrawn, and no reactivation of its conversation waits.
abbrev pub stands_behind : Uuid → ℕ → Instant → Database → ReactivationCandidate → Lead → Bool
stands_behind business days now d c lead =
    lead.id == c.lead_id
    && is_lost lead.status
    && not (is_none (eligible_reason lead.lost_reason))
    && is_at c.inactive_since lead.closed_at
    && is_inactive days c.inactive_since now
    && is_reachable (consent_for business lead d)
    && is_none (prepared_for business lead d)

any_later {ℓ} :
    {A : Type ℓ} (p : A → Bool) (x : A) (xs : List A) → any p xs ≡ true → any p (x ∷ xs) ≡ true
any_later p x xs h = ground (arith, h)

module _ (business : Uuid) (days : ℕ) (now : Instant) (d : Database) where
  differs : {c : ReactivationCandidate} → none ≡ some c → ⊥
  differs e = ground (arith, e)

  made_stands :
      (lead : Lead) (reason : ReactivationReason) (closed : Instant) (contact : Option Contact)
      (reachable : Bool) (prepared : Option ScheduledFollowUp) (c : ReactivationCandidate)
      → make_candidate business lead reason closed d contact reachable prepared ≡ some c
      → (reachable ≡ true)
        × (is_none prepared ≡ true)
        × (c.lead_id ≡ lead.id)
        × (c.inactive_since ≡ closed)
  made_stands lead reason closed none reachable prepared c e = absurd (differs e)
  made_stands lead reason closed (some contact) false prepared c e = absurd (differs e)
  made_stands lead reason closed (some contact) true (some f) c e = absurd (differs e)
  made_stands lead reason closed (some contact) true none c e =
      (refl, refl, ground (arith, e), ground (arith, e))

  considered_stands :
      (lead : Lead) (at : Option Instant) (why : Option ReactivationReason)
      (c : ReactivationCandidate)
      → lead.closed_at ≡ at
      → eligible_reason lead.lost_reason ≡ why
      → consider business days now d lead at why ≡ some c
      → stands_behind business days now d c lead ≡ true
  considered_stands lead none why c at why_so e = absurd (differs e)
  considered_stands lead (some closed) none c at why_so e = absurd (differs e)
  considered_stands lead (some closed) (some reason) c closed_then for_reason e =
      elim (Bool-cases (is_lost lead.status && is_inactive days closed now)) [
        | inr kept ↦ absurd (differs (rw kept at e))
        | inl lost ↦
            let (allowed, free, same_lead, since) =
              made_stands lead reason closed (get business lead.contact_id d.contacts)
                (is_reachable (consent_for business lead d)) (prepared_for business lead d) c
                (rw lost at e) in
            ground (arith, lost, allowed, free, same_lead, since, closed_then, for_reason)
      ]

  -- A lead of the list stands behind the candidate.
  abbrev pub IsBacked : List Lead → ReactivationCandidate → Type 0
  IsBacked leads c = any (stands_behind business days now d c) leads ≡ true

  IsBacked-later :
      (lead : Lead) (leads : List Lead) (cs : List ReactivationCandidate)
      → All (IsBacked leads) cs
      → All (IsBacked (lead ∷ leads)) cs
  IsBacked-later lead leads [] h = tt
  IsBacked-later lead leads (c ∷ cs) h = (
    any_later (stands_behind business days now d c) lead leads h.0,
    IsBacked-later lead leads cs h.1,
  )

  added-IsBacked :
      (lead : Lead) (leads : List Lead) (o : Option ReactivationCandidate)
      (cs : List ReactivationCandidate)
      → ((c : ReactivationCandidate) → o ≡ some c → stands_behind business days now d c lead ≡ true)
      → All (IsBacked leads) cs
      → All (IsBacked (lead ∷ leads)) (add_some o cs)
  added-IsBacked lead leads none cs k h = IsBacked-later lead leads cs h
  added-IsBacked lead leads (some c) cs k h = (rw (k c refl) refl, IsBacked-later lead leads cs h)

  candidates-IsBacked :
      (leads : List Lead) → All (IsBacked leads) (candidates_of business days now d leads)
  candidates-IsBacked [] = tt
  candidates-IsBacked (lead ∷ leads) =
      added-IsBacked lead leads (candidate_of business days now d lead)
        (candidates_of business days now d leads)
        (λ c e.
          considered_stands lead lead.closed_at (eligible_reason lead.lost_reason) c refl refl e)
        (candidates-IsBacked leads)

-- Only customers who may be contacted are offered for a reactivation: behind each candidate that
-- `listCandidates` returns stands a lead of the business, lost for a reason that leaves a chance, closed
-- at the time that the candidate names, which is the configured days ago at least, and of a customer whose consent allows marketing and is not withdrawn, with no reactivation waiting.
pub list_candidates-IsBacked :
    (business : Uuid) (now : Instant) (d : Database) (settings : BusinessSettings)
    (cs : List ReactivationCandidate)
    → head? (list business d.business_settings) ≡ some settings
    → list_candidates business now d ≡ passed cs
    → All (IsBacked business settings.reactivation_inactivity_days now d (list business d.leads)) cs
unfolding list_candidates
list_candidates-IsBacked business now d settings cs known e =
    let days = settings.reactivation_inactivity_days in
    subst (All (IsBacked business days now d (list business d.leads)))
      (same (ap (candidates_with business now d) (sym known) ∙ e))
      (All-sort_by comes_before (IsBacked business days now d (list business d.leads))
        (candidates_of business days now d (list business d.leads))
        (candidates-IsBacked business days now d (list business d.leads)))
  where
    same : {xs ys : List ReactivationCandidate} → passed xs ≡ passed ys → xs ≡ ys
    same h = ground (arith, h)
