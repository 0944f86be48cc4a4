-- ===== src/Client/Journey/Closing.antt =====
-- When the journey closes an opportunity.
use closer_v.Prelude.{
  true, ◌==◌, ◌≡◌, refl, subst, inl, inr, Option, none, some, List, arith, Option-cases,
}
use closer_v.Prelude.Int.{ℤ, pos, negsuc, ◌≤ℤ◌}
use closer_v.Domain.Values.{Uuid, Cents}
use closer_v.Client.Kinds.{LeadStatus}
use closer_v.Client.Entities.{Appointment, Conversation, Job, Lead, Payment, Quote}
use closer_v.Client.Rules.{passed, rest_of, remaining_balance, collected_for_reference}
use closer_v.Client.Repository.{get, list}
use closer_v.Client.Database.{Database, lead_entity, conversation_entity, payment_entity}
use closer_v.Client.Journey.View.{CommercialOpportunityView, JourneyReconciliation}
use closer_v.Client.Journey.Evaluate.{
  Reference, reference_of, journey_state, closes_won, view_of, evaluate_lead, evaluate,
  appointment_of, quote_of, job_of,
}

module _ (P : JourneyReconciliation → Type 0) (business id : Uuid) (d : Database) where
  -- What holds of each lead's evaluation holds of what `evaluate` returns.
  of_evaluate :
      (r : JourneyReconciliation)
      → evaluate business id d ≡ passed r
      → ((lead : Lead) (c : Conversation) → P (evaluate_lead business lead c d))
      → P r
  unfolding evaluate
  of_evaluate r e holds = elim (Option-cases (get business id d.leads)) [
    | inl missing ↦ absurd (ground (arith, e, missing))
    | inr (lead, found) ↦ elim (Option-cases (get business lead.conversation_id d.conversations)) [
      | inl missing ↦ absurd (ground (arith, e, found, missing))
      | inr (c, known) ↦
          let same : evaluate_lead business lead c d ≡ r = ground (arith, e, found, known) in
          subst P same (holds lead c)
    ]
  ]

-- Nothing is left of a total that is covered.
rest_covered : (total : Cents) (paid : ℤ) → (rest_of total paid == 0) ≡ true → pos total ≤ℤ paid
rest_covered total (pos n) h = ground (arith, h)
rest_covered total (negsuc n) h = ground (arith, h)

-- The opportunity is for a total, and at least that is collected.
pub record IsPaid (o : CommercialOpportunityView) : Type 0 where
  pub total : Cents
  pub is_total : o.total_cents ≡ some total
  pub covered : pos total ≤ℤ o.collected_cents
  pub won : o.lead_status ≡ LeadStatus.won

reconcile-IsPaid :
    (business : Uuid) (lead : Lead) (c : Conversation) (a : Option Appointment) (q : Option Quote)
    (j : Option Job) (payments : List Payment)
    → closes_won (journey_state lead c a q j payments) ≡ true
    → IsPaid (view_of business lead a q j (journey_state lead c a q j payments))
unfolding remaining_balance
reconcile-IsPaid business lead c a q j payments h = paid (reference_of a j) refl
  where
    paid :
        (r : Option Reference)
        → reference_of a j ≡ r
        → IsPaid (view_of business lead a q j (journey_state lead c a q j payments))
    paid none e = absurd (ground (arith, e, h))
    paid (some r) e = record {
      total = r.total_cents;
      is_total = ground (arith, e);
      covered = rw e (
          rest_covered r.total_cents (collected_for_reference payments r.id (some r.kind))
            (ground (arith, e, h)));
      won = ground (arith, h);
    }

-- The journey closes an opportunity as won only when it is paid: what `evaluate` wants closed has a
-- total, of the job or else of the appointment, and the collected amount covers it.
pub evaluate-IsPaid :
    (business id : Uuid) (d : Database) (r : JourneyReconciliation)
    → evaluate business id d ≡ passed r
    → r.should_close_won ≡ true
    → IsPaid r.opportunity
evaluate-IsPaid business id d r e =
    of_evaluate (λ x. x.should_close_won ≡ true → IsPaid x.opportunity) business id d r e
      (λ lead c.
        reconcile-IsPaid business lead c (appointment_of business lead d) (quote_of business lead d)
          (job_of business lead d) (list business d.payments))
