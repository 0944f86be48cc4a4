-- ===== src/Client/Journey/Agreement.antt =====
-- The two computations of the stage, `ConversationStageService.infer` and `CommercialJourneyService`,
-- on the same work.
use closer_v.Prelude.{
  Bool, ◌+◌, ◌≤◌, true, false, not, ◌&&◌, ◌==◌, ltb, ◌≡◌, refl, ap, ◌∙◌, inl, inr, Option, none,
  some, List, [], ◌∷◌, select, All, arith, if◌then◌else◌, Bool-cases,
}
use closer_v.Prelude.Int.{ℤ, pos, negsuc}
use closer_v.Domain.Values.{Uuid, Cents}
use closer_v.Client.Kinds.{ConversationStage, PaymentReferenceType}
use closer_v.Client.Entities.{
  Appointment, BusinessKnowledge, Conversation, CustomerMemoryItem, Job, Lead, Payment, Quote,
}
use closer_v.Client.Repository.{list, find_all}
use closer_v.Client.Rules.{
  is_cancelled, counts_for, sum_signed, is_lead_active, rest_of, remaining_balance,
  collected_for_reference,
}
use closer_v.Client.Database.{
  Database, appointment_entity, job_entity, quote_entity, payment_entity,
  scheduled_follow_up_entity,
}
use closer_v.Client.Stage.Newest.{newest-select}
use closer_v.Client.Stage.{StageContext, newest, balance_stage, infer}
use closer_v.Client.Journey.Stages.{is_below, is_zero, stage_of}
use closer_v.Client.Journey.Evaluate.{
  journey_state, appointment_of, quote_of, job_of, evaluate_lead,
}

-- A deposit within the total is lacking by what is left to pay exactly where it is by what is paid.
lacks_as_below :
    (total deposit : Cents) (paid : ℤ)
    → deposit ≤ total
    → ltb total (deposit + rest_of total paid) ≡ is_below paid deposit
lacks_as_below total deposit (pos n) h = ground (arith, h)
lacks_as_below total deposit (negsuc n) h = ground (arith, h)

rest_as_zero :
    (rest : Cents)
    → balance_stage rest ≡ (
        if is_zero (some rest)
        then ConversationStage.closed_won
        else ConversationStage.awaiting_balance)
rest_as_zero rest = ground arith

-- The stages of one appointment and no job agree.
appointments_agree :
    (c : StageContext) (a : Appointment) (q : Option Quote)
    → newest c.appointments ≡ some a
    → is_lead_active c.lead.status ≡ true
    → a.deposit_required_cents ≤ a.total_cents
    → infer c ≡ stage_of (journey_state c.lead c.conversation (some a) q none c.payments)
unfolding infer stage_of remaining_balance
appointments_agree c a q found active within =
    let paid = collected_for_reference c.payments a.id (some PaymentReferenceType.appointment) in
    let deposit = lacks_as_below a.total_cents a.deposit_required_cents paid within in
    let balance = rest_as_zero (rest_of a.total_cents paid) in
    ground (arith, found, active, deposit, balance)

-- What `inferConversationStage` hands to `infer`; the knowledge of the business and the memory of the
-- customer are arguments.
abbrev pub context_of :
    Uuid
    → Lead
    → Conversation
    → BusinessKnowledge
    → List CustomerMemoryItem
    → Database
    → StageContext
context_of business lead talk knowledge memory d = record {
  lead = lead;
  conversation = talk;
  knowledge = knowledge;
  memory = memory;
  appointments = find_all business (λ a. a.lead_id == lead.id) d.appointments;
  quotes = find_all business (λ q. q.lead_id == lead.id) d.quotes;
  jobs = find_all business (λ j. j.lead_id == lead.id) d.jobs;
  payments = find_all business (λ p. p.contact_id == talk.contact_id) d.payments;
  follow_ups = find_all business (λ f. f.conversation_id == talk.id) d.scheduled_follow_ups;
}

select_and :
    {A : Type 0} (p q : A → Bool) (xs : List A)
    → select (λ x. p x && q x) xs ≡ select q (select p xs)
select_and p q [] = refl
select_and p q (x ∷ xs) = elim (Bool-cases (p x)) [
  | inl t ↦ elim (Bool-cases (q x)) [
    | inl u ↦ rw (t, u) (ap (λ ys. x ∷ ys) (select_and p q xs))
    | inr u ↦ rw (t, u) (select_and p q xs)
  ]
  | inr t ↦ rw t (select_and p q xs)
]

-- The payments that count for the appointment were made by the contact.
abbrev pub PaidBy : Uuid → Uuid → List Payment → Type 0
PaidBy contact id = All (λ p.
    counts_for id (some PaymentReferenceType.appointment) p ≡ true
    → (p.contact_id == contact) ≡ true)

select_narrow :
    {A : Type 0} (p q : A → Bool) (xs : List A)
    → All (λ x. p x ≡ true → q x ≡ true) xs
    → select p (select q xs) ≡ select p xs
select_narrow p q [] h = refl
select_narrow p q (x ∷ xs) h = elim (Bool-cases (q x)) [
  | inl u ↦ elim (Bool-cases (p x)) [
    | inl t ↦ rw (u, t) (ap (λ ys. x ∷ ys) (select_narrow p q xs h.1))
    | inr t ↦ rw (u, t) (select_narrow p q xs h.1)
  ]
  | inr u ↦ elim (Bool-cases (p x)) [
    | inl t ↦ absurd (ground (arith, h.0 t, u))
    | inr t ↦ rw (u, t) (select_narrow p q xs h.1)
  ]
]

collected_narrow :
    (contact id : Uuid) (ps : List Payment)
    → PaidBy contact id ps
    → collected_for_reference
        (select (λ p. p.contact_id == contact) ps)
        id
        (some PaymentReferenceType.appointment)
      ≡ collected_for_reference ps id (some PaymentReferenceType.appointment)
unfolding collected_for_reference
collected_narrow contact id ps h = ap sum_signed (
    select_narrow (counts_for id (some PaymentReferenceType.appointment))
      (λ p. p.contact_id == contact) ps h)

narrowed :
    (business : Uuid) (lead : Lead) (talk : Conversation) (d : Database) (a : Appointment)
    → PaidBy talk.contact_id a.id (list business d.payments)
    → stage_of (
        journey_state lead talk
          (some a)
          (quote_of business lead d)
          none
          (find_all business (λ p. p.contact_id == talk.contact_id) d.payments))
      ≡ stage_of (
          journey_state lead talk
            (some a)
            (quote_of business lead d)
            none
            (list business d.payments))
unfolding remaining_balance
narrowed business lead talk d a paid =
    rw (collected_narrow talk.contact_id a.id (list business d.payments) paid) refl

-- The two services agree on an open lead whose newest appointment is not cancelled and that has no job
-- but cancelled ones: what `infer` makes of what `inferConversationStage` hands it is the stage of
-- the journey's evaluation, whatever the mode of the conversation, the payments and the quotes, where
-- the appointment's deposit is within its total and its payments were made by the contact.
pub infer_agrees :
    (business : Uuid) (lead : Lead) (talk : Conversation) (knowledge : BusinessKnowledge)
    (memory : List CustomerMemoryItem) (d : Database) (a : Appointment)
    → newest (find_all business (λ x. x.lead_id == lead.id) d.appointments) ≡ some a
    → is_cancelled a.status ≡ false
    → job_of business lead d ≡ none
    → is_lead_active lead.status ≡ true
    → a.deposit_required_cents ≤ a.total_cents
    → PaidBy talk.contact_id a.id (list business d.payments)
    → infer (context_of business lead talk knowledge memory d)
      ≡ (evaluate_lead business lead talk d).opportunity.stage
infer_agrees business lead talk knowledge memory d a found kept jobless active within paid =
    let chosen : appointment_of business lead d ≡ some a =
      ap newest (
        select_and (λ x. x.lead_id == lead.id) (λ x. not (is_cancelled x.status))
          (list business d.appointments))
      ∙ newest-select (λ x. not (is_cancelled x.status))
          (find_all business (λ x. x.lead_id == lead.id) d.appointments) a (rw kept refl) found in
    rw (chosen, jobless)
      (appointments_agree (context_of business lead talk knowledge memory d) a
          (quote_of business lead d) found active within
        ∙ narrowed business lead talk d a paid)

-- For open work with a job and no appointment, both computations give the same stage where the deposit
-- of the job is covered, whatever the mode of the conversation, the status of the job, the payments
-- and the quotes.
pub infer_agrees_on_job :
    (c : StageContext) (j : Job) (q : Option Quote)
    → newest c.appointments ≡ none
    → newest c.jobs ≡ some j
    → is_lead_active c.lead.status ≡ true
    → is_below
        (collected_for_reference c.payments j.id (some PaymentReferenceType.job))
        j.deposit_required_cents
      ≡ false
    → infer c ≡ stage_of (journey_state c.lead c.conversation none q (some j) c.payments)
unfolding infer stage_of remaining_balance
infer_agrees_on_job c j q missing found active covered =
    let paid = collected_for_reference c.payments j.id (some PaymentReferenceType.job) in
    let balance = rest_as_zero (rest_of j.total_cents paid) in
    ground (arith, missing, found, active, covered, balance)
