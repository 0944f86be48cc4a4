-- ===== src/Domain/Transitions/Paths.antt =====
-- Histories of accepted status changes.
use closer_v.Prelude.{◌≡◌, refl, ◌≢◌, ◌⊎◌, Bool, true, false, ◌||◌, List, [], ◌∷◌, any, arith}
use closer_v.Domain.Values.{
  OpportunityStatus, RecoveryState, new, contacting, engaged, qualified, booked, estimate, won,
  lost, snoozed, do_not_contact, is_closed,
}
use closer_v.Domain.Transitions.{
  same_status, fine, closed_opportunity_cannot_run_recovery, assert_opportunity_transition,
  assert_opportunity_state,
}

-- A history of status changes, each of which the assertion lets through, with the statuses passed.
pub data Accepted : OpportunityStatus → List OpportunityStatus → OpportunityStatus → Type 0 where
  stay : {s : OpportunityStatus} → Accepted s [] s
  go :
      {s t u : OpportunityStatus} {passed : List OpportunityStatus}
      → assert_opportunity_transition s t ≡ fine
      → Accepted t passed u
      → Accepted s (s ∷ passed) u

closed_stays :
    (s t : OpportunityStatus)
    → is_closed s ≡ true
    → assert_opportunity_transition s t ≡ fine
    → s ≡ t
unfolding assert_opportunity_transition
closed_stays s t c h = ground arith

-- No history of accepted status changes leaves WON or DO_NOT_CONTACT.
pub closed_absorbs :
    {s u : OpportunityStatus} {passed : List OpportunityStatus}
    → is_closed s ≡ true
    → Accepted s passed u
    → s ≡ u
closed_absorbs c stay = refl
closed_absorbs c (go {s = s} {t = t} h rest) =
    let e = closed_stays s t c h in ground (arith, closed_absorbs {s = t} (ground arith) rest)

-- The statuses from which a deal can be won.
abbrev pub is_sellable : OpportunityStatus → Bool
is_sellable s = same_status s booked || same_status s estimate

step_to_won :
    (s t : OpportunityStatus)
    → assert_opportunity_transition s t ≡ fine
    → t ≡ won
    → (s ≡ won) ⊎ (is_sellable s ≡ true)
unfolding assert_opportunity_transition
step_to_won s t h e = ground arith

-- A history that ends in WON and did not begin there passes through BOOKED or ESTIMATE.
pub won_needs_booking :
    {s u : OpportunityStatus} {passed : List OpportunityStatus}
    → Accepted s passed u
    → u ≡ won
    → s ≢ won
    → any is_sellable passed ≡ true
won_needs_booking stay e n = absurd (n e)
won_needs_booking (go {s = s} {t = t} h rest) e n =
    ground (arith, step_to_won s t h, won_needs_booking rest e)

-- Every status but WON and DO_NOT_CONTACT has a history of accepted changes that ends in WON.
pub open_can_be_won :
    (s : OpportunityStatus)
    → is_closed s ≡ false
    → (passed : List OpportunityStatus) × Accepted s passed won
unfolding assert_opportunity_transition
open_can_be_won new c = (new ∷ booked ∷ [], go refl (go refl stay))
open_can_be_won contacting c = (contacting ∷ booked ∷ [], go refl (go refl stay))
open_can_be_won engaged c = (engaged ∷ booked ∷ [], go refl (go refl stay))
open_can_be_won qualified c = (qualified ∷ booked ∷ [], go refl (go refl stay))
open_can_be_won booked c = (booked ∷ [], go refl stay)
open_can_be_won estimate c = (estimate ∷ [], go refl stay)
open_can_be_won won c = absurd (cc)
open_can_be_won lost c = (lost ∷ engaged ∷ booked ∷ [], go refl (go refl (go refl stay)))
open_can_be_won snoozed c = (snoozed ∷ engaged ∷ booked ∷ [], go refl (go refl (go refl stay)))
open_can_be_won do_not_contact c = absurd (cc)

-- The third check of `assertOpportunityState` never throws, for any pair of states.
pub third_check_unreachable :
    (s : OpportunityStatus) (r : RecoveryState)
    → assert_opportunity_state s r ≢ closed_opportunity_cannot_run_recovery
unfolding assert_opportunity_state
third_check_unreachable s r = ground arith
