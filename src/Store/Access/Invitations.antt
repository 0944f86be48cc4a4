-- ===== src/Store/Access/Invitations.antt =====
-- Invitations are good once, and what they grant.
use closer_v.Prelude.{
  ◌≤◌, true, false, ◌≡◌, refl, inl, inr, some, List, [], ◌∷◌, find?, update_first, arith,
  Option-cases,
}
use closer_v.Prelude.Laws.{find?-append_new, find?-none, find?-update_first, any_of_find?}
use closer_v.Domain.Values.{Uuid, Key, Instant}
use closer_v.Domain.Model.{
  OrganizationRole, AuthenticatedIdentity, OrganizationMembership, MembershipEntry,
  InMemoryInvitation, InvitationAcceptanceResult,
}
use closer_v.Store.State.{State, ok, err, api_error, invitation_already_used}
use closer_v.Store.Lookup.{is_some}
use closer_v.Store.Access.{
  role_rank, is_member, get_membership, require_membership, to_role, has_token, grant, admit,
  tenant_name_of, mark_accepted, accept_invitation,
}

-- What an acceptance that returns has found and written.
abbrev IsAccepted :
    Key
    → AuthenticatedIdentity
    → Instant
    → State
    → InvitationAcceptanceResult
    → State
    → InMemoryInvitation
    → Type 0
IsAccepted token actor now s r s' i =
    (find? (has_token token) s.invitations ≡ some i)
    × (is_some i.revoked_at ≡ false)
    × (r.tenant_id ≡ i.tenant_id)
    × (r.role ≡ i.role)
    × (s'.memberships ≡ grant actor.user_id i.tenant_id (to_role i.role) s.memberships)
    × (s'.invitations ≡ update_first (has_token token) (mark_accepted now) s.invitations)

accept_invitation-IsAccepted :
    (token : Key) (actor : AuthenticatedIdentity) (now : Instant) (s : State)
    (r : InvitationAcceptanceResult)
    → (accept_invitation token actor now s).0 ≡ ok r
    → (i : InMemoryInvitation) × IsAccepted token actor now s r
        (accept_invitation token actor now s).1
        i
unfolding accept_invitation
accept_invitation-IsAccepted token actor now s r h =
    elim (Option-cases (find? (has_token token) s.invitations)) [
      | inl e ↦ absurd (ground (arith, e, h))
      | inr (i, e) ↦ (i, ground (arith, e, h))
    ]

accept_used :
    (token : Key) (actor : AuthenticatedIdentity) (now : Instant) (s : State)
    (i : InMemoryInvitation)
    → find? (has_token token) s.invitations ≡ some i
    → is_some i.revoked_at ≡ false
    → is_some i.accepted_at ≡ true
    → accept_invitation token actor now s ≡ (err (api_error 409 invitation_already_used), s)
unfolding accept_invitation
accept_used token actor now s i e fresh used = rw e (rw fresh (rw used refl))

-- A token is good once: after it has been accepted, anyone who presents it again is refused, and
-- nothing changes.
pub invitation_once :
    (token : Key) (actor other : AuthenticatedIdentity) (now later : Instant) (s : State)
    {r : InvitationAcceptanceResult}
    → (accept_invitation token actor now s).0 ≡ ok r
    → let s' = (accept_invitation token actor now s).1 in
      accept_invitation token other later s' ≡ (err (api_error 409 invitation_already_used), s')
invitation_once token actor other now later s {r = r} h =
    let (i, wrote) = accept_invitation-IsAccepted token actor now s r h in
    accept_used token other later (accept_invitation token actor now s).1 (mark_accepted now i)
      (rw wrote.5 (
        find?-update_first (has_token token) (mark_accepted now) (λ x e. e) s.invitations i
          wrote.0))
      wrote.1 refl

granted :
    (user tenant : Uuid) (role : OrganizationRole) (ms : List MembershipEntry)
    → (e : MembershipEntry) × (find? (is_member user tenant) (grant user tenant role ms) ≡ some e)
      × (e.membership.active ≡ true)
      × (e.membership.role ≡ role)
unfolding grant
granted user tenant role ms = elim (Option-cases (find? (is_member user tenant) ms)) [
  | inl missing ↦
      let e : MembershipEntry = record {
        user_id = user;
        membership = record {
          tenant_id = tenant;
          tenant_name = tenant_name_of tenant ms;
          role = role;
          active = true;
        };
      } in
      (
        e,
        rw (find?-none (is_member user tenant) ms missing)
            (rw (find?-append_new (is_member user tenant) ms (e ∷ []) missing) (ground arith)),
        refl,
        refl,
      )
  | inr (e, found) ↦ (
    admit role e,
    rw (any_of_find? (is_member user tenant) ms e found)
        (find?-update_first (is_member user tenant) (admit role) (λ x h. h) ms e found),
    refl,
    refl,
  )
]

get_found :
    (user tenant : Uuid) (s : State) (e : MembershipEntry)
    → find? (is_member user tenant) s.memberships ≡ some e
    → get_membership user tenant s ≡ some e.membership
unfolding get_membership
get_found user tenant s e found = rw (get_membership, found) refl

accepted_member :
    (token : Key) (actor : AuthenticatedIdentity) (now : Instant) (s : State)
    (r : InvitationAcceptanceResult) (s' : State) (i : InMemoryInvitation)
    → IsAccepted token actor now s r s' i
    → (m : OrganizationMembership) × (get_membership actor.user_id r.tenant_id s' ≡ some m)
      × (m.active ≡ true)
      × (m.role ≡ to_role r.role)
accepted_member token actor now s r s' i wrote =
    let (e, stands, active, role) =
      granted actor.user_id i.tenant_id (to_role i.role) s.memberships in
    (
      e.membership,
      get_found actor.user_id r.tenant_id s' e (rw (wrote.2, wrote.4) stands),
      active,
      rw wrote.3 role,
    )

-- Whoever accepts an invitation becomes an active member of its tenant with exactly its role, also
-- where the account was a member before, with a higher role or with a lower one.
pub acceptance_grants :
    (token : Key) (actor : AuthenticatedIdentity) (now : Instant) (s : State)
    {r : InvitationAcceptanceResult}
    → (accept_invitation token actor now s).0 ≡ ok r
    → let s' = (accept_invitation token actor now s).1 in
      (m : OrganizationMembership) × (get_membership actor.user_id r.tenant_id s' ≡ some m)
      × (m.active ≡ true)
      × (m.role ≡ to_role r.role)
acceptance_grants token actor now s {r = r} h =
    let (i, wrote) = accept_invitation-IsAccepted token actor now s r h in
    accepted_member token actor now s r (accept_invitation token actor now s).1 i wrote

-- A check that passes for a role passes for every lower role, with the same membership, which is
-- active, and the store is left alone.
pub require_membership_lower :
    (identity : AuthenticatedIdentity) (tenant : Uuid) (high low : OrganizationRole) (s : State)
    {m : OrganizationMembership}
    → role_rank low ≤ role_rank high
    → (require_membership identity tenant high s).0 ≡ ok m
    → (require_membership identity tenant low s ≡ (ok m, s))
      × (m.active ≡ true)
      × (role_rank high ≤ role_rank m.role)
unfolding require_membership
require_membership_lower identity tenant high low s le h = ground arith
