-- ===== src/Store/Access.antt =====
-- Memberships and invitations (`getMembership`, `createInvitation`, `acceptInvitation`,
-- `revokeInvitation`), and the authorisation that rests on them
-- (server/application/authorization.ts).
pub mod Invitations
use closer_v.Prelude.{
  ℕ, ◌+◌, Bool, true, false, not, ◌&&◌, ◌||◌, ◌==◌, ltb, leb, Option, none, some, List, [], ◌∷◌,
  ◌++◌, find?, update_first, any, map, if◌then◌else◌, String,
}
use closer_v.Domain.Values.{Uuid, Key, Instant}
use closer_v.Domain.Model.{
  OrganizationRole, InvitedRole, Email, AuthenticatedIdentity, OrganizationMembership,
  MembershipEntry, OrganizationInvitationRecord, InMemoryInvitation,
  OrganizationInvitationCreationRecord, InvitationAcceptanceResult,
}
use closer_v.Store.State.{
  State, Action, api_error, resource_not_found, idempotency_conflict, invitation_not_found,
  invitation_revoked, invitation_already_used, invitation_expired, invitation_email_mismatch,
  insufficient_role, pure, throw, gets, or_throw, ◌>>=◌, ◌>>◌, throw_if, modify,
}
use closer_v.Store.Lookup.{same_text, is_some}

-- `ROLE_RANK`
abbrev pub role_rank : OrganizationRole → ℕ
role_rank OrganizationRole.member = 1
role_rank OrganizationRole.admin = 2
role_rank OrganizationRole.owner = 3

abbrev pub is_member : Uuid → Uuid → MembershipEntry → Bool
is_member user tenant e = e.user_id == user && e.membership.tenant_id == tenant

unfoldable pub get_membership : Uuid → Uuid → State → Option OrganizationMembership
get_membership user tenant s = elim (find? (is_member user tenant) s.memberships) [
  | none ↦ none
  | some e ↦ some e.membership
]

-- `AuthorizationService.requireMembership`
unfoldable pub require_membership :
    AuthenticatedIdentity → Uuid → OrganizationRole → Action OrganizationMembership
unfolding get_membership
require_membership identity tenant minimum_role = do
  found ← gets (get_membership identity.user_id tenant)
  m ← or_throw found (api_error 404 resource_not_found)
  throw_if (not m.active) (api_error 404 resource_not_found)
  throw_if (ltb (role_rank m.role) (role_rank minimum_role)) (api_error 403 insufficient_role)
  pure m

-- `toLowerCase()` of one ASCII character.
abbrev pub lower : ℕ → ℕ
lower c = if leb b'A' c && leb c b'Z' then c + 32 else c

abbrev pub same_letters : List ℕ → List ℕ → Bool
same_letters [] [] = true
same_letters [] (d ∷ ds) = false
same_letters (c ∷ cs) [] = false
same_letters (c ∷ cs) (d ∷ ds) = c == d && same_letters cs ds

abbrev pub same_role : InvitedRole → InvitedRole → Bool
same_role InvitedRole.member InvitedRole.member = true
same_role InvitedRole.admin InvitedRole.admin = true
same_role _ _ = false

abbrev pub to_role : InvitedRole → OrganizationRole
to_role InvitedRole.member = OrganizationRole.member
to_role InvitedRole.admin = OrganizationRole.admin

abbrev pub is_invitation_key : Uuid → Key → InMemoryInvitation → Bool
is_invitation_key tenant key i = i.tenant_id == tenant && same_text i.idempotency_key key

abbrev pub new_invitation :
    Uuid → OrganizationInvitationCreationRecord → Uuid → Instant → InMemoryInvitation
new_invitation tenant input fresh now = record {
  invitation = record {
    id = fresh;
    tenant_id = tenant;
    email = input.email;
    role = input.role;
    expires_at = input.expires_at;
    accepted_at = none;
    revoked_at = none;
    created_at = now;
    replayed = false;
  };
  token_hash = input.token_hash;
  idempotency_key = input.idempotency_key;
}

-- The replay of a creation, with the same facts.
unfoldable pub replay_invitation :
    OrganizationInvitationCreationRecord → InMemoryInvitation → Action OrganizationInvitationRecord
replay_invitation input i = do
  throw_if (not (same_letters i.email input.email) || not (same_role i.role input.role))
      (api_error 409 idempotency_conflict)
  pure (record (i.invitation) { replayed = true })

unfoldable pub create_invitation :
    Uuid
    → OrganizationInvitationCreationRecord
    → Uuid
    → Instant
    → Action OrganizationInvitationRecord
unfolding replay_invitation
create_invitation tenant input fresh now = do
  existing ← gets (λ s. find? (is_invitation_key tenant input.idempotency_key) s.invitations)
  elim existing [
    | some i ↦ replay_invitation input i
    | none ↦ do
      modify (λ s. record s {
        invitations = s.invitations ++ new_invitation tenant input fresh now ∷ [];
      })
      pure (new_invitation tenant input fresh now).invitation
  ]

abbrev pub has_token : Key → InMemoryInvitation → Bool
has_token token_hash i = same_text i.token_hash token_hash

-- `!actor.email || actor.email.toLowerCase() !== invitation.email.toLowerCase()`, turned round; an
-- empty address counts as none.
abbrev pub is_addressed : AuthenticatedIdentity → Email → Bool
is_addressed actor email = elim actor.email [
  | none ↦ false
  | some [] ↦ false
  | some (c ∷ cs) ↦ same_letters (map lower (c ∷ cs)) (map lower email)
]

abbrev pub is_tenant : Uuid → MembershipEntry → Bool
is_tenant tenant e = e.membership.tenant_id == tenant

-- `this.memberships.find(...)?.membership.tenantName ?? 'CLOSER'`
abbrev pub tenant_name_of : Uuid → List MembershipEntry → String
tenant_name_of tenant ms = elim (find? (is_tenant tenant) ms) [
  | none ↦ "CLOSER"
  | some e ↦ e.membership.tenant_name
]

abbrev pub admit : OrganizationRole → MembershipEntry → MembershipEntry
admit role e = record e { membership = record (e.membership) { active = true; role = role } }

-- The membership of the one who accepts: the existing one is written, or a new one is pushed.
unfoldable pub grant : Uuid → Uuid → OrganizationRole → List MembershipEntry → List MembershipEntry
grant user tenant role ms =
    if any (is_member user tenant) ms
    then update_first (is_member user tenant) (admit role) ms
    else ms
      ++ record {
        user_id = user;
        membership = record {
          tenant_id = tenant;
          tenant_name = tenant_name_of tenant ms;
          role = role;
          active = true;
        };
      }
        ∷ []

abbrev pub mark_accepted : Instant → InMemoryInvitation → InMemoryInvitation
mark_accepted now i = record i { invitation = record (i.invitation) { accepted_at = some now } }

unfoldable pub accept_invitation :
    Key → AuthenticatedIdentity → Instant → Action InvitationAcceptanceResult
unfolding grant
accept_invitation token_hash actor now = do
  found ← gets (λ s. find? (has_token token_hash) s.invitations)
  i ← or_throw found (api_error 404 invitation_not_found)
  throw_if (is_some i.revoked_at) (api_error 410 invitation_revoked)
  throw_if (is_some i.accepted_at) (api_error 409 invitation_already_used)
  throw_if (leb i.expires_at now) (api_error 410 invitation_expired)
  throw_if (not (is_addressed actor i.email)) (api_error 403 invitation_email_mismatch)
  modify (λ s. record s {
    memberships = grant actor.user_id i.tenant_id (to_role i.role) s.memberships;
    invitations = update_first (has_token token_hash) (mark_accepted now) s.invitations;
  })
  pure (record { tenant_id = i.tenant_id; role = i.role; replayed = false })

abbrev pub is_invitation : Uuid → Uuid → InMemoryInvitation → Bool
is_invitation tenant id i = i.tenant_id == tenant && i.id == id

-- `invitation.revokedAt ??= now`
abbrev pub revoke : Instant → InMemoryInvitation → InMemoryInvitation
revoke now i = record i {
  invitation = record (i.invitation) {
    revoked_at = elim i.revoked_at [ none ↦ some now | some t ↦ some t ];
  };
}

unfoldable pub revoke_invitation :
    Uuid → Uuid → Instant → Action (Option OrganizationInvitationRecord)
revoke_invitation tenant id now = do
  found ← gets (λ s. find? (is_invitation tenant id) s.invitations)
  elim found [
    | none ↦ pure none
    | some i ↦ do
      throw_if (is_some i.accepted_at) (api_error 409 invitation_already_used)
      modify (λ s. record s {
        invitations = update_first (is_invitation tenant id) (revoke now) s.invitations;
      })
      pure (some (revoke now i).invitation)
  ]
