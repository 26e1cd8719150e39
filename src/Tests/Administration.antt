-- ===== src/Tests/Administration.antt =====
-- Runs of the administration of accounts.
use ufcim_backend_proto.Prelude.{◌&&◌, ◌≡◌, refl, true, false, none, some, [], ◌∷◌, arith}
use ufcim_backend_proto.Errors.{is_ok}
use ufcim_backend_proto.Schedule.Times.{text_eq}
use ufcim_backend_proto.Schema.{professor, staff}
use ufcim_backend_proto.Texts.{trim_start, trim_end}
use ufcim_backend_proto.Auth.{Account, invite, insert_token}
use ufcim_backend_proto.Auth.Login.{login, admit_login}
use ufcim_backend_proto.Auth.Refresh.{by_hash, refresh}
use ufcim_backend_proto.Invitation.{approved, InvitationRequest, AdminDb, Env}
use ufcim_backend_proto.Invitation.EmailDomain.{
  assert_allowed_domain, parse_allowed_domains, split_commas,
}
use ufcim_backend_proto.Invitation.Sending.{
  CreateInvitationInput, FreshInvitation, create_invitation, admit_invitation, insert_invitation,
  resend,
}
use ufcim_backend_proto.Invitation.Reviewing.{reject}
use ufcim_backend_proto.Admin.{find_ordinary, set_disabled, change_role, soft_delete, admit_delete}
use ufcim_backend_proto.Admin.Steps.{
  invites, resends, rejects, changes_role, disables, deletes, here, next,
}
use ufcim_backend_proto.Admin.Masters.{IsMaster, Reach-IsMaster}
use ufcim_backend_proto.Admin.Reviews.{IsReviewed, Reach-IsReviewed}
use ufcim_backend_proto.Admin.Pending.{HasOnePending}
use ufcim_backend_proto.Admin.OnePending.{IsPending, Reach-HasOnePending}
use ufcim_backend_proto.Admin.Lockdown.{
  opens, by_disabling, Closes-locks_out, is_token_of, is_token_of,
}
use ufcim_backend_proto.Tests.Sessions.{plain, caio, campus, fresh_from, try_at, presented}

abbrev dean : Account
dean = record caio { id = 9; email = b'e' ∷ []; is_master_admin = true }

abbrev accepted_once : InvitationRequest
accepted_once = record {
  id = 70;
  name = 3;
  email = b'f' ∷ [];
  status = approved;
  created_at = 1;
  reviewed_at = some 2;
  reviewed_by = some 9;
  invitation_id = some 8;
}

abbrev office : AdminDb
office = record {
  accounts = record campus { users = dean ∷ caio ∷ [] };
  requests = accepted_once ∷ [];
  departments = 7 ∷ [];
  audit_logs = [];
}

abbrev locked : AdminDb
locked = (set_disabled 50 9 5 true office).1

Closes-locks_out_example :
    (opens 5 (login plain 60 (fresh_from 60) (try_at 60 99).input locked.accounts).0 ≡ false)
    × ((is_token_of 5
            (by_hash (plain.sha256_hex (presented 23).refresh_token) locked.accounts.refresh_tokens)
          && is_ok (refresh plain 60 (fresh_from 60) (presented 23) locked.accounts).0)
        ≡ false)
unfolding set_disabled find_ordinary
Closes-locks_out_example =
    Closes-locks_out {now = 50} {id = 5} {db = office} {db' = locked} plain 60 (fresh_from 60)
      (try_at 60 99).input (presented 23)
      (by_disabling 9 {u = record caio { disabled_at = some 50; updated_at = 50 }} refl)

abbrev no_limits : Env
no_limits = record { allowed_email_domains = []; has_invite_base_url = true }

abbrev restaffed : AdminDb
restaffed = (soft_delete 80 9 5 (change_role 70 9 5 staff (set_disabled 60 9 9 true office).1).1).1

Reach-IsMaster_example : IsMaster 9 dean restaffed
Reach-IsMaster_example =
    Reach-IsMaster {env = no_limits} {crypto = plain} {May = IsPending} {begin = 10}
      {start = office} 9 dean {t = 80} {db = restaffed}
      (next
        (next (next here (omega arith) (disables 9 9 true)) (omega arith) (changes_role 9 5 staff))
        (omega arith) (deletes 9 5))
      (refl, refl)

abbrev rejected_again : AdminDb
rejected_again = (reject 90 9 70 office).1

Reach-IsReviewed_example : IsReviewed 70 accepted_once rejected_again
Reach-IsReviewed_example =
    Reach-IsReviewed {env = no_limits} {crypto = plain} {May = IsPending} {begin = 10}
      {start = office} 70 accepted_once {t = 90} {db = rejected_again}
      (next here (omega arith) (rejects 9 70)) (refl, refl)

abbrev to_new : CreateInvitationInput
to_new = record {
  inviter_id = 9;
  email = b'g' ∷ [];
  name = 4;
  role = professor;
  department = 7;
  registration = none;
  ttl_hours = 72;
  purpose = invite;
}

abbrev fresh_invitation : FreshInvitation
fresh_invitation = record { token = 500; id = 51 }

abbrev invited : AdminDb
invited = (create_invitation no_limits plain 20 fresh_invitation to_new office).1

abbrev sent_again : AdminDb
sent_again = (resend no_limits plain 30 9 51 600 72 invited).1

Reach-HasOnePending_example : HasOnePending 30 sent_again
unfolding create_invitation admit_invitation assert_allowed_domain parse_allowed_domains
    split_commas trim_start trim_end text_eq insert_invitation
Reach-HasOnePending_example =
    Reach-HasOnePending {env = no_limits} {crypto = plain} {begin = 10} {start = office} {t = 30}
      {db = sent_again}
      (next {t = 20} (next here (omega arith) (invites fresh_invitation to_new)) (omega arith)
        (resends 9 51 600 72 ((λ own. refl), ((λ own. refl), tt))))
      (tt, tt)

-- A deleted account that is enabled again logs in.
abbrev revived : AdminDb
revived = (set_disabled 90 9 5 false (soft_delete 80 9 5 office).1).1

login-revived :
    opens 5 (login plain 95 (fresh_from 95) (try_at 95 99).input revived.accounts).0 ≡ true
unfolding set_disabled find_ordinary soft_delete admit_delete login admit_login text_eq trim_start
    trim_end insert_token
login-revived = refl
