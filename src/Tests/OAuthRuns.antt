-- ===== src/Tests/OAuthRuns.antt =====
-- External identities at concrete inputs.
use domains_manager.Base.{
  ℕ, ◌≤◌, ◌≡◌, ◌⊎◌, refl, true, false, ◌&&◌, none, some, [], ◌∷◌, arith, eqb,
}
use domains_manager.Base.Table.{find, select, update, count}
use domains_manager.Base.Result.{ok}
use domains_manager.Auth.{User}
use domains_manager.Auth.Users.{get_by_id, add_audit}
use domains_manager.Auth.Sessions.{get_session, revoke_user_sessions}
use domains_manager.Auth.Service.{AuthenticatedUser}
use domains_manager.OAuth.{
  IdentityRecord, AuthorizationAttempt, OAuthTables, login, link, consume_attempt, get_identity,
  used,
}
use domains_manager.OAuth.Service.{unlink, validate_mutation, is_other_way, oauth_event}
use domains_manager.OAuth.Callback.{
  ExternalIdentity, finish, finish_user, linked_user, open_session,
}
use domains_manager.OAuth.Unlinking.{unlink_keeps_way}
use domains_manager.OAuth.Moves.{identity_stays}
use domains_manager.Tests.AuthData.{service, context, draws, user, session, tables}

abbrev identity : IdentityRecord
identity = record {
  id = 70;
  user_id = 1;
  provider_key = "github";
  provider_subject = "9";
  provider_username = none;
  display_name = none;
  avatar_url = none;
  profile = "{}";
  created_at = 5;
  updated_at = 5;
  last_login_at = none;
}

abbrev second_identity : IdentityRecord
second_identity = record identity { id = 71; provider_key = "gitlab" }

-- The user has no password, and two identities.
abbrev without_password : User
without_password = record user { password_auth_enabled = false }

abbrev linked : OAuthTables
linked = record {
  accounts = record tables { users = without_password ∷ [] };
  identities = identity ∷ second_identity ∷ [];
  attempts = [];
}

abbrev current : AuthenticatedUser
current = record { user = without_password; session = session }

abbrev unlinked : OAuthTables
unlinked = record {
  accounts =
      add_audit (oauth_event "oauth.unlinked" 100 1 none none (("provider", "github") ∷ []))
        linked.accounts;
  identities = second_identity ∷ [];
  attempts = [];
}

linked_unique : (id : ℕ) → count (λ (i : IdentityRecord). eqb i.id id) linked.identities ≤ 1
unfolding count
linked_unique id = ground arith

unlinks : unlink ("github" ∷ "gitlab" ∷ []) "github" current context 100 linked ≡ ok unlinked
unfolding unlink validate_mutation get_by_id get_session revoke_user_sessions find select update
unlinks = refl

unlink_keeps_way_example :
    (u : User) × (get_by_id 1 unlinked.accounts ≡ some u)
    × ((u.password_auth_enabled ≡ true)
        ⊎ ((i : IdentityRecord) × (find
                (λ (i : IdentityRecord).
                  eqb i.user_id u.id && is_other_way ("github" ∷ "gitlab" ∷ []) "github" i)
                unlinked.identities
              ≡ some i)))
unlink_keeps_way_example =
    unlink_keeps_way ("github" ∷ "gitlab" ∷ []) "github" current context 100 linked unlinked
      linked_unique unlinks

abbrev attempt : AuthorizationAttempt
attempt = record {
  id = 80;
  provider_key = "github";
  intent = login;
  state_hash = "state";
  browser_hash = "browser";
  return_to = "dashboard";
  code_verifier = none;
  created_at = 90;
  expires_at = 600;
  consumed_at = none;
}

abbrev tried : OAuthTables
tried = record linked { attempts = attempt ∷ [] }

consumes : (consume_attempt "github" "state" "browser" 100 tried).0 ≡ some (used 100 attempt)
unfolding consume_attempt find
consumes = refl

abbrev external : ExternalIdentity
external = record {
  provider_key = "github";
  subject = "9";
  username = some "ann9";
  display_name = none;
  avatar_url = none;
  active = true;
  profile = "{}";
}

-- The tables after the same identity was linked again at 100.
abbrev relinked : OAuthTables
relinked = record linked {
  accounts =
      add_audit (oauth_event "oauth.linked" 100 1 none none (("provider", "github") ∷ []))
        linked.accounts;
  identities =
      record identity { provider_username = some "ann9"; updated_at = 100 } ∷ second_identity ∷ [];
}

relinks :
    finish service draws 72 "oauth-1" "secret" none (link 1 3) external context 100 linked
    ≡ ok (none, relinked)
unfolding finish finish_user linked_user get_identity get_by_id get_session open_session find select
    update
relinks = refl

finds_identity : get_identity "github" "9" linked ≡ some identity
unfolding get_identity find
finds_identity = refl

identity_stays_example :
    (j : IdentityRecord) × (get_identity "github" "9" relinked ≡ some j)
    × (j.user_id ≡ identity.user_id)
identity_stays_example =
    identity_stays service draws 72 "oauth-1" "secret" none (link 1 3) external context 100 linked
      relinked none identity finds_identity relinks
