-- ===== src/Auth/Sequences.antt =====
-- What every write to accounts keeps, every sequence of transactions keeps.
use domains_manager.Base.{◌≡◌, subst}
use domains_manager.Auth.{AuthTables}
use domains_manager.Auth.Writes.{Write, Writes, still, ◌▹◌}
use domains_manager.Auth.Steps.{
  Step, Reach, here, next, registers, logs_in, rotates, detects_replay, logs_out, changes_password,
  changes_profile, changes_settings, bootstraps, sets_ban, revokes_session, finishes, sets_username,
  sets_password, unlinks,
}
use domains_manager.Auth.Parts.{
  admin_revoke-Writes, bootstrap-Writes, change_password-Writes, login_named-Writes,
  logout_locked-Writes, register_locked-Writes, revoke_replayed-Writes, rotate_locked-Write,
  set_ban_state-Writes, update_profile-Writes, update_settings-Writes,
}
use domains_manager.Auth.Linked.{
  finish-Writes, set_password-Writes, set_username-Writes, unlink-Writes,
}
use domains_manager.OAuth.{OAuthTables}

moved_to :
    (o o' : OAuthTables) (db db' : AuthTables)
    → o.accounts ≡ db
    → o'.accounts ≡ db'
    → Writes o.accounts o'.accounts
    → Writes db db'
moved_to o o' db db' a b w =
    subst (λ first. Writes first db') a (subst (λ last. Writes o.accounts last) b w)

step-Writes : (db db' : AuthTables) → Step db db' → Writes db db'
step-Writes db db' (registers s x user context now result h) =
    register_locked-Writes s x user context now result db db' h
step-Writes db db' (logs_in s x name password context now result h) =
    login_named-Writes s x name password context now result db db' h
step-Writes db db' (rotates s x id digest resolved context now pair h) =
    still ▹ rotate_locked-Write s x id digest resolved context now pair db db' h
step-Writes db db' (detects_replay id resolved context now h) =
    rw (h) (revoke_replayed-Writes id resolved context now db)
step-Writes db db' (logs_out id digest resolved context now h) =
    rw (h) (logout_locked-Writes id digest resolved context now db)
step-Writes db db' (changes_password current hash context clock h) =
    change_password-Writes current hash context clock db db' h
step-Writes db db' (changes_profile id email context now h) =
    update_profile-Writes id email context now db db' h
step-Writes db db' (changes_settings id preferences context now h) =
    update_settings-Writes id preferences context now db db' h
step-Writes db db' (bootstraps user now h) = rw (h) (bootstrap-Writes user now db)
step-Writes db db' (sets_ban id admin request reason now h) =
    set_ban_state-Writes id admin request reason now db db' h
step-Writes db db' (revokes_session user id current admin request user_text now h) =
    admin_revoke-Writes user id current admin request user_text now db db' h
step-Writes db db'
      (finishes s x fresh fallback secret read intent e context now result o o' h a b) =
    moved_to o o' db db' a b
      (finish-Writes s x fresh fallback secret read intent e context now result o o' h)
step-Writes db db' (sets_username current display normalized context now user o o' h a b) =
    moved_to o o' db db' a b
      (set_username-Writes current display normalized context now user o o' h)
step-Writes db db' (sets_password current hash context clock o o' h a b) =
    moved_to o o' db db' a b (set_password-Writes current hash context clock o o' h)
step-Writes db db' (unlinks providers key current context now o o' h a b) =
    moved_to o o' db db' a b (unlink-Writes providers key current context now o o' h)

-- What every write keeps, every sequence of transactions keeps.
module _ (Good : AuthTables → Type 0)
    (keeps : (db db' : AuthTables) → Write db db' → Good db → Good db') where
  writes-Good : (db db' : AuthTables) → Writes db db' → Good db → Good db'
  writes-Good db db' still good = good
  writes-Good db db'' (◌▹◌ {db'} ws w) good = keeps db' db'' w (writes-Good db db' ws good)

  pub reach-Good : (db db' : AuthTables) → Reach db db' → Good db → Good db'
  reach-Good db db' here good = good
  reach-Good db db'' (next {db'} r step) good =
      writes-Good db' db'' (step-Writes db' db'' step) (reach-Good db db' r good)
