-- ===== src/Base/Result.antt =====
-- Python exceptions as values.
use mathlib.Core.Bool.{Bool, true, false}
use mathlib.Core.Path.{◌≡◌, refl}
use mathlib.Core.Logic.{◌⊎◌, inl, inr}
use mathlib.Core.Option.{Option, none, some}

-- The exceptions that the modelled functions raise, and those that they let through.
pub data Error : Type 0 where
  idempotency_conflict domain_not_found task_not_found : Error
  type_error value_error zero_division integrity_error : Error
  duplicate_record concurrent_update record_not_found : Error
  invalid_credentials invalid_token refresh_token_replayed registration_disabled : Error
  username_taken account_banned password_mismatch password_reused : Error
  oauth_reauthentication_required oauth_invalid_state oauth_access_denied : Error
  oauth_provider_error oauth_inactive_identity oauth_session_changed : Error
  oauth_identity_in_use oauth_provider_already_linked oauth_identity_changed : Error
  username_already_set oauth_identity_not_found oauth_last_login_method : Error
  oauth_password_already_set : Error
  domain_already_managed invalid_domain subdomain_not_supported version_conflict : Error
  cannot_revoke_current_session : Error

-- A call returns, or raises.
pub data Result {ℓ} (T : Type ℓ) : Type ℓ where
  err : Error → Result T
  ok : T → Result T

-- A search that finds nothing raises.
abbrev pub or_raise {ℓ} : {T : Type ℓ} → Option T → Error → Result T
or_raise (some found) cause = ok found
or_raise none cause = err cause

infixl 5 ◌>>◌
infixl 5 ◌>>=◌
abbrev pub ◌>>=◌ {ℓ κ} : {T : Type ℓ} {U : Type κ} → Result T → (T → Result U) → Result U
err cause >>= rest = err cause
ok value >>= rest = rest value

abbrev pub ◌>>◌ {ℓ} : {U : Type ℓ} → Result (Unit {0}) → Result U → Result U
first >> rest = first >>= λ done. rest

abbrev pub guard : Bool → Error → Result (Unit {0})
guard false cause = err cause
guard true cause = ok tt

-- What a call that returned did: its first part returned, and so did the rest.
pub bind_ok {ℓ κ} :
    {T : Type ℓ} {U : Type κ} (first : Result T) (rest : T → Result U) {u : U}
    → (first >>= rest) ≡ ok u
    → (t : T) × (first ≡ ok t) × (rest t ≡ ok u)
bind_ok (err cause) rest e = cc
bind_ok (ok t) rest e = (t, refl, e)

-- To split on a result and keep the equation.
pub Result-cases {ℓ} :
    {T : Type ℓ} (call : Result T)
    → ((t : T) × (call ≡ ok t)) ⊎ ((cause : Error) × (call ≡ err cause))
Result-cases (ok t) = inl (t, refl)
Result-cases (err cause) = inr (cause, refl)
