-- ===== src/Auth/Security.antt =====
-- domainsmanager_application/security.py: user names, passwords, access tokens and refresh tokens.
-- What PyJWT, pwdlib, hmac and the methods of `str` and `UUID` do is a parameter.
use Prim.Native.String.{◌++◌ as str_append, count as text_length}
use Prim.Native.Char.{Char, code}
use domains_manager.Base.{
  ℕ, ◌+◌, ◌*◌, ◌/◌, String, Bool, true, ◌||◌, ◌&&◌, Option, none, some, eqb, leb, ltb, str_eq,
  if◌then◌else◌,
}
use domains_manager.Base.Result.{
  Result, ok, err, value_error, invalid_token, or_raise, guard, ◌>>=◌, ◌>>◌,
}

-- The claims of an access token as they are encoded; instants are whole seconds.
pub record JwtClaims : Type 0 where
  pub iss : String
  pub aud : String
  pub sub : String
  pub sid : String
  pub jti : String
  pub pwd : ℕ
  pub iat : ℕ
  pub nbf : ℕ
  pub exp : ℕ

pub record Crypto : Type 0 where
  pub strip : String → String
  pub casefold : String → String
  -- UUID(text), str(uuid)
  pub parse_uuid : String → Option ℕ
  pub uuid_text : ℕ → String
  -- HMAC-SHA256 under the pepper
  pub hmac : String → String
  -- `PasswordHash`, with the salt that a call draws
  pub hash : ℕ → String → String
  pub verify : String → String → Bool
  -- `jwt.encode` and `jwt.decode` under the secret, with an audience and an issuer
  pub encode : JwtClaims → String
  pub decode : String → String → String → Option JwtClaims
  -- int(t.timestamp() * 1_000_000), a product of floating-point numbers
  pub timestamp : ℕ → ℕ

-- [A-Za-z0-9_.-]
unfoldable pub is_name_char : Char → Bool
is_name_char c =
    leb 65 (code c) && leb (code c) 90
    || leb 97 (code c) && leb (code c) 122
    || leb 48 (code c) && leb (code c) 57
    || eqb (code c) 95
    || eqb (code c) 46
    || eqb (code c) 45

unfoldable pub all_name_chars : String → Bool
all_name_chars String.[] = true
all_name_chars (String.◌∷◌ c s) = is_name_char c && all_name_chars s

-- USERNAME_PATTERN.fullmatch
abbrev pub is_username : String → Bool
is_username s = all_name_chars s && leb 3 (text_length s) && leb (text_length s) 128

unfoldable pub normalize_username : Crypto → String → Result (String × String)
normalize_username c username =
    if is_username (c.strip username)
    then ok (c.strip username, c.casefold (c.strip username))
    else err value_error

abbrev pub validate_password : String → Result (Unit {0})
validate_password password =
    guard (leb 6 (text_length password) && leb (text_length password) 256) value_error

-- `PasswordService.hash`
abbrev pub hash_password : Crypto → ℕ → String → Result String
hash_password c salt password = do validate_password password; ok (c.hash salt password)

pub record AccessTokens : Type 0 where
  pub issuer : String
  pub audience : String
  pub ttl : ℕ
  pub clock_skew : ℕ

pub record AccessClaims : Type 0 where
  pub user_id : ℕ
  pub session_id : ℕ
  pub issued_at : ℕ
  pub expires_at : ℕ
  pub token_id : ℕ
  pub password_version : ℕ

-- The claims that `issue` encodes; the datetimes among them lose their fractions of a second.
unfoldable pub claims_of : Crypto → AccessTokens → ℕ → ℕ → ℕ → ℕ → ℕ → JwtClaims
claims_of c a jti user session password_changed_at now = record {
  iss = a.issuer;
  aud = a.audience;
  sub = c.uuid_text user;
  sid = c.uuid_text session;
  jti = c.uuid_text jti;
  pwd = c.timestamp password_changed_at;
  iat = now / 1000000;
  nbf = now / 1000000;
  exp = (now + a.ttl) / 1000000;
}

-- `AccessTokenService.issue`
abbrev pub issue_access : Crypto → AccessTokens → ℕ → ℕ → ℕ → ℕ → ℕ → String
issue_access c a jti user session password_changed_at now =
    c.encode (claims_of c a jti user session password_changed_at now)

-- datetime.fromtimestamp
abbrev pub instant : ℕ → ℕ
instant s = s * 1000000

-- `AccessTokenService.decode`. The skew is added to the left of the last comparison, where the
-- source subtracts it on the right.
unfoldable pub decode_access : Crypto → AccessTokens → String → ℕ → Result AccessClaims
decode_access c a token now = do
  payload ← or_raise (c.decode token a.audience a.issuer) invalid_token
  guard (leb (instant payload.iat) (now + a.clock_skew)) invalid_token
  guard (leb (instant payload.nbf) (now + a.clock_skew)) invalid_token
  guard (ltb now (instant payload.exp + a.clock_skew)) invalid_token
  user ← or_raise (c.parse_uuid payload.sub) invalid_token
  session ← or_raise (c.parse_uuid payload.sid) invalid_token
  token_id ← or_raise (c.parse_uuid payload.jti) invalid_token
  ok (record {
    user_id = user;
    session_id = session;
    issued_at = instant payload.iat;
    expires_at = instant payload.exp;
    token_id = token_id;
    password_version = payload.pwd;
  })

pub record IssuedRefreshToken : Type 0 where
  pub token_id : ℕ
  pub value : String
  pub digest : String

-- `RefreshTokenService.issue`
abbrev pub issue_refresh : Crypto → ℕ → String → IssuedRefreshToken
issue_refresh c id secret =
    let value = str_append (c.uuid_text id) (str_append "." secret) in
    record { token_id = id; value = value; digest = c.hmac value }

-- value.split(".", 1)
unfoldable pub split_dot : String → Option (String × String)
split_dot String.[] = none
split_dot (String.◌∷◌ c s) =
    let rest = split_dot s in
    if eqb (code c) 46
    then some (String.[], s)
    else elim rest [ none ↦ none | some (a, b) ↦ some (String.◌∷◌ c a, b) ]

-- `RefreshTokenService.parse`
unfoldable pub parse_refresh : Crypto → String → Option (ℕ × String)
parse_refresh c value = elim (split_dot value) [
  | none ↦ none
  | some (selector, secret) ↦ elim (c.parse_uuid selector) [
    | none ↦ none
    | some id ↦ if str_eq secret "" then none else some (id, c.hmac value)
  ]
]
