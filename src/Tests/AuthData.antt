-- ===== src/Tests/AuthData.antt =====
-- The accounts that the examples run on.
use domains_manager.Base.{
  ℕ, zero, suc, ◌≡◌, String, true, Option, none, some, [], ◌∷◌, refl, str_eq,
}
use domains_manager.Auth.{User, Session, RefreshToken, AuthTables}
use domains_manager.Auth.Security.{Crypto, AccessTokens, JwtClaims}
use domains_manager.Auth.Service.{AuthService, AuthContext, Draws, TokenPair, audit}
use domains_manager.Auth.Service.Entry.{new_user}

-- Identifiers in unary, so that every one can be read back.
unfoldable pub ones : ℕ → String
ones zero = String.[]
ones (suc n) = String.◌∷◌ "1" (ones n)

unfoldable pub from_ones : String → Option ℕ
from_ones String.[] = some 0
from_ones (String.◌∷◌ c s) = elim (from_ones s) [ none ↦ none | some n ↦ some (suc n) ]

pub from_ones-ones : (n : ℕ) → from_ones (ones n) ≡ some n
unfolding ones from_ones
from_ones-ones zero = refl
from_ones-ones (suc n) = rw (from_ones, from_ones-ones n) refl

abbrev pub crypto : JwtClaims → Crypto
crypto claims = record {
  strip = λ s. s;
  casefold = λ s. s;
  parse_uuid = from_ones;
  uuid_text = ones;
  hmac = λ s. s;
  hash = λ salt s. s;
  verify = str_eq;
  encode = λ p. "jwt";
  decode = λ t a i. some claims;
  timestamp = λ t. t;
}

abbrev pub claims : JwtClaims
claims = record {
  iss = "dm";
  aud = "web";
  sub = "1";
  sid = "111";
  jti = "1111";
  pwd = 7;
  iat = 100;
  nbf = 100;
  exp = 1000;
}

abbrev pub access : AccessTokens
access = record { issuer = "dm"; audience = "web"; ttl = 900000000; clock_skew = 30000000 }

abbrev pub service : AuthService
service = record {
  crypto = crypto claims;
  access_tokens = access;
  registration_enabled = true;
  access_ttl = 900000000;
  refresh_ttl = 5000;
}

abbrev pub context : AuthContext
context = record { request_id = none; ip_hash = none; user_agent = none }

abbrev pub draws : Draws
draws = record { user_id = 1; session_id = 3; token_id = 5; secret = "t"; access_id = 4; salt = 0 }

abbrev pub user : User
user = new_user draws "ann" "ann" "secret" none none "user" 7

abbrev pub session : Session
session = record {
  id = 3;
  user_id = 1;
  created_at = 10;
  last_seen_at = 10;
  absolute_expires_at = 5010;
  revoked_at = none;
  revoke_reason = none;
  ip_hash = none;
  user_agent = none;
}

abbrev pub token : RefreshToken
token = record {
  id = 2;
  session_id = 3;
  parent_token_id = none;
  replaced_by_token_id = none;
  token_hash = "11.s";
  issued_at = 10;
  expires_at = 5010;
  consumed_at = none;
  revoked_at = none;
}

abbrev pub tables : AuthTables
tables = record {
  users = user ∷ [];
  sessions = session ∷ [];
  tokens = token ∷ [];
  audits = [];
  states = [];
}

abbrev pub spent : RefreshToken
spent = record token { consumed_at = some 200; replaced_by_token_id = some 5 }

abbrev pub second : RefreshToken
second = record {
  id = 5;
  session_id = 3;
  parent_token_id = some 2;
  replaced_by_token_id = none;
  token_hash = "11111.t";
  issued_at = 200;
  expires_at = 5010;
  consumed_at = none;
  revoked_at = none;
}

abbrev pub pair : TokenPair
pair = record { access_token = "jwt"; refresh_token = "11111.t"; expires_in = 900 }

-- The tables after the token was exchanged at 200.
abbrev pub rotated : AuthTables
rotated = record {
  users = user ∷ [];
  sessions = record session { last_seen_at = 200 } ∷ [];
  tokens = spent ∷ second ∷ [];
  audits = audit "session.refreshed" 200 context 1 3 "session" ∷ [];
  states = [];
}
