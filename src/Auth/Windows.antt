-- ===== src/Auth/Windows.antt =====
-- How long an access token is accepted, and what an exchange gives out.
use Prim.Native.Char.{Char, code}
use Prim.Native.String.append.{nil, cons}
use Prim.Native.String.{◌++◌ as str_append}
use domains_manager.Base.{
  ℕ, ◌+◌, ◌*◌, ◌/◌, String, Bool, false, ◌&&◌, ◌||◌, some, ◌≡◌, refl, eqb, arith, inl, inr, leb,
  ltb, if◌then◌else◌, Bool-cases, ap, ◌∙◌, str_eq,
}
use domains_manager.Base.Result.{ok, err, invalid_token}
use domains_manager.Auth.Security.{
  Crypto, AccessTokens, split_dot, issue_refresh, parse_refresh, claims_of, issue_access,
  decode_access,
}

-- Where the library decodes what it encoded and a UUID is read back from its text, an access token
-- is accepted at a time exactly when its issue, without the fraction of a second, is at most the
-- skew ahead of that time, and its expiry, without the fraction, plus the skew is after it; it
-- carries what it was issued with, and at any other time it is refused as invalid.
pub access_window :
    (c : Crypto) (a : AccessTokens) (jti user session changed t now : ℕ)
    → (let p = claims_of c a jti user session changed t in
        c.decode (c.encode p) a.audience a.issuer ≡ some p)
    → ((id : ℕ) → c.parse_uuid (c.uuid_text id) ≡ some id)
    → decode_access c a (issue_access c a jti user session changed t) now ≡ (
        if leb (t / 1000000 * 1000000) (now + a.clock_skew)
          && ltb now ((t + a.ttl) / 1000000 * 1000000 + a.clock_skew)
        then ok (record {
          user_id = user;
          session_id = session;
          issued_at = t / 1000000 * 1000000;
          expires_at = (t + a.ttl) / 1000000 * 1000000;
          token_id = jti;
          password_version = c.timestamp changed;
        })
        else err invalid_token)
unfolding decode_access claims_of
access_window c a jti user session changed t now d u =
    elim (Bool-cases (leb (t / 1000000 * 1000000) (now + a.clock_skew))) [
      | inl e ↦ elim (Bool-cases (ltb now ((t + a.ttl) / 1000000 * 1000000 + a.clock_skew))) [
        | inl f ↦ rw (decode_access, d, e, f, u user, u session, u jti) refl
        | inr f ↦ rw (decode_access, d, e, f) refl
      ]
      | inr e ↦ rw (decode_access, d, e) refl
    ]

-- Whether a text has a full stop.
abbrev pub has_dot : String → Bool
has_dot String.[] = false
has_dot (String.◌∷◌ c s) = eqb (code c) 46 || has_dot s

append_nil : (t : String) → str_append "" t ≡ t
append_nil t = λ i. nil t i

append_cons :
    (c : Char) (s t : String) → str_append (String.◌∷◌ c s) t ≡ String.◌∷◌ c (str_append s t)
append_cons c s t = λ i. cons c s t i

append_dot : (t : String) → str_append "." t ≡ String.◌∷◌ "." t
append_dot t = append_cons "." "" t ∙ ap (String.◌∷◌ ".") (append_nil t)

split_first :
    (s t : String) → has_dot s ≡ false → split_dot (str_append s (str_append "." t)) ≡ some (s, t)
unfolding split_dot
split_first String.[] t h = rw (append_nil, append_dot) refl
split_first (String.◌∷◌ c s) t h =
    let no : eqb (code c) 46 ≡ false = ground arith in
    let rest = split_first s t (ground arith) in rw (append_cons, split_dot, rest, no) refl

-- Where a UUID is read back from its text, which has no full stop, and the secret is not empty, a
-- refresh token that was issued is parsed into its identifier and the digest that was stored.
pub parse-issue :
    (c : Crypto) (id : ℕ) (secret : String)
    → c.parse_uuid (c.uuid_text id) ≡ some id
    → has_dot (c.uuid_text id) ≡ false
    → str_eq secret "" ≡ false
    → let issued = issue_refresh c id secret in
      parse_refresh c issued.value ≡ some (issued.token_id, issued.digest)
unfolding parse_refresh
parse-issue c id secret u n s = rw (parse_refresh, split_first (c.uuid_text id) secret n, u, s) refl
