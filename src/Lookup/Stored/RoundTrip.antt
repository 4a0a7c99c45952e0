-- ===== src/Lookup/Stored/RoundTrip.antt =====
-- A response that is saved is found again while it is fresh.
use domains_manager.Base.{
  ℕ, ◌<◌, ◌≡◌, ◌≢◌, refl, ◌∙◌, ap, ltb, inl, inr, Option-cases, eqb_iff, String, true, false,
  Option, none, some, none_or, is_some, arith, string_eq, nat_eq, pair_eq,
}
use domains_manager.Base.Dict.{get, put, get-put, get-put_self}
use domains_manager.Records.{Stored, Store, get_current, is_newer, kept, head_of, publish}
use domains_manager.Models.{text}
use domains_manager.Lookup.{
  protocol_name, Protocol, rdap, whois, Role, registry, registrar, Response,
}
use domains_manager.Lookup.Stored.{
  protocol_in, text_in, role_in, role_json, optional_text_in, optional_number_in, number_json,
  text_json, CachedFields, Codec, key_of, fields_of, record_of, save, time_in, response_in,
  decode_record, get_fresh,
}

-- For a response: reading its times undoes writing them, and its payload is read back as an object
-- with the fields that it had.
pub record ReadsBack (c : Codec) (r : Response) : Type 0 where
  pub fetched_at : c.from_iso (c.to_iso r.fetched_at) ≡ some r.fetched_at
  pub expires_at : c.from_iso (c.to_iso r.expires_at) ≡ some r.expires_at
  pub payload :
      (read : CachedFields) × (c.unpack (c.pack (fields_of c r)) ≡ some read)
      × ((k : String) → get k read ≡ get k (fields_of c r))

protocol_back : (p : Protocol) → protocol_in (text_in (some (text (protocol_name p)))) ≡ some p
protocol_back rdap = refl
protocol_back whois = refl

role_back : (role : Option Role) → role_in (optional_text_in (some (role_json role))) ≡ some role
role_back none = refl
role_back (some registry) = refl
role_back (some registrar) = refl

code_back : (o : Option ℕ) → optional_number_in (some (number_json o)) ≡ some o
code_back none = refl
code_back (some n) = refl

kind_back : (o : Option String) → optional_text_in (some (text_json o)) ≡ some o
kind_back none = refl
kind_back (some s) = refl

module _ (c : Codec) (r : Response) (l : ReadsBack c r) where
  response_in-fields_of : response_in c (fields_of c r) ≡ some r
  unfolding response_in fields_of get time_in
  response_in-fields_of =
      rw
        (
          protocol_back r.protocol,
          l.fetched_at,
          l.expires_at,
          code_back r.status_code,
          kind_back r.content_type,
          role_back r.rdap_role,
        )
        refl

  response_in-same :
      (read fields : CachedFields)
      → ((k : String) → get k read ≡ get k fields)
      → response_in c read ≡ response_in c fields
  unfolding response_in
  response_in-same read fields same = rw (
    same "domain",
    same "protocol",
    same "endpoint",
    same "body",
    same "fetched_at",
    same "expires_at",
    same "status_code",
    same "content_type",
    same "rdap_role",
  )

  decode-record_of : (id : ℕ) → decode_record c (record_of c id r) ≡ some r
  unfolding decode_record record_of
  decode-record_of id =
      rw (l.payload.1)
        (response_in-same (l.payload.0) (fields_of c r) (l.payload.2) ∙ response_in-fields_of)

-- The record is published: its head is that of an older one, if any.
module _ (x : Stored) (s : Store) (new : get x.record_id s.records ≡ none)
    (apart : get x.key s.heads ≢ some x.record_id)
    (older : none_or (head_of x.key s.heads s.records) (λ y. ltb y.observed_at x.observed_at)
      ≡ true) where
  head-new : head_of x.key s.heads (put x.record_id x s.records) ≡ head_of x.key s.heads s.records
  head-new = elim (Option-cases (get x.key s.heads)) [
    | inl e ↦ rw (e, head_of)
    | inr (i, e) ↦
        rw (e, head_of, get-put x.record_id i x s.records)
          (ground (arith, apart, e, eqb_iff x.record_id i, ap (λ (j : ℕ). some j)))
  ]

  newer : none_or (head_of x.key s.heads s.records) (is_newer x) ≡ true
  newer = ground arith

  abbrev published : Store
  published = record s {
    records = put x.record_id x s.records;
    heads = put x.key x.record_id s.heads;
  }

  kept-new : kept x s.records ≡ put x.record_id x s.records
  unfolding kept
  kept-new = rw (new, kept)

  publish_new : publish x s ≡ published
  unfolding publish
  publish_new = rw (kept-new, publish) (rw (head-new, newer))

  current-publish :
      is_some (get x.record_id s.unusable) ≡ false → get_current x.key (publish x s) ≡ some x
  unfolding get_current
  current-publish usable = rw publish_new (
      rw (get-put_self x.key x.record_id s.heads, get_current, usable)
        (get-put_self x.record_id x s.records))

-- A response that was saved under a fresh identifier, with no response of its key that was fetched
-- at its time or later, is what the cache returns until it expires.
pub get_fresh-save :
    (c : Codec) (id now : ℕ) (r : Response) (s : Store)
    → ReadsBack c r
    → get id s.records ≡ none
    → get id s.unusable ≡ none
    → get (key_of r.domain r.protocol r.rdap_role) s.heads ≢ some id
    → none_or
        (head_of (key_of r.domain r.protocol r.rdap_role) s.heads s.records)
        (λ old. ltb old.observed_at r.fetched_at)
      ≡ true
    → now < r.expires_at
    → get_fresh c r.domain r.protocol now r.rdap_role (save c id r s) ≡ some r
unfolding get_fresh save record_of
get_fresh-save c id now r s l new usable apart older early =
    rw (current-publish (record_of c id r) s new apart older (rw usable), decode-record_of c r l id)
      (ground arith)
