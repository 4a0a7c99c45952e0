-- ===== src/Records/Leases.antt =====
-- The leases that keep two processes from refreshing one cache key at a time.
use domains_manager.Base.{
  ℕ, ◌+◌, ◌<◌, ◌≡◌, ◌≢◌, refl, String, true, false, none, some, ltb, eqb, arith, some_and, inl, inr,
  Bool-cases, eqb_iff, pair_eq,
}
use domains_manager.Base.Dict.{get, put, get-put_self}
use domains_manager.Records.{Key, RefreshLease, Store, try_acquire_lease, release_lease}

acquire_busy :
    (key : Key) (owner : String) (token now ttl : ℕ) (s : Store)
    → some_and (get key s.leases) (λ l. ltb now l.expires_at) ≡ true
    → try_acquire_lease key owner token now ttl s ≡ (none, s)
unfolding try_acquire_lease
acquire_busy key owner token now ttl s e = rw (e, try_acquire_lease) refl

acquire_free :
    (key : Key) (owner : String) (token now ttl : ℕ) (s : Store)
    → some_and (get key s.leases) (λ l. ltb now l.expires_at) ≡ false
    → let l : RefreshLease = record {
      key = key;
      token = token;
      owner = owner;
      expires_at = now + ttl;
    } in
      try_acquire_lease key owner token now ttl s
      ≡ (some l, record s { leases = put key l s.leases })
unfolding try_acquire_lease
acquire_free key owner token now ttl s e = rw (e, try_acquire_lease) refl

-- After a process got the lease of a cache key, no process gets it before it ends, not even after a
-- release under another token, and the refusal changes nothing.
pub refresh_lease_exclusive :
    (key : Key) (owner owner' : String) (token token' now now' ttl ttl' : ℕ) (s : Store)
    (l stale : RefreshLease)
    → (try_acquire_lease key owner token now ttl s).0 ≡ some l
    → now' < now + ttl
    → stale.key ≡ key
    → stale.token ≢ token
    → let s' = release_lease stale (try_acquire_lease key owner token now ttl s).1 in
      try_acquire_lease key owner' token' now' ttl' s' ≡ (none, s')
unfolding release_lease
refresh_lease_exclusive key owner owner' token token' now now' ttl ttl' s l stale e early same ne =
    elim (Bool-cases (some_and (get key s.leases) (λ l. ltb now l.expires_at))) [
      | inl b ↦ absurd (ground (arith, acquire_busy key owner token now ttl s b))
      | inr b ↦
          let l' : RefreshLease = record {
            key = key;
            token = token;
            owner = owner;
            expires_at = now + ttl;
          } in
          let got = get-put_self key l' s.leases in
          let spare : eqb token stale.token ≡ false = ground (arith, eqb_iff token stale.token) in
          rw (acquire_free key owner token now ttl s b, same, got, spare)
            (acquire_busy key owner' token' now' ttl' _ (rw got (ground arith)))
    ]
