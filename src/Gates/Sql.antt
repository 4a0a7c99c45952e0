-- ===== src/Gates/Sql.antt =====
-- SqlAlchemyLookupStore of domainsmanager_persistence/lookup_store.py: the table of endpoint gates
-- under its primary key. A method is one transaction, in which its row is written conditionally.
use domains_manager.Base.{
  ℕ, ◌+◌, String, Bool, true, false, ◌&&◌, Option, none, some, leb, max, if◌then◌else◌, none_or,
  or_else, opt_eqb, pair_eq,
}
use domains_manager.Base.Dict.{Dict, get, put}
use domains_manager.Gates.Delay.{endpoint_retry_delay}
use domains_manager.Gates.Calls.{
  Key, Call, Reply, acquire, inspect, release, block, renew, leased, state, done, blocked, renewed,
}

-- EndpointRequestGate of models.py, behind its primary key.
pub record Row : Type 0 where
  pub blocked_until : Option ℕ
  pub failure_count : ℕ
  pub lease_token : Option ℕ
  pub lease_owner : Option String
  pub lease_until : Option ℕ
  pub updated_at : ℕ

abbrev pub Gates : Type 0
Gates = Dict Key Row

abbrev pub new_row : ℕ → Row
new_row now = record {
  blocked_until = none;
  failure_count = 0;
  lease_token = none;
  lease_owner = none;
  lease_until = none;
  updated_at = now;
}

-- INSERT ... ON CONFLICT DO NOTHING
insert_gate : Key → ℕ → Gates → Gates
insert_gate key now g = elim (get key g) [ none ↦ put key (new_row now) g | some r ↦ g ]

-- The condition of the UPDATE in `try_acquire_endpoint_gate`.
abbrev pub is_free : ℕ → Row → Bool
is_free now r =
    none_or r.blocked_until (λ until. leb until now)
    && none_or r.lease_until (λ until. leb until now)

acquire_row : Key → String → ℕ → ℕ → ℕ → Gates → Reply × Gates
acquire_row key owner token now ttl g = elim (get key g) [
  | none ↦ (leased none, g)
  | some r ↦
      if is_free now r
      then (
        leased (some (record { key = key; token = token; expires_at = now + ttl })),
        put key
            (record r {
              lease_token = some token;
              lease_owner = some owner;
              lease_until = some (now + ttl);
              updated_at = now;
            })
            g,
      )
      else (leased none, g)
]

-- WHERE lease_token = :token, which no row without a lease satisfies
abbrev pub holds : ℕ → Option Row → Bool
holds token none = false
holds token (some r) = opt_eqb r.lease_token token

abbrev pub unleased : ℕ → Row → Row
unleased now r = record r {
  lease_token = none;
  lease_owner = none;
  lease_until = none;
  updated_at = now;
}

abbrev pub row_of : ℕ → Option Row → Row
row_of now none = new_row now
row_of now (some r) = r

unfoldable pub step : Gates → Call → Reply × Gates
unfolding insert_gate acquire_row
step g (acquire key owner token now ttl) =
    acquire_row key owner token now ttl (insert_gate key now g)
step g (inspect key) = elim (get key g) [
  | none ↦ (state none, g)
  | some r ↦ (
    state (
        some (record {
          blocked_until = r.blocked_until;
          lease_until = r.lease_until;
          failure_count = r.failure_count;
        })),
    g,
  )
]
step g (release lease succeeded now) =
    if holds lease.token (get lease.key g)
    then (let r = unleased now (row_of now (get lease.key g)) in
        (
          done,
          put lease.key
              (if succeeded then record r { blocked_until = none; failure_count = 0 } else r) g,
        ))
    else (done, g)
step g (block lease now retry_after base maximum) =
    let r = row_of now (get lease.key g) in
    if holds lease.token (get lease.key g)
    then (let failures = r.failure_count + 1 in
        let delay = endpoint_retry_delay failures base maximum in
        let until = max now (or_else retry_after (now + delay)) in
        (
          blocked until,
          put lease.key
              (record (unleased now r) { blocked_until = some until; failure_count = failures }) g,
        ))
    else (blocked (or_else r.blocked_until now), g)
step g (renew lease now ttl) =
    if holds lease.token (get lease.key g)
    then (
      renewed true,
      put lease.key
          (record (row_of now (get lease.key g)) {
            lease_until = some (now + ttl);
            updated_at = now;
          })
          g,
    )
    else (renewed false, g)
