-- ===== src/Outgoing/Settled.antt =====
-- A message that was sent, given up or suppressed is touched by nothing but the cleanup of old rows
-- (domainsmanager_api/cleanup.py).
use domains_manager.Base.{
  ℕ, ◌≡◌, refl, String, Bool, true, false, Option, none, some, List, ◌∷◌, eqb, arith, Option-cases,
  inl, inr, ap, nat_eq, ltb, ◌&&◌, ◌||◌, not, [], Bool-cases,
}
use domains_manager.Base.Table.{find, select, update, find-update}
use domains_manager.Models.{Outbox, Delivery, pending, running, sent, dead_letter}
use domains_manager.Outgoing.{
  Directory, is_deliverable, is_sending, joined, earliest, completed, failed, suppressed,
  write_outbox, claim_outbox, complete_outbox, fail_outbox, suppress_outbox,
}

abbrev pub is_settled : Delivery → Bool
is_settled pending = false
is_settled running = false
is_settled _ = true

abbrev pub has_id : ℕ → Outbox → Bool
has_id id o = eqb o.id id

-- TERMINAL_NOTIFICATION_STATUSES
abbrev pub is_terminal : Delivery → Bool
is_terminal sent = true
is_terminal dead_letter = true
is_terminal _ = false

-- The rows of the target "notifications" that are older than `before`.
abbrev pub is_expired : ℕ → Outbox → Bool
is_expired before o = ltb o.updated_at before && is_terminal o.status

-- The DELETE of `run_cleanup` for that target.
unfoldable pub clean_outbox : ℕ → List Outbox → List Outbox
clean_outbox before os = select (λ o. not (is_expired before o)) os

-- The transactions on the outbox: a finished check queues a message under an identifier that is
-- not in use, workers claim and conclude, and an operator cleans up.
pub data Step (os os' : List Outbox) : Type 0 where
  queues : (o : Outbox) → find (has_id o.id) os ≡ none → os' ≡ o ∷ os → Step os os'
  claims :
      (d : Directory) (token : ℕ) (worker : String) (now until : ℕ)
      → os' ≡ (claim_outbox d token worker now until os).1
      → Step os os'
  completes :
      (id token at : ℕ) (outcome : String) (code : Option ℕ)
      → os' ≡ (complete_outbox id token at outcome code os).1
      → Step os os'
  fails :
      (id token at : ℕ) (error : String) (most delay : ℕ) (outcome : String) (code : Option ℕ)
      (retryable : Bool)
      → os' ≡ (fail_outbox id token at error most delay outcome code retryable os).1
      → Step os os'
  suppresses :
      (id token at : ℕ) (reason : String)
      → os' ≡ (suppress_outbox id token at reason os).1
      → Step os os'
  cleans : (before : ℕ) → os' ≡ clean_outbox before os → Step os os'

pub data Reach (os : List Outbox) : List Outbox → Type 0 where
  here : Reach os os
  next : {os' os'' : List Outbox} → Reach os os' → Step os' os'' → Reach os os''

-- A cleanup among the transactions deletes a row that is as `o`.
abbrev pub removes : Outbox → {os os' : List Outbox} → Step os os' → Bool
removes o (cleans before e) = is_expired before o
removes o _ = false

abbrev pub removed : Outbox → {os os' : List Outbox} → Reach os os' → Bool
removed o here = false
removed o (next r step) = removes o step || removed o r

-- A deletion that spares the row that is found.
select_spares :
    (p q : Outbox → Bool) (os : List Outbox) (o : Outbox)
    → q o ≡ true
    → find p os ≡ some o
    → find p (select q os) ≡ some o
unfolding find select
select_spares p q [] o spared h = absurd (ground arith)
select_spares p q (u ∷ os) o spared h = elim (Bool-cases (p u)) [
  | inl e ↦ let same : u ≡ o = ground arith in ground (arith, same, ap q same)
  | inr e ↦ ground (arith, select_spares p q os o spared)
]

-- An update that spares settled rows and keeps identifiers keeps a settled row.
update_spares :
    (id : ℕ) (q : Outbox → Bool) (f : Outbox → Outbox) (os : List Outbox) (o : Outbox)
    → ((u : Outbox) → (f u).id ≡ u.id)
    → q o ≡ false
    → find (has_id id) os ≡ some o
    → find (has_id id) (update q f os) ≡ some o
update_spares id q f os o same spared h =
    rw (find-update (has_id id) q f os (λ u e. ap (λ i. eqb i id) (same u)), h, spared) refl

module _ (id : ℕ) (os : List Outbox) (o : Outbox) (h : find (has_id id) os ≡ some o)
    (s : is_settled o.status ≡ true) where
  not_sending : (i token : ℕ) → is_sending i token o ≡ false
  not_sending i token = ground arith

  not_deliverable : (d : Directory) (now : ℕ) → is_deliverable d now o ≡ false
  not_deliverable d now = ground arith

  write_spares :
      (i token : ℕ) (f : Outbox → Outbox)
      → ((u : Outbox) → (f u).id ≡ u.id)
      → find (has_id id) (write_outbox i token f os).1 ≡ some o
  unfolding write_outbox
  write_spares i token f same = elim (Option-cases (find (is_sending i token) os)) [
    | inl e ↦ rw (e, write_outbox) h
    | inr (u, e) ↦ rw (e, write_outbox) (update_spares id _ f os o same (not_sending i token) h)
  ]

  claim_spares :
      (d : Directory) (token : ℕ) (worker : String) (now until : ℕ)
      → find (has_id id) (claim_outbox d token worker now until os).1 ≡ some o
  unfolding claim_outbox
  claim_spares d token worker now until = elim (Option-cases (earliest (is_deliverable d now) os)) [
    | inl e ↦ rw (e, claim_outbox) h
    | inr (u, e) ↦ elim (Option-cases (joined d u)) [
      | inl k ↦ rw (e, k, claim_outbox) h
      | inr (j, k) ↦
          rw (e, k, claim_outbox)
            (update_spares id _ _ os o (λ v. refl) (rw (not_deliverable d now) (ground arith)) h)
    ]
  ]

Step-settled :
    {os os' : List Outbox} (id : ℕ) (o : Outbox)
    → find (has_id id) os ≡ some o
    → is_settled o.status ≡ true
    → (step : Step os os') → removes o step ≡ false
    → find (has_id id) os' ≡ some o
unfolding clean_outbox complete_outbox fail_outbox suppress_outbox find
Step-settled {os} id o h s (queues u free e) k = ground (arith, free)
Step-settled {os} id o h s (claims d token worker now until e) k =
    rw e (claim_spares id os o h s d token worker now until)
Step-settled {os} id o h s (completes i token at outcome code e) k =
    rw e (write_spares id os o h s i token (completed at outcome code) (λ u. refl))
Step-settled {os} id o h s (fails i token at error most delay outcome code retryable e) k = rw e (
    write_spares id os o h s i token (failed at error most delay outcome code retryable)
      (λ u. refl))
Step-settled {os} id o h s (suppresses i token at reason e) k =
    rw e (write_spares id os o h s i token (suppressed at reason) (λ u. refl))
Step-settled {os} id o h s (cleans before e) k =
    rw e (select_spares (has_id id) _ os o (ground arith) h)

-- Once the message of an identifier is sent, given up or suppressed, every sequence of transactions
-- on the outbox (queueing, claiming, concluding, cleaning up), by any number of workers in any order,
-- leaves its row exactly as it is, unless a cleanup among them deletes what last changed before a time
-- that is later than the row's last change, and the message was sent or given up.
pub settled_forever :
    {os os' : List Outbox} (id : ℕ) (o : Outbox)
    → find (has_id id) os ≡ some o
    → is_settled o.status ≡ true
    → (r : Reach os os') → removed o r ≡ false
    → find (has_id id) os' ≡ some o
settled_forever id o h s here k = h
settled_forever id o h s (next r step) k =
    Step-settled id o (settled_forever id o h s r (ground arith)) s step (ground arith)
