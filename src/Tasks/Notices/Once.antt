-- ===== src/Tasks/Notices/Once.antt =====
-- One message for each deduplication key, none for a muted rule, and no message lost.
use domains_manager.Base.{
  ℕ, ◌≤◌, ◌≡◌, String, Bool, false, some, List, [], ◌∷◌, inl, inr, arith, Bool-cases, Option-cases,
  str_eq, eq_iff,
}
use domains_manager.Base.Table.{find, select, count, count_of_find, count_of_find-none}
use domains_manager.Models.{Task, Check, Database, Rule, Outbox, EventType, Payload}
use domains_manager.Tasks.Snapshots.{Platform}
use domains_manager.Tasks.Notices.{
  Fresh, smtp_enabled, is_rule_for, add_outbox, notify_rule, notify_all, queue_notifications,
  is_muted,
}

abbrev pub has_key : String → Outbox → Bool
has_key k o = str_eq o.deduplication_key k

-- The unique constraint on the deduplication key.
abbrev pub HasUniqueKeys : List Outbox → Type 0
HasUniqueKeys outbox = (k : String) → count (has_key k) outbox ≤ 1

add_outbox-HasUniqueKeys :
    (id : ℕ) (r : Rule) (t : Task) (c : Check) (e : EventType) (key : String) (payload : Payload)
    (at : ℕ) (outbox : List Outbox)
    → HasUniqueKeys outbox
    → HasUniqueKeys (add_outbox id r t c e key payload at outbox)
unfolding add_outbox count
add_outbox-HasUniqueKeys id r t c e key payload at outbox h k =
    elim (Option-cases (find (has_key key) outbox)) [
      | inl f ↦ elim (Bool-cases (str_eq key k)) [
        | inl same ↦
            let s : key ≡ k = (eq_iff key k).0 same in
            ground (arith, count_of_find-none (has_key key) outbox f, s, h k)
        | inr other ↦ ground (arith, h k)
      ]
      | inr (o, f) ↦ ground (arith, h k)
    ]

-- Whatever is counted, a new message takes none away.
add_outbox-count :
    (p : Outbox → Bool) (id : ℕ) (r : Rule) (t : Task) (c : Check) (e : EventType) (key : String)
    (payload : Payload) (at : ℕ) (outbox : List Outbox)
    → count p outbox ≤ count p (add_outbox id r t c e key payload at outbox)
unfolding add_outbox count
add_outbox-count p id r t c e key payload at outbox = ground arith

add_outbox-present :
    (id : ℕ) (r : Rule) (t : Task) (c : Check) (e : EventType) (key : String) (payload : Payload)
    (at : ℕ) (outbox : List Outbox)
    → 1 ≤ count (has_key key) (add_outbox id r t c e key payload at outbox)
unfolding add_outbox count
add_outbox-present id r t c e key payload at outbox =
    elim (Option-cases (find (has_key key) outbox)) [
      | inl f ↦ ground (arith, eq_iff key key)
      | inr (o, f) ↦ rw (f, add_outbox) (count_of_find (has_key key) outbox f)
    ]

notify_all-HasUniqueKeys :
    (step : Rule → List Outbox → List Outbox) (rs : List Rule) (outbox : List Outbox)
    → ((r : Rule) (o : List Outbox) → HasUniqueKeys o → HasUniqueKeys (step r o))
    → HasUniqueKeys outbox
    → HasUniqueKeys (notify_all step rs outbox)
unfolding notify_all
notify_all-HasUniqueKeys step [] outbox keeps h = h
notify_all-HasUniqueKeys step (r ∷ rs) outbox keeps h =
    notify_all-HasUniqueKeys step rs (step r outbox) keeps (keeps r outbox h)

notify_all-count :
    (p : Outbox → Bool) (step : Rule → List Outbox → List Outbox) (rs : List Rule)
    (outbox : List Outbox)
    → ((r : Rule) (o : List Outbox) → count p o ≤ count p (step r o))
    → count p outbox ≤ count p (notify_all step rs outbox)
unfolding notify_all
notify_all-count p step [] outbox grows = omega arith
notify_all-count p step (r ∷ rs) outbox grows =
    omega (arith, grows r outbox, notify_all-count p step rs (step r outbox) grows)

-- The message of a rule that is in the loop is there behind the loop.
notify_all-present :
    (p : Outbox → Bool) (step : Rule → List Outbox → List Outbox) (q : Rule → Bool) (rs : List Rule)
    (outbox : List Outbox) {r : Rule}
    → ((r : Rule) (o : List Outbox) → count p o ≤ count p (step r o))
    → ((o : List Outbox) → 1 ≤ count p (step r o))
    → find q rs ≡ some r
    → 1 ≤ count p (notify_all step rs outbox)
unfolding notify_all find
notify_all-present p step q [] outbox grows here e = absurd (ground arith)
notify_all-present p step q (x ∷ rs) outbox {r} grows here e = elim (Bool-cases (q x)) [
  | inl hit ↦
      let same : x ≡ r = ground arith in
      rw same (omega (arith, here outbox, notify_all-count p step rs (step r outbox) grows))
  | inr miss ↦ notify_all-present p step q rs (step x outbox) {r = r} grows here (ground arith)
]

module _ (p : Platform) (fresh : Fresh) (smtp : Bool) (t : Task) (c : Check) (e : EventType)
    (at : ℕ) where
  notify_rule-HasUniqueKeys :
      (r : Rule) (o : List Outbox)
      → HasUniqueKeys o
      → HasUniqueKeys (notify_rule p fresh smtp t c e at r o)
  unfolding notify_rule
  notify_rule-HasUniqueKeys r o h = elim (Bool-cases (is_muted smtp r)) [
    | inl m ↦ rw (m, notify_rule) h
    | inr m ↦ rw (m, notify_rule) (add_outbox-HasUniqueKeys _ r t c e _ _ at o h)
  ]

  notify_rule-count :
      (q : Outbox → Bool) (r : Rule) (o : List Outbox)
      → count q o ≤ count q (notify_rule p fresh smtp t c e at r o)
  unfolding notify_rule
  notify_rule-count q r o = elim (Bool-cases (is_muted smtp r)) [
    | inl m ↦ rw (m, notify_rule) (omega arith)
    | inr m ↦ rw (m, notify_rule) (add_outbox-count q _ r t c e _ _ at o)
  ]

  notify_rule-present :
      (r : Rule) (o : List Outbox)
      → is_muted smtp r ≡ false
      → 1 ≤ count (has_key (p.check_key r.id c.id e)) (notify_rule p fresh smtp t c e at r o)
  unfolding notify_rule
  notify_rule-present r o m = rw (m, notify_rule) (add_outbox-present _ r t c e _ _ at o)

-- Where the outbox has no two messages under one key, queueing the messages of a check keeps it so,
-- loses no message, and leaves exactly one message under the key of every rule that matches the
-- event and is not an email rule while SMTP is disabled.
pub queue_notifications_once :
    (p : Platform) (fresh : Fresh) (t : Task) (c : Check) (e : EventType) (at : ℕ) (db : Database)
    (q : Rule → Bool) (r : Rule) (kept : Outbox → Bool)
    → HasUniqueKeys db.outbox
    → find q (select (is_rule_for t e) db.rules) ≡ some r
    → is_muted (smtp_enabled db) r ≡ false
    → let after = (queue_notifications p fresh t c e at db).outbox in
      HasUniqueKeys after
      × (count kept db.outbox ≤ count kept after)
      × (count (has_key (p.check_key r.id c.id e)) after ≡ 1)
unfolding queue_notifications
queue_notifications_once p fresh t c e at db q r kept h found loud =
    let smtp = smtp_enabled db in
    let step = notify_rule p fresh smtp t c e at in
    let rs = select (is_rule_for t e) db.rules in
    let key = p.check_key r.id c.id e in
    let unique : HasUniqueKeys (notify_all step rs db.outbox) =
      notify_all-HasUniqueKeys step rs db.outbox (notify_rule-HasUniqueKeys p fresh smtp t c e at)
        h in
    (
      unique,
      notify_all-count kept step rs db.outbox (notify_rule-count p fresh smtp t c e at kept),
      omega (
        arith,
        unique key,
        notify_all-present (has_key key) step q rs db.outbox
            (notify_rule-count p fresh smtp t c e at (has_key key))
            (λ o. notify_rule-present p fresh smtp t c e at r o loud) found,
      ),
    )
