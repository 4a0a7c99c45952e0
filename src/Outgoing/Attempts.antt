-- ===== src/Outgoing/Attempts.antt =====
-- What one delivery leaves of the message it holds.
use domains_manager.Base.{
  ℕ, ◌+◌, ◌≤◌, ◌≡◌, refl, String, Bool, true, false, Option, none, some, List, eqb, arith,
  Option-cases, Bool-cases, inl, inr, ap, ◌∙◌,
}
use domains_manager.Base.Table.{find, find-update, find-update-none, find_other}
use domains_manager.Models.{Outbox, pending, sent, dead_letter, skipped}
use domains_manager.Outgoing.{
  Message, is_sending, completed, failed, suppressed, write_outbox, complete_outbox, fail_outbox,
  suppress_outbox, is_hopeless,
}
use domains_manager.Outgoing.Worker.{
  Limits, Attempt, delivered, withheld, refused, crashed, conclude, retry_delay,
}

-- A failure is final when it cannot be retried or the attempts are used up; otherwise the message
-- waits, by at most the greatest delay.
abbrev pub Retried : Limits → (hopeless : Bool) → ℕ → Outbox → Type 0
Retried l true at o' = o'.status ≡ dead_letter
Retried l false at o' =
    (o'.status ≡ pending)
    × ((due : ℕ) × (o'.available_at ≡ some due) × (at ≤ due) × (due ≤ at + l.retry_max_delay))

abbrev pub Verdict : Limits → Attempt → ℕ → Outbox → Outbox → Type 0
Verdict l (delivered outcome code) at o o' = (o'.status ≡ sent) × (o'.sent_at ≡ some at)
Verdict l (withheld reason) at o o' = o'.status ≡ skipped
Verdict l (refused outcome message code retryable retry_after) at o o' =
    Retried l (is_hopeless retryable l.max_attempts o) at o'
Verdict l crashed at o o' = Retried l (is_hopeless true l.max_attempts o) at o'

write_held :
    (id token : ℕ) (f : Outbox → Outbox) (os : List Outbox) (o : Outbox)
    → ((u : Outbox) → (f u).id ≡ u.id)
    → find (λ (u : Outbox). eqb u.id id) os ≡ some o
    → is_sending id token o ≡ true
    → find (λ (u : Outbox). eqb u.id id) (write_outbox id token f os).1 ≡ some (f o)
unfolding write_outbox
write_held id token f os o same h s =
    let k =
      find-update (λ (u : Outbox). eqb u.id id) (is_sending id token) f os
        (λ u e. ap (λ i. eqb i id) (same u)) in
    elim (Option-cases (find (is_sending id token) os)) [
      | inl e ↦ absurd (find_other (λ (u : Outbox). eqb u.id id) (is_sending id token) os h s e)
      | inr (u, e) ↦ rw (e, write_outbox) (k ∙ rw (h, s) refl)
    ]

write_releases :
    (id token : ℕ) (f : Outbox → Outbox) (os : List Outbox)
    → ((u : Outbox) → (f u).lease_token ≡ none)
    → find (is_sending id token) (write_outbox id token f os).1 ≡ none
unfolding write_outbox
write_releases id token f os gone = elim (Option-cases (find (is_sending id token) os)) [
  | inl e ↦ rw (e, write_outbox) e
  | inr (u, e) ↦
      rw (e, write_outbox)
        (find-update-none (is_sending id token) f os (λ v k. ground (arith, gone v)))
]

Retried-verdict :
    (l : Limits) (at delay : ℕ) (error outcome : String) (code : Option ℕ) (retryable : Bool)
    (o : Outbox)
    → delay ≤ l.retry_max_delay
    → Retried l
        (is_hopeless retryable l.max_attempts o)
        at
        (failed at error l.max_attempts delay outcome code retryable o)
Retried-verdict l at delay error outcome code retryable o h =
    elim (Bool-cases (is_hopeless retryable l.max_attempts o)) [
      | inl e ↦ rw e refl
      | inr e ↦ rw e (refl, (at + delay, refl, omega arith, omega arith))
    ]

-- When the row of a message is in delivery under the message's token, the conclusion of the
-- attempt writes it: a delivery marks it sent, a suppression skipped, and a failure or any other
-- exception dead if it cannot be retried or the attempts are used up, and otherwise pending again,
-- available at or after the time of the failure by at most the greatest delay.
pub conclude-Verdict :
    (l : Limits) (m : Message) (at : ℕ) (a : Attempt) (os : List Outbox) (o : Outbox)
    → find (λ (u : Outbox). eqb u.id m.id) os ≡ some o
    → is_sending m.id m.lease_token o ≡ true
    → (o' : Outbox) × (find (λ (u : Outbox). eqb u.id m.id) (conclude l m at a os).1 ≡ some o')
      × Verdict l a at o o'
unfolding conclude complete_outbox fail_outbox suppress_outbox retry_delay
conclude-Verdict l m at (delivered outcome code) os o h s = (
  _,
  write_held m.id m.lease_token (completed at outcome code) os o (λ u. refl) h s,
  (refl, refl),
)
conclude-Verdict l m at (withheld reason) os o h s =
    (_, write_held m.id m.lease_token (suppressed at reason) os o (λ u. refl) h s, refl)
conclude-Verdict l m at (refused outcome message code retryable retry_after) os o h s = (
  _,
  write_held m.id m.lease_token _ os o (λ u. refl) h s,
  Retried-verdict l at _ message outcome code retryable o (omega arith),
)
conclude-Verdict l m at crashed os o h s = (
  _,
  write_held m.id m.lease_token _ os o (λ u. refl) h s,
  Retried-verdict l at _ "Notification delivery failed" "network_error" none true o (omega arith),
)

-- A conclusion is one write under the message's token, which gives the lease up.
pub conclude_write :
    (l : Limits) (m : Message) (at : ℕ) (a : Attempt) (os : List Outbox)
    → (f : Outbox → Outbox) × ((u : Outbox) → (f u).lease_token ≡ none)
      × (conclude l m at a os ≡ write_outbox m.id m.lease_token f os)
unfolding conclude complete_outbox fail_outbox suppress_outbox
conclude_write l m at (delivered outcome code) os = (completed at outcome code, λ u. refl, refl)
conclude_write l m at (withheld reason) os = (suppressed at reason, λ u. refl, refl)
conclude_write l m at (refused outcome message code retryable retry_after) os = (_, λ u. refl, refl)
conclude_write l m at crashed os = (_, λ u. refl, refl)

pub write_none :
    (id token : ℕ) (f : Outbox → Outbox) (os : List Outbox)
    → find (is_sending id token) os ≡ none
    → write_outbox id token f os ≡ (false, os)
unfolding write_outbox
write_none id token f os e = rw (e, write_outbox) refl

-- Whatever the attempt was, no row is in delivery under the message's token behind its conclusion,
-- so a second conclusion of the same message returns false and changes nothing.
pub conclude_twice :
    (l : Limits) (m : Message) (at at' : ℕ) (a b : Attempt) (os : List Outbox)
    → conclude l m at' b (conclude l m at a os).1 ≡ (false, (conclude l m at a os).1)
conclude_twice l m at at' a b os =
    let (f, gone, e) = conclude_write l m at a os in
    let (g, left, k) = conclude_write l m at' b (conclude l m at a os).1 in
    k ∙ write_none m.id m.lease_token g _ (rw e (write_releases m.id m.lease_token f os gone))
