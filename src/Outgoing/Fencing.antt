-- ===== src/Outgoing/Fencing.antt =====
-- A worker whose message was taken over can no longer conclude it.
use domains_manager.Base.{
  ℕ, ◌≤◌, ◌≡◌, ◌≢◌, ◌∙◌, refl, subst, ap, String, Bool, false, ◌&&◌, some, List, [], ◌∷◌, eqb,
  arith, inl, inr, Option-cases, Bool-cases, eqb_refl,
}
use domains_manager.Base.Table.{find, count, find-update_unique}
use domains_manager.Models.{Outbox}
use domains_manager.Outgoing.{
  Directory, Message, is_deliverable, is_sending, joined, taken, earliest, claim_outbox,
}
use domains_manager.Outgoing.Worker.{Limits, Attempt, conclude}
use domains_manager.Outgoing.Attempts.{conclude_write, write_none}

-- The row that the scan returned is found again under its identifier.
earliest-find :
    (p : Outbox → Bool) (os : List Outbox) {o : Outbox}
    → earliest p os ≡ some o
    → (x : Outbox) × (find (λ (u : Outbox). eqb u.id o.id && p u) os ≡ some x)
unfolding earliest find
earliest-find p [] e = absurd (ground arith)
earliest-find p (u ∷ us) {o} e = elim (Bool-cases (eqb u.id o.id && p u)) [
  | inl h ↦ (u, rw h refl)
  | inr h ↦ elim (Option-cases (earliest p us)) [
    | inl f ↦ absurd (ground (arith, eqb_refl o.id))
    | inr (y, f) ↦
        let same : y ≡ o = ground (arith, eqb_refl o.id) in
        let (x, g) = earliest-find p us {o = y} f in
        let id : y.id ≡ o.id = ap (λ (v : Outbox). v.id) same in
        (x, rw h (subst (λ i. find (λ (u : Outbox). eqb u.id i && p u) us ≡ some x) id g))
  ]
]

-- Where the identifiers of messages are unique, after another worker claimed the message under a
-- new token, the conclusion of the attempt that held the old token returns false and changes
-- nothing, whatever the attempt was.
pub delivery_fenced :
    (l : Limits) (m : Message) (at : ℕ) (a : Attempt) (d : Directory) (token : ℕ) (worker : String)
    (now until : ℕ) (os : List Outbox) (m' : Message)
    → ((id : ℕ) → count (λ (u : Outbox). eqb u.id id) os ≤ 1)
    → (claim_outbox d token worker now until os).0 ≡ some m'
    → m'.id ≡ m.id
    → m.lease_token ≢ token
    → let os' = (claim_outbox d token worker now until os).1 in conclude l m at a os' ≡ (false, os')
unfolding claim_outbox
delivery_fenced l m at a d token worker now until os m' unique e same ne =
    let (f, gone, k) = conclude_write l m at a (claim_outbox d token worker now until os).1 in
    k
    ∙ write_none m.id m.lease_token f _ (elim (Option-cases (earliest (is_deliverable d now) os)) [
      | inl g ↦ absurd (ground arith)
      | inr (o, g) ↦ elim (Option-cases (joined d o)) [
        | inl h ↦ absurd (ground arith)
        | inr (j, h) ↦
            let id : o.id ≡ m.id = ground arith in
            let (x, q) = earliest-find (is_deliverable d now) os g in
            rw (g, h, claim_outbox)
              (find-update_unique (λ (u : Outbox). eqb u.id m.id) _ (is_sending m.id m.lease_token)
                (taken token worker now until) os {x = x} (λ y z. ground arith)
                (λ y z. ground arith) (λ y k. ground arith) (unique m.id) q)
      ]
    ])
