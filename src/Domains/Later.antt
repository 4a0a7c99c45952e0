-- ===== src/Domains/Later.antt =====
-- The version of a domain never falls, whatever DomainService commits on the domains of any user.
use domains_manager.Base.{
  ℕ, ◌+◌, ◌≡◌, refl, ◌∙◌, String, Bool, true, false, ◌&&◌, ◌++◌, none, some, List, [], ◌∷◌, eqb,
  leb, arith, inl, inr, Option-cases, Bool-cases, is_some, str_eq, if◌then◌else◌,
}
use domains_manager.Base.Kept.{find-append}
use domains_manager.Base.Table.{find, update, count, find-update}
use domains_manager.Base.Result.{
  ok, bind_ok, or_raise, guard, domain_already_managed, invalid_domain, subdomain_not_supported,
  domain_not_found,
}
use domains_manager.Models.{Domain, Database}
use domains_manager.Domains.{
  is_at_version, edited, Changes, restored, is_deleted, restore, write_returning, add_domain,
  domain_conflicts, get_by_name, get_domain, soft_delete, deleted, is_present,
}
use domains_manager.Domains.Service.{
  DomainService, NewIds, Identity, new_domain, create, create_again, create_first, refresh_if,
  update_domain, delete_domain,
}
use domains_manager.Domains.Versions.{refresh_if-domains, update_domain_writes}

-- The transactions of DomainService that write domains.
pub data Step (db db' : Database) : Type 0 where
  creates :
      (s : DomainService) (x : NewIds) (user : ℕ) (name : String) (monitor : Bool) (now : ℕ)
      (d : Domain) (again : Bool)
      → create s x user name monitor now db ≡ ok ((d, again), db')
      → Step db db'
  changes :
      (s : DomainService) (x : NewIds) (user id version : ℕ) (c : Changes) (now : ℕ) (d : Domain)
      → update_domain s x user id version c now db ≡ ok (d, db')
      → Step db db'
  deletes : (user id now : ℕ) → delete_domain user id now db ≡ ok db' → Step db db'

pub data Reach (db : Database) : Database → Type 0 where
  here : Reach db db
  next : {db' db'' : Database} → Reach db db' → Step db' db'' → Reach db db''

abbrev pub is_row : ℕ → Domain → Bool
is_row id d = eqb d.id id

-- Every row of the domain has a version behind `version`.
abbrev pub is_old : ℕ → ℕ → Domain → Bool
is_old id version d = is_row id d && leb d.version version

abbrev pub IsPast : ℕ → ℕ → List Domain → Type 0
IsPast id version ds =
    ((d : Domain) × (find (is_row id) ds ≡ some d)) × (find (is_old id version) ds ≡ none)

-- Rows that keep their identifier, at a version that is not lower.
none_old :
    (id version : ℕ) (q : Domain → Bool) (f : Domain → Domain) (ds : List Domain)
    → ((d : Domain) → (f d).id ≡ d.id)
    → ((d : Domain) → (f d).version ≡ d.version + 1)
    → find (is_old id version) ds ≡ none
    → find (is_old id version) (update q f ds) ≡ none
unfolding find update
none_old id version q f [] same up h = refl
none_old id version q f (d ∷ ds) same up h =
    ground (arith, same d, up d, none_old id version q f ds same up)

update-IsPast :
    (id version : ℕ) (q : Domain → Bool) (f : Domain → Domain) (ds : List Domain)
    → ((d : Domain) → (f d).id ≡ d.id)
    → ((d : Domain) → (f d).version ≡ d.version + 1)
    → IsPast id version ds
    → IsPast id version (update q f ds)
update-IsPast id version q f ds same up ((d, e), h) = (
  ((if q d then f d else d), find-update (is_row id) q f ds (λ r k. rw (same r) refl) ∙ rw e refl),
  none_old id version q f ds same up h,
)

-- A domain that is added under no identifier in use has another one.
new_other :
    (id : ℕ) (new : Domain) (ds : List Domain) {d : Domain}
    → find (domain_conflicts new) ds ≡ none
    → find (is_row id) ds ≡ some d
    → eqb new.id id ≡ false
unfolding find
new_other id new [] free e = absurd (ground arith)
new_other id new (z ∷ ds) {d} free e = ground (arith, new_other id new ds {d = d})

append_none :
    (p : Domain → Bool) (ds : List Domain) (new : Domain)
    → p new ≡ false
    → find p ds ≡ none
    → find p (ds ++ (new ∷ [])) ≡ none
unfolding find
append_none p [] new off h = ground arith
append_none p (z ∷ ds) new off h = ground (arith, append_none p ds new off)

append-IsPast :
    (id version : ℕ) (new : Domain) (ds : List Domain)
    → find (domain_conflicts new) ds ≡ none
    → IsPast id version ds
    → IsPast id version (ds ++ (new ∷ []))
append-IsPast id version new ds free ((d, e), h) =
    let other = new_other id new ds free e in
    (
      (d, find-append (is_row id) ds (new ∷ []) e),
      append_none (is_old id version) ds new (ground arith) h,
    )

write-IsPast :
    (id version : ℕ) (q : Domain → Bool) (f : Domain → Domain) (db : Database)
    → ((d : Domain) → (f d).id ≡ d.id)
    → ((d : Domain) → (f d).version ≡ d.version + 1)
    → IsPast id version db.domains
    → IsPast id version (write_returning q f db).1.domains
unfolding write_returning
write-IsPast id version q f db same up h = elim (Option-cases (find q db.domains)) [
  | inl e ↦ rw (e, write_returning) h
  | inr (d, e) ↦ rw (e, write_returning) (update-IsPast id version q f db.domains same up h)
]

create_again-IsPast :
    (s : DomainService) (x : NewIds) (existing : Domain) (user : ℕ) (monitor : Bool) (now : ℕ)
    (id version : ℕ) (db db' : Database) (r : Domain × Bool)
    → create_again s x existing user monitor now db ≡ ok (r, db')
    → IsPast id version db.domains
    → IsPast id version db'.domains
unfolding create_again
create_again-IsPast s x existing user monitor now id version db db' r h past =
    let (a, e1, k1) = bind_ok (guard (is_some existing.deleted_at) domain_already_managed) _ h in
    let (d, e2, k2) =
      bind_ok (or_raise (restore existing.id user now monitor db).0 domain_already_managed) _ k1 in
    let (db2, e3, k3) =
      bind_ok (refresh_if d.monitor_enabled s x d now (restore existing.id user now monitor db).1) _
        k2 in
    let kept =
      refresh_if-domains d.monitor_enabled s x d now (restore existing.id user now monitor db).1 db2
        e3 in
    let same : db' ≡ db2 = ground arith in
    rw (same, kept)
      (write-IsPast id version (is_deleted user existing.id) (restored now monitor) db (λ z. refl)
        (λ z. refl) past)

create_first-IsPast :
    (s : DomainService) (x : NewIds) (i : Identity) (user : ℕ) (monitor : Bool) (now : ℕ)
    (id version : ℕ) (db db' : Database) (r : Domain × Bool)
    → create_first s x i user monitor now db ≡ ok (r, db')
    → IsPast id version db.domains
    → IsPast id version db'.domains
unfolding create_first add_domain
create_first-IsPast s x i user monitor now id version db db' r h past =
    let d = new_domain x.domain_id user i monitor now in
    elim (Option-cases (find (domain_conflicts d) db.domains)) [
      | inr (y, e) ↦ absurd (ground arith)
      | inl e ↦
          let db1 = record db { domains = db.domains ++ (d ∷ []) } in
          let (db2, e1, k1) =
            bind_ok (refresh_if monitor s x d now db1) _ (rw (create_first, add_domain, e) at h) in
          let kept = refresh_if-domains monitor s x d now db1 db2 e1 in
          let same : db' ≡ db2 = ground arith in
          rw (same, kept) (append-IsPast id version d db.domains e past)
    ]

create-IsPast :
    (s : DomainService) (x : NewIds) (user : ℕ) (name : String) (monitor : Bool) (now : ℕ)
    (id version : ℕ) (db db' : Database) (r : Domain × Bool)
    → create s x user name monitor now db ≡ ok (r, db')
    → IsPast id version db.domains
    → IsPast id version db'.domains
unfolding create
create-IsPast s x user name monitor now id version db db' r h past =
    let (i, e1, k1) = bind_ok (or_raise (s.normalize name) invalid_domain) _ h in
    let (a, e2, k2) =
      bind_ok (guard (str_eq i.ascii_name i.registrable_domain) subdomain_not_supported) _ k1 in
    elim (Option-cases (get_by_name user i.ascii_name db)) [
      | inl e ↦ create_first-IsPast s x i user monitor now id version db db' r (rw e at k2) past
      | inr (d, e) ↦
          create_again-IsPast s x d user monitor now id version db db' r (rw e at k2) past
    ]

delete-IsPast :
    (user i now id version : ℕ) (db db' : Database)
    → delete_domain user i now db ≡ ok db'
    → IsPast id version db.domains
    → IsPast id version db'.domains
unfolding delete_domain soft_delete
delete-IsPast user i now id version db db' h past =
    let (d, e, k) = bind_ok (or_raise (get_domain user i true db) domain_not_found) _ h in
    let dead =
      update-IsPast id version (is_present user i) (deleted user now) db.domains (λ z. refl)
        (λ z. refl) past in
    elim (Bool-cases (is_some d.deleted_at)) [
      | inl f ↦ let same : db' ≡ db = ground arith in rw same past
      | inr f ↦ elim (Bool-cases (eqb (count (is_present user i) db.domains) 1)) [
        | inl g ↦
            let same : db'.domains ≡ update (is_present user i) (deleted user now) db.domains =
              ground arith in
            rw same dead
        | inr g ↦ let same : db' ≡ db = ground arith in rw same past
      ]
    ]

Step-IsPast :
    (id version : ℕ) (db db' : Database)
    → Step db db'
    → IsPast id version db.domains
    → IsPast id version db'.domains
Step-IsPast id version db db' (creates s x user name monitor now d again h) past =
    create-IsPast s x user name monitor now id version db db' (d, again) h past
Step-IsPast id version db db' (changes s x user i v c now d h) past =
    let (old, e, same, w) = update_domain_writes s x user i v c now db db' d h in
    rw w (
      update-IsPast id version (is_at_version user i v) (edited c now) db.domains (λ z. refl)
        (λ z. refl) past)
Step-IsPast id version db db' (deletes user i now h) past =
    delete-IsPast user i now id version db db' h past

pub Reach-IsPast :
    (id version : ℕ) (db db' : Database)
    → Reach db db'
    → IsPast id version db.domains
    → IsPast id version db'.domains
Reach-IsPast id version db db' here past = past
Reach-IsPast id version db db'' (next {db'} r step) past =
    Step-IsPast id version db' db'' step (Reach-IsPast id version db db' r past)
