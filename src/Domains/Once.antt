-- ===== src/Domains/Once.antt =====
-- Two users of one version of a domain: only the first change is taken.
use domains_manager.Base.{
  ℕ, ◌+◌, ◌≤◌, ◌≡◌, refl, ◌∙◌, false, none, some, List, arith, inl, inr, Option-cases, is_some,
  if◌then◌else◌,
}
use domains_manager.Base.Table.{
  find, update, count, find-update, find_sound, find_other, find-update_unique,
}
use domains_manager.Base.Result.{ok, err, domain_not_found, version_conflict}
use domains_manager.Models.{Domain, Database}
use domains_manager.Domains.{
  is_at_version, edited, Changes, write_returning, get_domain, update_local,
}
use domains_manager.Domains.Service.{DomainService, NewIds, update_domain}
use domains_manager.Domains.Versions.{update_domain_writes}
use domains_manager.Domains.Later.{Reach, is_row, is_old, IsPast, Reach-IsPast}

edit-IsPast :
    (user id version : ℕ) (c : Changes) (now : ℕ) (ds : List Domain) {old : Domain}
    → count (is_row id) ds ≤ 1
    → find (is_at_version user id version) ds ≡ some old
    → IsPast id version (update (is_at_version user id version) (edited c now) ds)
edit-IsPast user id version c now ds {old} unique e =
    let at = find_sound (is_at_version user id version) ds e in
    let found =
      find-update (is_row id) (is_at_version user id version) (edited c now) ds (λ r k. refl) in
    let gone =
      find-update_unique (is_row id) (is_at_version user id version) (is_old id version)
        (edited c now) ds {x = old} (λ y k. ground arith) (λ y k. ground arith)
        (λ y k. ground arith) unique e in
    elim (Option-cases (find (is_row id) ds)) [
      | inl f ↦
          absurd (find_other (is_at_version user id version) (is_row id) ds e (ground arith) f)
      | inr (y, f) ↦ (
        ((if is_at_version user id version y then edited c now y else y), found ∙ rw f refl),
        gone,
      )
    ]

-- A change that returned leaves the domain behind the version that it was made to.
update_domain-IsPast :
    (s : DomainService) (x : NewIds) (user id version : ℕ) (c : Changes) (now : ℕ)
    (db db' : Database) (d : Domain)
    → count (is_row id) db.domains ≤ 1
    → update_domain s x user id version c now db ≡ ok (d, db')
    → (d.version ≡ version + 1) × IsPast id version db'.domains
update_domain-IsPast s x user id version c now db db' d unique h =
    let (old, e, same, w) = update_domain_writes s x user id version c now db db' d h in
    let at = find_sound (is_at_version user id version) db.domains e in
    (ground arith, rw w (edit-IsPast user id version c now db.domains unique e))

-- A change to a version that the domain has left behind raises.
past_refused :
    (s : DomainService) (x : NewIds) (user id version : ℕ) (c : Changes) (now : ℕ) (db : Database)
    → IsPast id version db.domains
    → update_domain s x user id version c now db
      ≡ err (if is_some (get_domain user id false db) then version_conflict else domain_not_found)
unfolding update_domain update_local write_returning
past_refused s x user id version c now db (there, gone) =
    let none_left : find (is_at_version user id version) db.domains ≡ none =
      elim (Option-cases (find (is_at_version user id version) db.domains)) [
        | inl e ↦ e
        | inr (y, e) ↦
            let at = find_sound (is_at_version user id version) db.domains e in
            absurd (
              find_other (is_at_version user id version) (is_old id version) db.domains e
                (ground arith) gone)
      ] in
    elim (Option-cases (get_domain user id false db)) [
      | inl f ↦ rw (update_domain, f) refl
      | inr (d, f) ↦ rw (update_domain, f, update_local, none_left, write_returning) refl
    ]

-- Of two changes that were made to one version of a domain only one is taken, where one row at most
-- has the domain's identifier: after the first returned the domain at the next version, and whatever
-- DomainService created, restored, changed and deleted since, of any user, the second raises, whatever
-- it changes: a version conflict where the user has the domain, and that it was not found where it was
-- deleted.
pub update_once :
    (s : DomainService) (x : NewIds) (user id version : ℕ) (c : Changes) (now : ℕ)
    (db db' db'' : Database) (d : Domain) (s' : DomainService) (x' : NewIds) (c' : Changes)
    (now' : ℕ)
    → count (is_row id) db.domains ≤ 1
    → update_domain s x user id version c now db ≡ ok (d, db')
    → Reach db' db''
    → (d.version ≡ version + 1)
      × (update_domain s' x' user id version c' now' db''
          ≡ err (
              if is_some (get_domain user id false db'')
              then version_conflict
              else domain_not_found))
update_once s x user id version c now db db' db'' d s' x' c' now' unique h r =
    let (up, past) = update_domain-IsPast s x user id version c now db db' d unique h in
    (up, past_refused s' x' user id version c' now' db'' (Reach-IsPast id version db' db'' r past))
