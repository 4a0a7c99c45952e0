-- ===== src/Domains/Totals.antt =====
-- The numbers that a user sees: the statistics and the totals of the lists agree.
use domains_manager.Base.{
  ℕ, ◌+◌, ◌≤◌, Bool, ◌&&◌, Option, none, some, List, [], ◌∷◌, ◌≡◌, refl, ltb, leb, arith,
  length-take-le, some_and, length,
}
use domains_manager.Base.Table.{count}
use domains_manager.Base.Result.{ok}
use domains_manager.Models.{Domain, Database}
use domains_manager.Domains.{
  Collation, Column, DomainListQuery, DomainPage, DomainStats, Lifecycle, expired, expiring,
  is_listed, in_range, matches_name, list_domains, summarize, days, is_active_of,
}
use domains_manager.Domains.Service.{
  Preference, warning_days_of, stats, resolved_list_query, list_page,
}

count_of_same {ℓ} :
    {R : Type ℓ} (p q : R → Bool) (rs : List R) → ((r : R) → p r ≡ q r) → count p rs ≡ count q rs
unfolding count
count_of_same p q [] h = refl
count_of_same p q (r ∷ rs) h = rw (count, h r, count_of_same p q rs h) refl

-- The number of the statistics that stands for a part of the life of a domain.
abbrev pub counted : Lifecycle → DomainStats → ℕ
counted expired s = s.expired_count
counted expiring s = s.expiring_count

-- A query for a part of the life of the domains, and nothing else.
abbrev pub of_lifecycle : Lifecycle → ℕ → ℕ → Column → Bool → DomainListQuery
of_lifecycle l page size sort descending = record {
  page = page;
  page_size = size;
  query = none;
  monitor_enabled = none;
  expires_from = none;
  expires_to = none;
  last_outcome = none;
  sort = sort;
  descending = descending;
  lifecycle = some l;
}

listed_expired :
    (c : Collation) (user now page size : ℕ) (sort : Column) (descending : Bool) (d : Domain)
    → is_listed c user
        (record (of_lifecycle expired page size sort descending) { expires_to = some now })
        d
      ≡ (is_active_of user d && some_and d.registrar_expires_at (λ at. ltb at now))
unfolding in_range matches_name
listed_expired c user now page size sort descending d = ground arith

listed_expiring :
    (c : Collation) (user now until page size : ℕ) (sort : Column) (descending : Bool) (d : Domain)
    → is_listed c user
        (record (of_lifecycle expiring page size sort descending) {
          expires_from = some now;
          expires_to = some until;
        })
        d
      ≡ (is_active_of user d && some_and d.registrar_expires_at (λ at. leb now at && leb at until))
unfolding in_range matches_name
listed_expiring c user now until page size sort descending d = ground arith

-- At one time, the list of a user's expiring or expired domains succeeds, its total is the number
-- that the statistics show, in any order of the rows, and its page holds no more rows than the size
-- of a page.
pub list-eq-stats :
    (c : Collation) (preference : Option Preference) (user now : ℕ) (l : Lifecycle) (page size : ℕ)
    (sort : Column) (descending : Bool) (db : Database)
    → (p : DomainPage) × (list_page c preference user now
          (of_lifecycle l page size sort descending)
          db
        ≡ ok p)
      × (p.total ≡ counted l (stats preference user now db))
      × (length p.items ≤ size)
unfolding list_page resolved_list_query list_domains summarize
list-eq-stats c preference user now expired page size sort descending db = (
  _,
  refl,
  count_of_same _ _ db.domains (listed_expired c user now page size sort descending),
  length-take-le size _,
)
list-eq-stats c preference user now expiring page size sort descending db = (
  _,
  refl,
  count_of_same _ _ db.domains (
      listed_expiring c user now (now + days (warning_days_of preference)) page size sort
        descending),
  length-take-le size _,
)
