-- ===== src/Tests/DomainRuns.antt =====
-- Changes and lists of domains at concrete inputs.
use domains_manager.Base.{
  ◌+◌, ◌≤◌, ◌≡◌, refl, true, false, none, some, [], ◌∷◌, length, arith, is_some, if◌then◌else◌,
}
use domains_manager.Base.Table.{find, update, count}
use domains_manager.Base.Result.{ok, err, version_conflict, domain_not_found}
use domains_manager.Models.{Domain, Database}
use domains_manager.Domains.{
  Changes, Collation, DomainPage, expired, by_created, get_domain, update_local, write_returning,
  soft_delete,
}
use domains_manager.Domains.Service.{
  DomainService, NewIds, update_domain, delete_domain, list_page, stats,
}
use domains_manager.Domains.Totals.{of_lifecycle, counted, list-eq-stats}
use domains_manager.Domains.Once.{update_once}
use domains_manager.Domains.Later.{here, next, deletes, is_row}
use domains_manager.Tests.Data.{idle, domain}

abbrev service : DomainService
service = record {
  normalize = λ s. none;
  uuid_text = λ n. "3";
  isoformat = λ n. "2026";
  sha256 = λ s. "hash";
  initial_task_max_attempts = 5;
}

abbrev ids : NewIds
ids = record { domain_id = 4; task_id = 5; idempotency_id = 6 }

abbrev notes_change : Changes
notes_change = record {
  monitor_enabled = none;
  renewal_mode = none;
  notes = some "renew in May";
  fields = "notes" ∷ [];
}

abbrev pause : Changes
pause = record {
  monitor_enabled = some false;
  renewal_mode = none;
  notes = none;
  fields = "monitor_enabled" ∷ [];
}

abbrev noted : Domain
noted = record domain { notes = some "renew in May"; updated_at = 50; version = 2 }

abbrev noted_db : Database
noted_db = record idle { domains = noted ∷ [] }

notes_it : update_domain service ids 8 3 1 notes_change 50 idle ≡ ok (noted, noted_db)
unfolding update_domain get_domain update_local write_returning find update
notes_it = refl

abbrev dropped_db : Database
dropped_db = record noted_db {
  domains =
      record noted {
        deleted_at = some 60;
        deleted_by_user_id = some 8;
        updated_at = 60;
        version = 3;
      }
      ∷ [];
}

drops_it : delete_domain 8 3 60 noted_db ≡ ok dropped_db
unfolding delete_domain get_domain soft_delete find update count
drops_it = refl

one_row : count (is_row 3) idle.domains ≤ 1
unfolding count
one_row = omega arith

update_once_example :
    (noted.version ≡ domain.version + 1)
    × (update_domain service ids 8 3 1 pause 61 dropped_db
        ≡ err (
            if is_some (get_domain 8 3 false dropped_db)
            then version_conflict
            else domain_not_found))
update_once_example =
    update_once service ids 8 3 1 notes_change 50 idle noted_db dropped_db noted service ids pause
      61 one_row notes_it (next here (deletes 8 3 60 drops_it))

abbrev collation : Collation
collation = record { ilike = λ s p. true; precedes = λ a b. false }

-- A domain that expired, and one that did not.
abbrev two_domains : Database
two_domains = record idle {
  domains =
      record domain { registrar_expires_at = some 40 }
      ∷ record domain { id = 4; name_ascii = "example.net"; registrar_expires_at = some 90 }
      ∷ [];
}

list-eq-stats_example :
    (p : DomainPage) × (list_page collation none 8 50
        (of_lifecycle expired 1 20 by_created true)
        two_domains
      ≡ ok p)
    × (p.total ≡ counted expired (stats none 8 50 two_domains))
    × (length p.items ≤ 20)
list-eq-stats_example = list-eq-stats collation none 8 50 expired 1 20 by_created true two_domains
