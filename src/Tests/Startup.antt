-- ===== src/Tests/Startup.antt =====
-- `StartAutostart` of internal/domain/service/manager.go with one service in the database.
use alresia_voltpanel.Prelude.{
  ℕ, ◌≡◌, refl, String, true, false, some, List, [], ◌∷◌, map, elem, distinct, arith,
}
use alresia_voltpanel.Storage.{ServiceRecord, to_row, scan_service_record, list_service_records}
use alresia_voltpanel.Service.Entity.{to_service, to_record, from_record}
use alresia_voltpanel.Service.Manager.{Manager, launched}
use alresia_voltpanel.Service.Manager.Autostart.{Round, autostart_services, start_autostart}
use alresia_voltpanel.Service.Manager.Invariant.{Inv}
use alresia_voltpanel.Service.Manager.Runs.{new_manager, run, run-Inv}
use alresia_voltpanel.Service.Manager.Startup.{IsLive, node, start_autostart-IsLive}
use alresia_voltpanel.Service.Topo.{ids}
use alresia_voltpanel.Service.Topo.Links.{needs, depends}
use alresia_voltpanel.Service.Topo.Cycles.{IsRank}
use alresia_voltpanel.Tests.Service.{web_record, written}

abbrev rested : Manager
rested = new_manager written

rested-Inv : Inv rested
unfolding run
rested-Inv = (run-Inv written []).0

abbrev stored_web : List ServiceRecord
stored_web = scan_service_record (to_row 10 web_record) ∷ []

stored_web_lem : list_service_records rested.store ≡ some stored_web
unfolding list_service_records new_manager
stored_web_lem = refl

abbrev rounds : String → Round
rounds id = record { is_done = false; launch = launched 42 1000; ends = [] }

abbrev flat : String → ℕ
flat v = 0

flat-IsRank : IsRank (map node (autostart_services stored_web)) flat
unfolding autostart_services scan_service_record to_row to_record to_service from_record needs
    depends
flat-IsRank d v h = absurd (ground (arith, h))

only_web : distinct (ids (map node (autostart_services stored_web))) ≡ true
unfolding autostart_services scan_service_record to_row to_record to_service from_record
only_web = refl

web_there : elem "web" (ids (map node (autostart_services stored_web))) ≡ true
unfolding autostart_services scan_service_record to_row to_record to_service from_record
web_there = refl

start_autostart-IsLive_example : IsLive (start_autostart rested rounds).0 "web"
start_autostart-IsLive_example =
    start_autostart-IsLive rested rounds stored_web flat "web" 42 1000 rested-Inv stored_web_lem
      only_web flat-IsRank web_there refl (λ id. refl) (λ id. refl)
