-- ===== src/Tests/Service.antt =====
-- internal/domain/service/service.go and the rows of internal/storage at one service.
use mathlib.Core.Option.{some}
use alresia_voltpanel.Prelude.{◌≡◌, refl, true, [], ◌∷◌, arith}
use alresia_voltpanel.Prelude.Int.{pos}
use alresia_voltpanel.Storage.{
  Store, ServiceRecord, to_row, upsert_service_record, get_service_record,
}
use alresia_voltpanel.Storage.Rows.{stored, get-upsert_service_record}
use alresia_voltpanel.Service.Entity.{
  StartRequest, to_service, to_record, from_record, default_graceful_timeout,
  default_restart_window,
}
use alresia_voltpanel.Service.Entity.Persist.{IsValid, to_service-IsValid, from_record-to_record}

abbrev pub web_request : StartRequest
web_request = record {
  id = "web";
  name = "Web";
  command = "node";
  args = "server.js" ∷ [];
  cwd = "/srv/web";
  env = ("PORT", "3000") ∷ [];
  project_id = "";
  kind = "";
  autostart = true;
  depends_on = [];
  restart_policy = "always";
  graceful_timeout = pos 500000000;
  max_restarts = pos 2;
  restart_window = pos 0;
}

abbrev pub empty_store : Store
empty_store = record { services = []; reads = true; writes = true; log_dir = "/var/log/volt" }

web-IsValid : IsValid (to_service web_request)
web-IsValid = to_service-IsValid web_request (omega arith) (omega arith)

to_service-IsValid_example : IsValid (to_service web_request)
to_service-IsValid_example = to_service-IsValid web_request (omega arith) (omega arith)

from_record-to_record_example :
    from_record (stored (to_record (to_service web_request))) ≡ record (to_service web_request) {
      graceful_timeout = default_graceful_timeout;
      restart_window = default_restart_window;
    }
unfolding to_service
from_record-to_record_example = from_record-to_record (to_service web_request) web-IsValid

abbrev pub web_record : ServiceRecord
web_record = to_record (to_service web_request)

abbrev pub written : Store
written = record empty_store { services = to_row 10 web_record ∷ [] }

written_lem : upsert_service_record 10 web_record empty_store ≡ some written
unfolding upsert_service_record
written_lem = refl

get-upsert_service_record_example : get_service_record "web" written ≡ some (stored web_record)
unfolding to_record to_service
get-upsert_service_record_example =
    get-upsert_service_record 10 web_record empty_store written written_lem "web"
