-- ===== src/HealthCheck/Examples.antt =====
-- Runs of healthcheck/check.go: two databases, of which one is down.
use gobox.Base.{ℕ, zero, suc, ◌≡◌, refl, Option, none, some, [], ◌∷◌}
use gobox.Base.Dict.{insert, lookup}
use gobox.Base.Dict.Distinct.{HasDistinctKeys}
use gobox.Base.Int.{pos}
use gobox.Base.Text.{Text, codes, text_eq}
use gobox.HealthCheck.{Check, DbConn, Pinger, new_check, check_db, probe_db}
use gobox.HealthCheck.Probing.{Probes, begin_probes, finish, Steps, begun, and_then}
use gobox.HealthCheck.Reports.{answer_of, begin_probes-check_db}

-- A database is whether it is down, 1, or not, 0.
abbrev error_of : ℕ → Option Text
error_of zero = none
error_of (suc n) = some (codes "connection refused")

abbrev pinger : Pinger ℕ
pinger = record {
  ping = λ db timeout. error_of db;
  stats = λ db. record {
    open_connections = pos 2;
    in_use = pos 1;
    idle = pos 1;
    wait_count = pos 0;
    wait_duration = pos 0;
  };
}

abbrev main_conn : DbConn ℕ
main_conn = record { driver = codes "postgres"; db = 0 }

abbrev audit_conn : DbConn ℕ
audit_conn = record { driver = codes "mysql"; db = 1 }

abbrev service : Check ℕ
service = record {
  databases = (codes "main", main_conn) ∷ (codes "audit", audit_conn) ∷ [];
  started_at = 0;
  ping_timeout = pos 5000000000;
}

-- The later entry of a name replaces the earlier one.
new_check_run :
    new_check 0 (
      record { name = codes "main"; driver = codes "mysql"; db = 1 }
      ∷ record { name = codes "main"; driver = codes "postgres"; db = 0 }
      ∷ record { name = codes "audit"; driver = codes "mysql"; db = 1 }
      ∷ [])
    ≡ service
unfolding new_check insert text_eq
new_check_run = refl

service-HasDistinctKeys : HasDistinctKeys service.databases
unfolding lookup text_eq
service-HasDistinctKeys = (refl, (refl, tt))

abbrev both_done : Probes ℕ
both_done = record {
  timeout = service.ping_timeout;
  pending = [];
  results =
      insert (codes "main") (probe_db pinger service.ping_timeout main_conn)
        (insert (codes "audit") (probe_db pinger service.ping_timeout audit_conn) []);
}

-- The second goroutine writes before the first.
both_steps : Steps pinger (begin_probes service) 2 both_done
unfolding begin_probes
both_steps =
    and_then
      (and_then begun
        (finish ((codes "main", main_conn) ∷ []) [] (codes "audit") audit_conn refl refl))
      (finish [] [] (codes "main") main_conn refl refl)

begin_probes-check_db_example :
    lookup (codes "audit") both_done.results ≡ answer_of (check_db pinger (codes "audit") service)
begin_probes-check_db_example =
    begin_probes-check_db pinger service 2 both_done (codes "audit") service-HasDistinctKeys
      both_steps refl
