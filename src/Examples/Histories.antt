-- ===== src/Examples/Histories.antt =====
-- A device is enrolled, an event is appended, and a ceremony is asked for that there is not.
use vorcaro_ledger.Prelude.{Extends, refl}
use vorcaro_ledger.Database.Tables.{Db}
use vorcaro_ledger.System.{
  append, approve, complete, after, Reachable, at_start, called, IsTamperEvident,
  Reachable-IsTamperEvident,
}
use vorcaro_ledger.Examples.Host.{plain_host, morning}
use vorcaro_ledger.Examples.Samples.{first_request}
use vorcaro_ledger.Examples.Enrollments.{registrar, enrollment, waiting_db}
use vorcaro_ledger.Examples.Recoveries.{service, approving}

abbrev enrolled : Db
enrolled = after {host = plain_host} (complete registrar refl enrollment) waiting_db

abbrev appended : Db
appended = after {host = plain_host} (append morning refl first_request) enrolled

abbrev approved : Db
approved = after {host = plain_host} (approve service refl approving) appended

abbrev path : Reachable plain_host waiting_db approved
path =
    called
      (called (called at_start (complete registrar refl enrollment))
        (append morning refl first_request))
      (approve service refl approving)

abbrev nothing_written : IsTamperEvident plain_host waiting_db
nothing_written = record { ledger = tt; audit_log = tt }

Reachable-IsTamperEvident_example :
    IsTamperEvident plain_host approved
    × Extends waiting_db.ledger_events approved.ledger_events
    × Extends waiting_db.audit_log approved.audit_log
Reachable-IsTamperEvident_example = Reachable-IsTamperEvident nothing_written path
