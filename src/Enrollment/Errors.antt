-- ===== src/Enrollment/Errors.antt =====
-- The error paths of server/src/pki/enrollment.ts.
use vorcaro_ledger.Prelude.{◌≡◌}
use vorcaro_ledger.Protocol.Result.{err, Thrown}
use vorcaro_ledger.Database.Tables.{Db}
use vorcaro_ledger.Database.Restores.{Restores-read, Restores-transaction}
use vorcaro_ledger.Enrollment.Service.{PkiService, CompleteEnrollmentInput, RevokeDeviceInput}
use vorcaro_ledger.Enrollment.Completion.{complete_enrollment}
use vorcaro_ledger.Enrollment.Revocation.{revoke_device}

module _ (s : PkiService) (db : Db) (thrown : Thrown) where
  -- An enrollment that throws, in a check or in a statement, leaves the database as it was.
  pub complete_enrollment-err :
      (input : CompleteEnrollmentInput)
      → (complete_enrollment s input db).0 ≡ err thrown
      → (complete_enrollment s input db).1 ≡ db
  unfolding complete_enrollment
  complete_enrollment-err input =
      (Restores-read _ (λ event. Restores-read _ (λ challenge. Restores-transaction _))).at db
        thrown

  -- So does a revocation.
  pub revoke_device-err :
      (input : RevokeDeviceInput)
      → (revoke_device s input db).0 ≡ err thrown
      → (revoke_device s input db).1 ≡ db
  unfolding revoke_device
  revoke_device-err input = (Restores-read _ (λ device. Restores-transaction _)).at db thrown
