-- ===== src/Recovery/Execution.antt =====
-- `executeCeremony` of server/src/recovery/service.ts.
use vorcaro_ledger.Prelude.{ℕ, ◌+◌, none, List, [], ◌∷◌, Text, codes, length}
use vorcaro_ledger.Prelude.Int.{pos}
use vorcaro_ledger.Protocol.Canonical.{Fields, number, str, end, field}
use vorcaro_ledger.Protocol.Envelope.{ClientEventEnvelope, ServerAck}
use vorcaro_ledger.Protocol.Schema.{parse_envelope}
use vorcaro_ledger.Database.Tables.{Db}
use vorcaro_ledger.Database.Action.{
  after_commit, Action, pure, lift, gets, modify, attempt, transaction, ◌>>=◌, ◌>>◌,
}
use vorcaro_ledger.Database.Select.{max_sequence}
use vorcaro_ledger.Recovery.Statements.{
  close_executive_key, insert_executive_key, activate_executive, complete_ceremony,
}
use vorcaro_ledger.Recovery.Ceremony.{RecoveryService, RecoveryCeremony, read_ceremony, audit}
use vorcaro_ledger.Recovery.Rotation.{rewrap_key_packages, append_accepted_event}
use vorcaro_ledger.Recovery.Checks.{ExecuteRecoveryInput, Target, check_execution}

pub record ExecuteRecoveryResult : Type 0 where
  pub ceremony : RecoveryCeremony
  pub new_key_version : ℕ
  pub rewrapped_key_package_ids : List Text
  pub acknowledgements : List ServerAck

-- What a committed execution hands to the result.
pub record Executed : Type 0 where
  pub target : Target
  pub rewrapped_ids : List Text
  pub acks : List ServerAck

module _ (s : RecoveryService) where
  unfoldable pub rotate_key : Target → ℕ → Action (Unit {0})
  rotate_key target head_sequence = do
    modify (close_executive_key target.ceremony.executive_id target.old_key_version head_sequence)
    attempt (
        insert_executive_key (record {
          executive_id = target.ceremony.executive_id;
          key_version = target.old_key_version + 1;
          signing_public_key = target.ceremony.new_public_key;
          valid_from_sequence = head_sequence;
          valid_until_sequence = none;
        }))
    modify (
        activate_executive target.ceremony.executive_id target.ceremony.new_public_key
          (target.old_key_version + 1))

  unfoldable pub execution_detail : Target → List Text → Fields
  execution_detail target ids = field (codes "event") (str (codes "recovery_ceremony_executed")) (
      field (codes "ceremony_id") (str target.ceremony.id) (
        field (codes "executive_id") (str target.ceremony.executive_id) (
          field (codes "new_key_version") (number (pos (target.old_key_version + 1)))
            (field (codes "rewrapped_key_package_count") (number (pos (length ids))) end))))

  unfoldable pub finish : ExecuteRecoveryInput → Target → List Text → Db → Db
  finish input target ids db =
      audit s input.executed_by (execution_detail target ids)
        (complete_ceremony target.ceremony.id s.now db)

  unfoldable pub execute_statements :
      ExecuteRecoveryInput → ClientEventEnvelope → ClientEventEnvelope → Action Executed
  execute_statements input performed rotated = do
    target ← λ db. (check_execution s input performed rotated db, db)
    head_sequence ← gets (λ db. max_sequence db.ledger_events)
    ids ← rewrap_key_packages s (record {
      executive_id = target.ceremony.executive_id;
      old_key_version = target.old_key_version;
      new_key_version = target.old_key_version + 1;
    })
    rotate_key target head_sequence
    first ← append_accepted_event s performed
    second ← append_accepted_event s rotated
    modify (finish input target ids)
    pure (record { target = target; rewrapped_ids = ids; acks = first ∷ second ∷ [] })

  unfoldable pub execute_ceremony : ExecuteRecoveryInput → Action ExecuteRecoveryResult
  execute_ceremony input = do
    performed ← lift (parse_envelope s.host.is_datetime input.recovery_performed_event)
    rotated ← lift (parse_envelope s.host.is_datetime input.key_rotated_event)
    done ← transaction (execute_statements input performed rotated)
    ceremony ← after_commit (read_ceremony s done.target.ceremony.id)
    pure (record {
      ceremony = ceremony;
      new_key_version = done.target.old_key_version + 1;
      rewrapped_key_package_ids = done.rewrapped_ids;
      acknowledgements = done.acks;
    })
