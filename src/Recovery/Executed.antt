-- ===== src/Recovery/Executed.antt =====
-- What an execution by server/src/recovery/service.ts that returns has done.
use vorcaro_ledger.Prelude.{
  ◌+◌, Bool, some, Text, text_eq_iff, All, Has, update_where-All, subst, inl, ◌≡◌, refl, sym, ap,
  ◌∙◌, arith,
}
use vorcaro_ledger.Protocol.Result.{ok}
use vorcaro_ledger.Protocol.Envelope.{ClientEventEnvelope}
use vorcaro_ledger.Protocol.Schema.{parse_envelope}
use vorcaro_ledger.Database.Tables.{
  Db, ExecutiveRow, ExecutiveKeyRow, CeremonyRow, CeremonyStatus, ExecutiveStatus,
}
use vorcaro_ledger.Database.Returns.{
  Returns, bind-Returns, read-Returns, pure-Returns, transaction-Returns, after_commit-Returns,
}
use vorcaro_ledger.Database.Select.{max_sequence}
use vorcaro_ledger.Recovery.Ceremony.{RecoveryService}
use vorcaro_ledger.Recovery.Checks.{ExecuteRecoveryInput, Target}
use vorcaro_ledger.Recovery.Authority.{Cleared, check_execution-Cleared}
use vorcaro_ledger.Recovery.Execution.{ExecuteRecoveryResult, execute_ceremony}
use vorcaro_ledger.Recovery.Rotated.{new_key, Rotated, execute_statements-Rotated}

module _ (s : RecoveryService) where
  parsed :
      (is_datetime : Text → Bool) (e f : ClientEventEnvelope)
      → parse_envelope is_datetime e ≡ ok f
      → f ≡ e
  unfolding parse_envelope
  parsed is_datetime e f h = ground (arith, h)

  -- What an execution that returns has done.
  pub record IsExecuted (input : ExecuteRecoveryInput) (db : Db) (result : ExecuteRecoveryResult)
      (db' : Db) : Type 0 where
    pub target : Target
    pub cleared : Cleared s input input.recovery_performed_event input.key_rotated_event db target
    pub version : result.new_key_version ≡ target.old_key_version + 1
    pub over :
        All
          (λ (c : CeremonyRow). c.id ≡ target.ceremony.id → c.status ≡ CeremonyStatus.executed)
          db'.recovery_ceremonies
    pub replaced :
        All
          (λ (e : ExecutiveRow).
            e.id ≡ target.ceremony.executive_id
            → (e.signing_public_key ≡ target.ceremony.new_public_key)
              × (e.key_version ≡ target.old_key_version + 1)
              × (e.status ≡ ExecutiveStatus.active))
          db'.executives
    pub added :
        Has
          (λ (k : ExecutiveKeyRow). k ≡ new_key target (max_sequence db.ledger_events))
          db'.executive_keys
    pub closed :
        All
          (λ (k : ExecutiveKeyRow).
            k.executive_id ≡ target.ceremony.executive_id
            → k.key_version ≡ target.old_key_version
            → k.valid_until_sequence ≡ some (max_sequence db.ledger_events))
          db'.executive_keys

  summed_up :
      (input : ExecuteRecoveryInput) (db : Db) (result : ExecuteRecoveryResult) (db' : Db)
      (target : Target)
      → Cleared s input input.recovery_performed_event input.key_rotated_event db target
      → result.new_key_version ≡ target.old_key_version + 1
      → Rotated s target (max_sequence db.ledger_events) db db'
      → IsExecuted input db result db'
  summed_up input db result db' target cleared version rotated = record {
    target = target;
    cleared = cleared;
    version = version;
    over = rw rotated.ceremonies_eq (
        update_where-All _ _ _ (λ c here same. refl)
          (λ c there same. absurd (let here = (text_eq_iff c.id target.ceremony.id).1 same in cc))
          db.recovery_ceremonies);
    replaced = rw rotated.executives_eq (
        update_where-All _ _ _ (λ e here same. (refl, refl, refl))
          (λ e there same.
            absurd (let here = (text_eq_iff e.id target.ceremony.executive_id).1 same in cc))
          db.executives);
    added = rw rotated.keys_eq (inl refl);
    closed = rw rotated.keys_eq (
      (λ same version. absurd (omega (arith, version))),
      update_where-All _ _ _ (λ k here same version. refl)
          (λ k there same version. absurd (
            let here = (text_eq_iff k.executive_id target.ceremony.executive_id).1 same in
            ground (arith, there, here, version)))
          db.executive_keys,
    );
  }

  -- An execution that returns rests on a ceremony that has reached its threshold, on an executor who
  -- is active and sends from their own enrolled device, and on two events of their kinds with correct
  -- payload hashes: they name the ceremony and the executive's next key, carry signatures that a key
  -- of the executor verifies, and have counters above the device's watermark, the second the next
  -- after the first. It has marked the ceremony executed, made the executive active with the new
  -- public key under the next version, added that key from the last sequence number on, and ended
  -- the old one there.
  pub execute_ceremony-IsExecuted :
      (input : ExecuteRecoveryInput) (db : Db) (result : ExecuteRecoveryResult) (db' : Db)
      → Returns (execute_ceremony s input) db result db'
      → IsExecuted input db result db'
  unfolding execute_ceremony
  execute_ceremony-IsExecuted input db result db' h =
      let (performed, parsed1, h1) = read-Returns _ _ h in
      let (rotated, parsed2, h2) = read-Returns _ _ h1 in
      let (done, txn, h3) = bind-Returns _ _ _ _ _ h2 in
      let (ceremony, read, h4) = after_commit-Returns _ _ h3 in
      let (value, state) = pure-Returns h4 in
      let (target, checked, same, tables) =
        execute_statements-Rotated s input performed rotated db done _
          (transaction-Returns (record { value = txn; state = refl })) in
      let first = parsed s.host.is_datetime input.recovery_performed_event performed parsed1 in
      let second = parsed s.host.is_datetime input.key_rotated_event rotated parsed2 in
      summed_up input db result db' target
        (subst (λ e. Cleared s input e input.key_rotated_event db target) first
          (subst (λ e. Cleared s input performed e db target) second
            (check_execution-Cleared s input performed rotated db target checked)))
        (sym (ap (λ (r : ExecuteRecoveryResult). r.new_key_version) value)
          ∙ ap (λ (t : Target). t.old_key_version + 1) same)
        (subst (Rotated s target (max_sequence db.ledger_events) db) state tables)
