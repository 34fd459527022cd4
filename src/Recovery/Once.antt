-- ===== src/Recovery/Once.antt =====
-- A ceremony of server/src/recovery/service.ts is executed once.
use vorcaro_ledger.Prelude.{
  some, Text, text_eq, text_eq_iff, find, find-some, find-All, Option-cases, subst, inl, inr, ◌≡◌,
  sym, ap, ◌∙◌, arith,
}
use vorcaro_ledger.Protocol.Result.{ok}
use vorcaro_ledger.Database.Tables.{Db, CeremonyRow, CeremonyStatus}
use vorcaro_ledger.Database.Returns.{Returns}
use vorcaro_ledger.Recovery.Ceremony.{RecoveryService, get_ceremony}
use vorcaro_ledger.Recovery.Checks.{ExecuteRecoveryInput}
use vorcaro_ledger.Recovery.Execution.{ExecuteRecoveryResult, execute_ceremony}
use vorcaro_ledger.Recovery.Executed.{execute_ceremony-IsExecuted}

found_ceremony :
    (id : Text) (db : Db) (c : CeremonyRow)
    → get_ceremony id db ≡ ok c
    → (find (λ c. text_eq c.id id) db.recovery_ceremonies ≡ some c) × (c.id ≡ id)
unfolding get_ceremony
found_ceremony id db c h =
    elim (Option-cases (find (λ (c : CeremonyRow). text_eq c.id id) db.recovery_ceremonies)) [
      | inl nothing ↦ absurd (ground (arith, h, nothing))
      | inr (x, found) ↦
          let is : x ≡ c = ground (arith, h, found) in
          (
            found ∙ ap some is,
            subst (λ (c : CeremonyRow). c.id ≡ id) is
                ((text_eq_iff x.id id).0 (
                  find-some (λ (c : CeremonyRow). text_eq c.id id) db.recovery_ceremonies x found)),
          )
    ]

module _ (s : RecoveryService) (input : ExecuteRecoveryInput) (db : Db)
    (result : ExecuteRecoveryResult) (db' : Db) where
  -- After an execution that returned, no execution of its ceremony returns, whoever asks for it.
  pub execute_ceremony_once :
      Returns (execute_ceremony s input) db result db'
      → (s' : RecoveryService) (input' : ExecuteRecoveryInput) (result' : ExecuteRecoveryResult)
        (db'' : Db)
      → input'.ceremony_id ≡ input.ceremony_id
      → ¬ Returns (execute_ceremony s' input') db' result' db''
  execute_ceremony_once done s' input' result' db'' same again =
      let first = execute_ceremony-IsExecuted s input db result db' done in
      let second = execute_ceremony-IsExecuted s' input' db' result' db'' again in
      let (old, old_id) =
        found_ceremony input.ceremony_id db first.target.ceremony first.cleared.found in
      let (there, its_id) =
        found_ceremony input'.ceremony_id db' second.target.ceremony second.cleared.found in
      let over =
        find-All
          (λ (c : CeremonyRow).
            c.id ≡ first.target.ceremony.id → c.status ≡ CeremonyStatus.executed)
          (λ c. text_eq c.id input'.ceremony_id) db'.recovery_ceremonies second.target.ceremony
          first.over there in
      still_open second.target.ceremony (over (its_id ∙ same ∙ sym old_id)) second.cleared.approved
    where
      still_open :
          (c : CeremonyRow)
          → c.status ≡ CeremonyStatus.executed
          → c.status ≡ CeremonyStatus.threshold_met
          → ⊥
      still_open c over open_still = absurd (cc)
