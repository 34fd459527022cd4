-- ===== src/Recovery/Rotated.antt =====
-- What the transaction of `executeCeremony` in server/src/recovery/service.ts leaves in the tables of
-- the ceremonies, the executives and their keys.
use vorcaro_ledger.Prelude.{
  ℕ, ◌+◌, ◌==◌, ◌&&◌, some, none, List, [], ◌∷◌, Text, text_eq, update_where, ◌≡◌, refl, sym, ap,
  ◌∙◌, arith,
}
use vorcaro_ledger.Protocol.Result.{Result, ok}
use vorcaro_ledger.Protocol.Envelope.{ClientEventEnvelope}
use vorcaro_ledger.Database.Tables.{
  Db, ExecutiveRow, ExecutiveKeyRow, CeremonyRow, CeremonyStatus, ExecutiveStatus, KeyPackageRow,
  LedgerEventRow,
}
use vorcaro_ledger.Database.Action.{attempt}
use vorcaro_ledger.Database.Insert.{insert_event, accept_head, set_watermark}
use vorcaro_ledger.Database.Keeps.{
  Keeps, Keeps-pure, Keeps-lift, Keeps-gets, Keeps-modify, Keeps-attempt, Keeps-bind,
}
use vorcaro_ledger.Database.Returns.{
  Returns, bind-Returns, read-Returns, gets-Returns, modify-Returns, attempt-Returns, pure-Returns,
}
use vorcaro_ledger.Database.Select.{max_sequence}
use vorcaro_ledger.Ledger.Append.{insert_ledger_event}
use vorcaro_ledger.Audit.{write_audit_log}
use vorcaro_ledger.Recovery.Statements.{
  insert_executive_key, insert_key_package, revoke_key_packages, complete_ceremony,
  close_executive_key, activate_executive,
}
use vorcaro_ledger.Recovery.Ceremony.{RecoveryService, audit}
use vorcaro_ledger.Recovery.Rotation.{
  RewrapInput, rewrap_each, rewrap_key_packages, append_accepted_event,
}
use vorcaro_ledger.Recovery.Checks.{ExecuteRecoveryInput, Target, check_execution}
use vorcaro_ledger.Recovery.Execution.{Executed, rotate_key, finish, execute_statements}

-- The three tables in which an execution changes the executive and the ceremony.
pub record Holds (ceremonies : List CeremonyRow) (executives : List ExecutiveRow)
    (keys : List ExecutiveKeyRow) (db : Db) : Type 0 where
  pub ceremonies_eq : db.recovery_ceremonies ≡ ceremonies
  pub executives_eq : db.executives ≡ executives
  pub keys_eq : db.executive_keys ≡ keys

-- Another database with the same three tables.
record Same (db db' : Db) : Type 0 where
  ceremonies_same : db'.recovery_ceremonies ≡ db.recovery_ceremonies
  executives_same : db'.executives ≡ db.executives
  keys_same : db'.executive_keys ≡ db.executive_keys

insert_event-Same :
    (new : LedgerEventRow) (db db' : Db) → insert_event new db ≡ ok db' → Same db db'
unfolding insert_event
insert_event-Same new db db' is = record {
  ceremonies_same = ground arith;
  executives_same = ground arith;
  keys_same = ground arith;
}

insert_key_package-Same :
    (new : KeyPackageRow) (db db' : Db) → insert_key_package new db ≡ ok db' → Same db db'
unfolding insert_key_package
insert_key_package-Same new db db' is = record {
  ceremonies_same = ground arith;
  executives_same = ground arith;
  keys_same = ground arith;
}

module _ (s : RecoveryService) (ceremonies : List CeremonyRow) (executives : List ExecutiveRow)
    (keys : List ExecutiveKeyRow) where
  abbrev Kept : Db → Type 0
  Kept = Holds ceremonies executives keys

  moved : (db db' : Db) → Same db db' → Kept db → Kept db'
  moved db db' same h = record {
    ceremonies_eq = same.ceremonies_same ∙ h.ceremonies_eq;
    executives_eq = same.executives_same ∙ h.executives_eq;
    keys_eq = same.keys_same ∙ h.keys_eq;
  }

  statement-Kept :
      (f : Db → Result Db) → ((db db' : Db) → f db ≡ ok db' → Same db db') → Keeps Kept (attempt f)
  statement-Kept f same = Keeps-attempt f (λ db db' is. moved db db' (same db db' is))

  append_accepted_event-Kept :
      (event : ClientEventEnvelope) → Keeps Kept (append_accepted_event s event)
  unfolding append_accepted_event insert_ledger_event accept_head set_watermark
  append_accepted_event-Kept event = Keeps-bind (Keeps-gets _) (λ existing.
      Keeps-bind (Keeps-lift _) (λ _. Keeps-bind (Keeps-gets _) (λ sequence.
        Keeps-bind (Keeps-gets _) (λ previous. Keeps-bind (Keeps-lift _) (λ signature.
          Keeps-bind
            (Keeps-bind (Keeps-lift _)
              (λ _. Keeps-bind (Keeps-lift _) (λ _. statement-Kept _ (insert_event-Same _))))
            (λ _.
              Keeps-bind
                (Keeps-modify _ (λ db.
                  moved db _
                    (record { ceremonies_same = refl; executives_same = refl; keys_same = refl })))
                (λ _. Keeps-bind (Keeps-lift _) (λ counter.
                  Keeps-bind
                    (Keeps-modify _ (λ db. moved db _ (record {
                      ceremonies_same = refl;
                      executives_same = refl;
                      keys_same = refl;
                    })))
                    (λ _. Keeps-pure _)))))))))

  rewrap_each-Kept :
      (input : RewrapInput) (ks : List KeyPackageRow) → Keeps Kept (rewrap_each s input ks)
  unfolding rewrap_each
  rewrap_each-Kept input [] = Keeps-pure []
  rewrap_each-Kept input (k ∷ ks) = Keeps-bind (Keeps-lift _) (λ wrapped.
      Keeps-bind (statement-Kept _ (insert_key_package-Same _))
        (λ _. Keeps-bind (rewrap_each-Kept input ks) (λ ids. Keeps-pure _)))

  rewrap_key_packages-Kept : (input : RewrapInput) → Keeps Kept (rewrap_key_packages s input)
  unfolding rewrap_key_packages revoke_key_packages
  rewrap_key_packages-Kept input = Keeps-bind (Keeps-gets _) (λ packages.
      Keeps-bind (rewrap_each-Kept input packages) (λ ids.
        Keeps-bind
          (Keeps-modify _ (λ db.
            moved db _
              (record { ceremonies_same = refl; executives_same = refl; keys_same = refl })))
          (λ _. Keeps-pure ids)))

abbrev pub new_key : Target → ℕ → ExecutiveKeyRow
new_key target head_sequence = record {
  executive_id = target.ceremony.executive_id;
  key_version = target.old_key_version + 1;
  signing_public_key = target.ceremony.new_public_key;
  valid_from_sequence = head_sequence;
  valid_until_sequence = none;
}

abbrev pub rotated_keys : Target → ℕ → List ExecutiveKeyRow → List ExecutiveKeyRow
rotated_keys target n keys =
    new_key target n
    ∷ update_where
        (λ k.
          text_eq k.executive_id target.ceremony.executive_id
          && k.key_version == target.old_key_version)
        (λ k. record k { valid_until_sequence = some n }) keys

abbrev pub activated : Target → List ExecutiveRow → List ExecutiveRow
activated target =
    update_where (λ e. text_eq e.id target.ceremony.executive_id)
      (λ e. record e {
        signing_public_key = target.ceremony.new_public_key;
        key_version = target.old_key_version + 1;
        status = ExecutiveStatus.active;
      })

abbrev pub ended : Text → Target → List CeremonyRow → List CeremonyRow
ended now target =
    update_where (λ c. text_eq c.id target.ceremony.id)
      (λ c. record c { status = CeremonyStatus.executed; completed_at = some now })

module _ (s : RecoveryService) where
  inserted_key :
      (new : ExecutiveKeyRow) (db db' : Db)
      → insert_executive_key new db ≡ ok db'
      → Holds db.recovery_ceremonies db.executives (new ∷ db.executive_keys) db'
  unfolding insert_executive_key
  inserted_key new db db' is = record {
    ceremonies_eq = ground arith;
    executives_eq = ground arith;
    keys_eq = ground arith;
  }

  rotate_key-Holds :
      (target : Target) (n : ℕ) (u : Unit {0}) (ceremonies : List CeremonyRow)
      (executives : List ExecutiveRow) (keys : List ExecutiveKeyRow) (db db' : Db)
      → Returns (rotate_key s target n) db u db'
      → Holds ceremonies executives keys db
      → Holds ceremonies (activated target executives) (rotated_keys target n keys) db'
  unfolding rotate_key activate_executive close_executive_key
  rotate_key-Holds target n u ceremonies executives keys db db' h holds =
      let h1 = modify-Returns _ _ h in
      let (db1, is, h2) = attempt-Returns (insert_executive_key (new_key target n)) _ h1 in
      let inserted = inserted_key (new_key target n) _ db1 is in
      record {
        ceremonies_eq =
            sym (ap (λ (d : Db). d.recovery_ceremonies) h2.state)
            ∙ inserted.ceremonies_eq
            ∙ holds.ceremonies_eq;
        executives_eq =
            sym (ap (λ (d : Db). d.executives) h2.state)
            ∙ ap (activated target) (inserted.executives_eq ∙ holds.executives_eq);
        keys_eq =
            sym (ap (λ (d : Db). d.executive_keys) h2.state)
            ∙ inserted.keys_eq
            ∙ ap (rotated_keys target n) holds.keys_eq;
      }

  -- The three tables after a rotation that started with these, and the ceremony's end.
  abbrev pub Rotated : Target → ℕ → Db → Db → Type 0
  Rotated target n db =
      Holds (ended s.now target db.recovery_ceremonies) (activated target db.executives)
        (rotated_keys target n db.executive_keys)

  finished :
      (input : ExecuteRecoveryInput) (target : Target) (ids : List Text)
      (ceremonies : List CeremonyRow) (executives : List ExecutiveRow) (keys : List ExecutiveKeyRow)
      (db : Db)
      → Holds ceremonies executives keys db
      → Holds (ended s.now target ceremonies) executives keys (finish s input target ids db)
  unfolding finish audit write_audit_log complete_ceremony
  finished input target ids ceremonies executives keys db h = record {
    ceremonies_eq = ap (ended s.now target) h.ceremonies_eq;
    executives_eq = h.executives_eq;
    keys_eq = h.keys_eq;
  }

  pub execute_statements-Rotated :
      (input : ExecuteRecoveryInput) (performed rotated : ClientEventEnvelope) (db : Db)
      (done : Executed) (db' : Db)
      → Returns (execute_statements s input performed rotated) db done db'
      → (target : Target) × (check_execution s input performed rotated db ≡ ok target)
        × (done.target ≡ target)
        × Rotated target (max_sequence db.ledger_events) db db'
  unfolding execute_statements
  execute_statements-Rotated input performed rotated db done db' h =
      let (target, checked, h1) = read-Returns _ _ h in
      let h2 = gets-Returns _ _ h1 in
      let n = max_sequence db.ledger_events in
      let (ids, rewrapped, h3) = bind-Returns _ _ _ _ _ h2 in
      let (u, turned, h4) = bind-Returns _ _ _ _ _ h3 in
      let (first, one, h5) = bind-Returns _ _ _ _ _ h4 in
      let (second, two, h6) = bind-Returns _ _ _ _ _ h5 in
      let (value, state) = pure-Returns (modify-Returns _ _ h6) in
      let before = db.recovery_ceremonies in
      let ks = db.executive_keys in
      let start : Holds before db.executives ks db = record {
        ceremonies_eq = refl;
        executives_eq = refl;
        keys_eq = refl;
      } in
      let wrapped = (rewrap_key_packages-Kept s before db.executives ks _).at db start in
      let turned_holds =
        rotate_key-Holds target n u before db.executives ks _ _
          (record { value = turned; state = refl }) wrapped in
      let es = activated target db.executives in
      let new = rotated_keys target n ks in
      let once = (append_accepted_event-Kept s before es new performed).at _ turned_holds in
      let twice = (append_accepted_event-Kept s before es new rotated).at _ once in
      (
        target,
        checked,
        sym (ap (λ (d : Executed). d.target) value),
        rw (← state) (finished input target ids before es new _ twice),
      )
