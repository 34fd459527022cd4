-- ===== src/Recovery/Chain/Rows.antt =====
-- The rows that server/src/recovery/service.ts writes itself continue the ledger, and its rewrapping
-- of key packages writes none.
use vorcaro_ledger.Prelude.{
  none, [], List, Text, ◌∷◌, ◌≡◌, inl, inr, refl, arith, subst, Bool-cases, is_defined,
}
use vorcaro_ledger.Protocol.Types.{EventStatus}
use vorcaro_ledger.Protocol.Result.{Result, ok, Result-cases}
use vorcaro_ledger.Protocol.Envelope.{ClientEventEnvelope, ServerAck}
use vorcaro_ledger.Protocol.Crypto.{compute_ledger_hash, canonical_bytes, unsigned_ack_json}
use vorcaro_ledger.Database.Tables.{Db, KeyPackageRow}
use vorcaro_ledger.Database.Action.{Action, modify, pure, lift, ◌>>=◌, ◌>>◌}
use vorcaro_ledger.Database.Keeps.{
  Keeps, settled-Keeps, Keeps-pure, Keeps-lift, Keeps-gets, Keeps-modify, Keeps-attempt, Keeps-bind,
}
use vorcaro_ledger.Database.Select.{
  find_existing_event, next_server_sequence, previous_ledger_hash, to_sql_integer,
}
use vorcaro_ledger.Database.Insert.{accept_head, set_watermark}
use vorcaro_ledger.Ledger.Rows.{InsertInput}
use vorcaro_ledger.Ledger.Append.{insert_ledger_event}
use vorcaro_ledger.Ledger.Chain.{IsChain}
use vorcaro_ledger.Ledger.Chain.Insertion.{insert_ledger_event-IsChain}
use vorcaro_ledger.Recovery.Statements.{insert_key_package, revoke_key_packages}
use vorcaro_ledger.Recovery.Ceremony.{RecoveryService}
use vorcaro_ledger.Recovery.Rotation.{
  RewrapInput, rewrap_each, rewrap_key_packages, rewrapped, accepted_ack, append_accepted_event,
}

module _ (s : RecoveryService) where
  -- The chain of the database's ledger.
  abbrev pub Chained : Db → Type 0
  Chained db = IsChain s.host db.ledger_events

  -- The row that continues the ledger.
  abbrev next_input : ClientEventEnvelope → Text → Db → InsertInput
  next_input event signature db = record {
    event = event;
    server_sequence = next_server_sequence db;
    previous_ledger_hash = previous_ledger_hash db;
    resulting_ledger_hash =
        compute_ledger_hash s.host (previous_ledger_hash db) (next_server_sequence db) event;
    server_signature = signature;
    status = EventStatus.accepted;
    error_code = none;
    server_timestamp = s.now;
  }

  insert_next-IsChain :
      (event : ClientEventEnvelope) (signature : Text) (db : Db)
      → Chained db
      → Chained (insert_ledger_event s.host (next_input event signature db) db).1
  insert_next-IsChain event signature db =
      insert_ledger_event-IsChain s.host (next_input event signature db) db
        (record { sequence = refl; previous_eq = refl; resulting_eq = refl })

  abbrev signed_next : ClientEventEnvelope → Db → Result Text
  signed_next event db = s.kms.sign_with_key s.server_signing_key_handle (
      canonical_bytes s.host (
        unsigned_ack_json (
          accepted_ack s event (next_server_sequence db) (
            compute_ledger_hash s.host (previous_ledger_hash db) (next_server_sequence db) event))))

  -- The statements behind the INSERT.
  abbrev record_acceptance : ClientEventEnvelope → Text → Db → Unit {0} → Action ServerAck
  record_acceptance event signature db _ = do
    modify (accept_head event.object_type event.object_id (next_server_sequence db))
    counter ← lift (to_sql_integer event.device_event_counter)
    modify (set_watermark event.device_id counter s.now)
    pure (record {
      unsigned =
          accepted_ack s event (next_server_sequence db)
            (compute_ledger_hash s.host (previous_ledger_hash db) (next_server_sequence db) event);
      server_signature = signature;
    })

  record_acceptance-Keeps :
      (event : ClientEventEnvelope) (signature : Text) (db : Db)
      → Keeps Chained (record_acceptance event signature db tt)
  unfolding accept_head set_watermark
  record_acceptance-Keeps event signature db = Keeps-bind (Keeps-modify _ (λ db chain. chain)) (λ _.
      Keeps-bind (Keeps-lift _)
        (λ counter. Keeps-bind (Keeps-modify _ (λ db chain. chain)) (λ _. Keeps-pure _)))

  pub append_accepted_event-IsChain :
      (event : ClientEventEnvelope) (db : Db)
      → Chained db
      → Chained (append_accepted_event s event db).1
  unfolding append_accepted_event ◌>>=◌
  append_accepted_event-IsChain event db chain =
      elim (Bool-cases (is_defined (find_existing_event event.event_id db))) [
        | inl seen ↦ rw seen chain
        | inr new ↦ rw new (elim (Result-cases (signed_next event db)) [
          | inr (e, threw) ↦ rw threw chain
          | inl (signature, signed) ↦ rw signed (
              settled-Keeps Chained (record_acceptance event signature db)
                (insert_ledger_event s.host (next_input event signature db) db) db
                (insert_next-IsChain event signature db chain)
                (λ _.
                  (record_acceptance-Keeps event signature db).at
                    (insert_ledger_event s.host (next_input event signature db) db).1
                    (insert_next-IsChain event signature db chain)))
        ])
      ]

  inserted_package :
      (new : KeyPackageRow) (db db' : Db)
      → insert_key_package new db ≡ ok db'
      → Chained db
      → Chained db'
  unfolding insert_key_package
  inserted_package new db db' is chain =
      subst (IsChain s.host) {x = db.ledger_events} (ground arith) chain

  rewrap_each-Keeps :
      (input : RewrapInput) (ks : List KeyPackageRow) → Keeps Chained (rewrap_each s input ks)
  unfolding rewrap_each
  rewrap_each-Keeps input [] = Keeps-pure []
  rewrap_each-Keeps input (k ∷ ks) = Keeps-bind (Keeps-lift _) (λ wrapped.
      Keeps-bind (Keeps-attempt _ (inserted_package (rewrapped s input k wrapped)))
        (λ _. Keeps-bind (rewrap_each-Keeps input ks) (λ ids. Keeps-pure _)))

  pub rewrap_key_packages-Keeps :
      (input : RewrapInput) → Keeps Chained (rewrap_key_packages s input)
  unfolding rewrap_key_packages revoke_key_packages
  rewrap_key_packages-Keeps input = Keeps-bind (Keeps-gets _) (λ packages.
      Keeps-bind (rewrap_each-Keeps input packages)
        (λ ids. Keeps-bind (Keeps-modify _ (λ db chain. chain)) (λ _. Keeps-pure ids)))
