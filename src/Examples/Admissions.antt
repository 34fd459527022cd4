-- ===== src/Examples/Admissions.antt =====
-- The theorems on `append_now` at requests of the sample server.
use vorcaro_ledger.Ledger.Rows.{stringify_policy_metadata}
use vorcaro_ledger.Policy.Stored.{read_optional}
use vorcaro_ledger.Ledger.Admission.{evaluate_found}
use vorcaro_ledger.Prelude.{
  List, ◌<◌, Text, [], false, refl, arith, ◌≡◌, ◌∷◌, some, none, true, codes, text_eq,
}
use vorcaro_ledger.Prelude.{update_where, is_defined}
use vorcaro_ledger.Prelude.{find, filter_by, any}
use vorcaro_ledger.Prelude.Sort.{sort, insert}
use vorcaro_ledger.Protocol.Canonical.{canonicalize}
use vorcaro_ledger.Protocol.Types.{EventStatus, ObjectType, ErrorCode}
use vorcaro_ledger.Protocol.Result.{ok, err, zod_error}
use vorcaro_ledger.Protocol.Envelope.{ServerAck}
use vorcaro_ledger.Database.Tables.{Db, ObjectHeadRow}
use vorcaro_ledger.Protocol.Json.{json_string}
use vorcaro_ledger.Protocol.Crypto.{
  metadata_json, unsigned_client_event, canonical_bytes, sign_bytes, verify_bytes, sha256_digest,
  payload_hash, constant_time_equal, canonical_event_bytes, verify_client_event_signature,
  compute_ledger_hash, sign_server_ack,
}
use vorcaro_ledger.Protocol.Schema.{
  absent_or, monetary_fields_complete, policy_metadata_valid, envelope_valid, parse_envelope,
  unsigned_ack_valid, parse_unsigned_ack, parse_server_ack,
}
use vorcaro_ledger.Protocol.Canonical.{join_comma, entry_text, optional_field}
use vorcaro_ledger.Protocol.Decimal.{decimal_ℤ}
use vorcaro_ledger.Protocol.Types.{EventType-discrete}
use vorcaro_ledger.Protocol.Pattern.{is_hash, is_base64, is_nonempty}
use vorcaro_ledger.Protocol.Spelling.{event_type_text, object_type_text}
use vorcaro_ledger.Database.Select.{
  to_sql_integer, later, max_by, find_existing_event, find_device, find_executive, key_covers,
  find_executive_key, find_object_head, find_open_conflict, max_sequence, next_server_sequence,
  latest_event, previous_ledger_hash,
}
use vorcaro_ledger.Database.Action.{◌>>=◌, transaction}
use vorcaro_ledger.Database.Insert.{
  event_constraints, insert_event, set_watermark, upsert, accept_head,
}
use vorcaro_ledger.Ledger.Append.{
  appended_ack, insert_ledger_event, append_statements, append_validated_event,
  sign_non_appended_ack,
}
use vorcaro_ledger.Ledger.Conflicts.{update_object_head, update_conflict_state}
use vorcaro_ledger.Ledger.Queue.{run_queue, append_batch}
use vorcaro_ledger.Ledger.Rows.{row_of, find_device_executive, read_active_policy}
use vorcaro_ledger.Ledger.Admission.{
  AppendEventRequest, evaluate_active_policy, signature_holds, is_conflicted, is_stale,
  admit_change, admit_object, admit_decision, admit_signed, admit_device, admit_found, admit_new,
  append_now,
}
use vorcaro_ledger.Ledger.Rows.{InsertInput, DeviceExecutiveRow}
use vorcaro_ledger.Database.Select.{genesis_ledger_hash}
use vorcaro_ledger.Ledger.Agreement.{Agrees}
use vorcaro_ledger.Ledger.Agreement.Appends.{append_now-Agrees}
use vorcaro_ledger.Ledger.Chain.{IsChain, append_now-IsChain}
use vorcaro_ledger.Ledger.Idempotence.{append_now-throws, append_now-again}
use vorcaro_ledger.Ledger.Authority.{Grounds, append_now-Grounds}
use vorcaro_ledger.Ledger.Watermark.{stamped, append_now-watermark, Replays, append_now-replay}
use vorcaro_ledger.Ledger.Queue.Invariants.{IsSound, run_queue-IsSound}
use vorcaro_ledger.Ledger.Queue.Order.{DeviceOrdered, Ran, append_batch-Ran}
use mathlib.Core.List.{Perm}
use mathlib.Core.Option
use vorcaro_ledger.Examples.Host.{plain_host, morning, evening, plain-IsCollation, key_of_64}
use vorcaro_ledger.Examples.Samples.{
  fresh_db, chief, laptop, event_of, request_of, first_request, late_request, replayed_request,
}

abbrev first_hash : Text
first_hash = codes "sha256:0000000000000000000000000000000000000000000000000000000000000005"

abbrev pub first_ack : ServerAck
first_ack = record {
  unsigned = record {
    event_id = codes "ev1";
    status = EventStatus.accepted;
    server_sequence = some 1;
    resulting_ledger_hash = some first_hash;
    server_timestamp = morning.now;
    error_code = none;
  };
  server_signature = key_of_64;
}

abbrev first_input : InsertInput
first_input = record {
  event = first_request.event;
  server_sequence = 1;
  previous_ledger_hash = genesis_ledger_hash;
  resulting_ledger_hash = first_hash;
  server_signature = key_of_64;
  status = EventStatus.accepted;
  error_code = none;
  server_timestamp = morning.now;
}

abbrev first_head : ObjectHeadRow
first_head = record {
  object_type = ObjectType.account;
  object_id = codes "a1";
  head_sequence = 1;
  conflicted = false;
}

abbrev pub first_db : Db
first_db = record fresh_db {
  devices = record laptop { max_event_counter = 1; last_seen_at = some morning.now } ∷ [];
  ledger_events = row_of plain_host first_input ∷ [];
  object_heads = first_head ∷ [];
}

pub first_runs : append_now morning first_request fresh_db ≡ (ok first_ack, first_db)
unfolding ◌>>=◌ set_watermark update_where upsert accept_head update_object_head json_string
    metadata_json unsigned_client_event canonical_bytes sign_bytes verify_bytes sha256_digest
    payload_hash constant_time_equal canonical_event_bytes verify_client_event_signature
    compute_ledger_hash sign_server_ack absent_or monetary_fields_complete policy_metadata_valid
    envelope_valid parse_envelope unsigned_ack_valid parse_unsigned_ack parse_server_ack join_comma
    entry_text optional_field decimal_ℤ EventType-discrete is_hash is_base64 is_nonempty
    event_type_text object_type_text to_sql_integer later max_by find_existing_event find_device
    find_executive key_covers find_executive_key find_object_head max_sequence next_server_sequence
    latest_event previous_ledger_hash transaction event_constraints insert_event appended_ack
    insert_ledger_event append_statements append_validated_event evaluate_active_policy
    signature_holds is_conflicted is_stale admit_change admit_object admit_decision admit_signed
    admit_device admit_found admit_new append_now update_conflict_state row_of find_device_executive
    read_active_policy text_eq find filter_by canonicalize sort insert any read_optional
    evaluate_found stringify_policy_metadata
first_runs = refl

fresh-Agrees : Agrees fresh_db
unfolding find_object_head find_open_conflict is_conflicted is_defined find
fresh-Agrees = record { marked = λ object_type object_id. refl; no_clash = tt }

nothing_known : find_existing_event first_request.event.event_id fresh_db ≡ none
unfolding find_existing_event find
nothing_known = refl

append_now-IsChain_example :
    IsChain plain_host (append_now morning first_request fresh_db).1.ledger_events
append_now-IsChain_example = append_now-IsChain morning first_request fresh_db tt

append_now-Agrees_example : Agrees (append_now morning first_request fresh_db).1
append_now-Agrees_example = append_now-Agrees morning first_request fresh_db fresh-Agrees

-- An event without an id is thrown out by the schema.
nameless_throws :
    append_now morning (request_of (event_of [] 0 1)) fresh_db ≡ (err zod_error, fresh_db)
unfolding ◌>>=◌ append_now parse_envelope envelope_valid is_nonempty
nameless_throws = refl

append_now-throws_example : fresh_db ≡ fresh_db
append_now-throws_example =
    append_now-throws morning (request_of (event_of [] 0 1)) fresh_db zod_error fresh_db
      nameless_throws

late_valid : envelope_valid evening.host.is_datetime first_request.event ≡ true
unfolding envelope_valid is_nonempty policy_metadata_valid absent_or monetary_fields_complete
    is_hash is_base64
late_valid = refl

append_now-again_example : append_now evening first_request first_db ≡ (ok first_ack, first_db)
append_now-again_example =
    append_now-again morning first_request fresh_db 1 first_ack first_db first_runs refl evening
      first_request refl late_valid

append_now-Grounds_example : Grounds morning first_request fresh_db EventStatus.accepted
append_now-Grounds_example =
    append_now-Grounds morning first_request fresh_db first_ack first_db first_runs nothing_known

append_now-watermark_example :
    find_device (codes "d1") first_db
    ≡ Option.map (stamped (codes "d1") 1 morning.now) (find_device (codes "d1") fresh_db)
append_now-watermark_example =
    append_now-watermark morning first_request fresh_db first_ack first_db 1 first_runs
      nothing_known refl (codes "d1")

abbrev laptop_before : DeviceExecutiveRow
laptop_before = record {
  device_status = laptop.status;
  certificate_fingerprint = codes "fp";
  executive_id = codes "e1";
  executive_status = chief.status;
  executive_role = chief.role;
  max_event_counter = 0;
  risk_score = 0;
}

laptop_found : find_device_executive (codes "d1") fresh_db ≡ some laptop_before
unfolding find_device_executive find_device find_executive find text_eq
laptop_found = refl

replay_valid : envelope_valid evening.host.is_datetime replayed_request.event ≡ true
unfolding envelope_valid is_nonempty policy_metadata_valid absent_or monetary_fields_complete
    is_hash is_base64
replay_valid = refl

replay_new : find_existing_event (codes "ev3") first_db ≡ none
unfolding find_existing_event find text_eq row_of
replay_new = refl

replays : Replays morning first_request fresh_db first_db evening replayed_request
replays = record {
  valid = replay_valid;
  new = replay_new;
  same_device = refl;
  same_actor = refl;
  same_certificate = refl;
  not_higher = ground arith;
}

append_now-replay_example :
    (0 < 1)
    × (append_now evening replayed_request first_db
        ≡ (sign_non_appended_ack evening (codes "ev3") ErrorCode.replay_counter, first_db))
append_now-replay_example =
    append_now-replay morning first_request fresh_db first_ack first_db first_runs nothing_known
      (λ e. absurd (cc)) laptop_before laptop_found evening replayed_request replays

run_queue-IsSound_example :
    IsSound morning []
      (run_queue morning
        (λ i. morning.now)
        0
        (first_request ∷ late_request ∷ replayed_request ∷ [])
        fresh_db).1
run_queue-IsSound_example =
    run_queue-IsSound morning (λ i. morning.now)
      (first_request ∷ late_request ∷ replayed_request ∷ []) fresh_db tt fresh-Agrees

append_batch-Ran_example :
    (order : List AppendEventRequest) × Perm order (late_request ∷ first_request ∷ [])
    × DeviceOrdered order
    × Ran morning
        (λ i. morning.now)
        0
        order
        fresh_db
        (append_batch morning (λ i. morning.now) (late_request ∷ first_request ∷ []) fresh_db)
append_batch-Ran_example =
    append_batch-Ran morning (λ i. morning.now) plain-IsCollation
      (late_request ∷ first_request ∷ []) fresh_db
