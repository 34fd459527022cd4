-- ===== src/Examples/Executions.antt =====
-- A ceremony of a small server is executed.
use vorcaro_ledger.Protocol.Spelling.{event_status_text}
use vorcaro_ledger.Protocol.Spelling.{error_code_text}
use vorcaro_ledger.Protocol.Spelling.{audit_category_text}
use vorcaro_ledger.Protocol.Pattern.{zero_fraction}
use vorcaro_ledger.Protocol.Pattern.{strip_prefix}
use vorcaro_ledger.Protocol.Pattern.{skip_digits}
use vorcaro_ledger.Protocol.Pattern.{is_zero_rate}
use vorcaro_ledger.Protocol.Pattern.{is_rate_shape}
use vorcaro_ledger.Protocol.Pattern.{is_exchange_rate}
use vorcaro_ledger.Protocol.Pattern.{is_digits}
use vorcaro_ledger.Protocol.Pattern.{is_currency_code}
use vorcaro_ledger.Protocol.Pattern.{fraction_part}
use vorcaro_ledger.Protocol.Pattern.{all_units}
use vorcaro_ledger.Protocol.Crypto.{unsigned_ack_json}
use vorcaro_ledger.Protocol.Crypto.{sign_bytes}
use vorcaro_ledger.Prelude.{update_where}
use vorcaro_ledger.Prelude.{any}
use vorcaro_ledger.Ledger.Rows.{stringify_policy_metadata}
use vorcaro_ledger.Ledger.Rows.{row_of}
use vorcaro_ledger.Ledger.Append.{insert_ledger_event}
use vorcaro_ledger.Database.Insert.{upsert}
use vorcaro_ledger.Database.Insert.{insert_event}
use vorcaro_ledger.Database.Insert.{event_constraints}
use vorcaro_ledger.Database.Insert.{accept_head}
use vorcaro_ledger.Audit.{write_audit_log}
use vorcaro_ledger.Audit.{previous_audit_hash}
use vorcaro_ledger.Audit.{entry_hash}
use vorcaro_ledger.Audit.{audit_json}
use vorcaro_ledger.Database.Select.{latest_event}
use vorcaro_ledger.Database.Select.{previous_ledger_hash}
use vorcaro_ledger.Database.Select.{max_sequence}
use vorcaro_ledger.Database.Select.{next_server_sequence}
use vorcaro_ledger.Database.Action.{transaction}
use vorcaro_ledger.Protocol.Pattern.{is_base64}
use vorcaro_ledger.Protocol.Pattern.{is_hash}
use vorcaro_ledger.Protocol.Schema.{monetary_fields_complete}
use vorcaro_ledger.Protocol.Schema.{absent_or}
use vorcaro_ledger.Protocol.Schema.{policy_metadata_valid}
use vorcaro_ledger.Protocol.Pattern.{is_nonempty}
use vorcaro_ledger.Protocol.Schema.{envelope_valid}
use vorcaro_ledger.Protocol.Schema.{parse_envelope}
use vorcaro_ledger.Database.Action.{◌>>=◌}
use vorcaro_ledger.Recovery.Checks.{assert_payload_hash}
use vorcaro_ledger.Protocol.Spelling.{object_type_text}
use vorcaro_ledger.Protocol.Spelling.{event_type_text}
use vorcaro_ledger.Protocol.Json.{json_string}
use vorcaro_ledger.Protocol.Decimal.{decimal_ℤ}
use vorcaro_ledger.Protocol.Crypto.{verify_client_event_signature}
use vorcaro_ledger.Protocol.Crypto.{verify_bytes}
use vorcaro_ledger.Protocol.Crypto.{unsigned_client_event}
use vorcaro_ledger.Protocol.Crypto.{sha256_digest}
use vorcaro_ledger.Protocol.Crypto.{payload_hash}
use vorcaro_ledger.Protocol.Crypto.{metadata_json}
use vorcaro_ledger.Protocol.Crypto.{constant_time_equal}
use vorcaro_ledger.Protocol.Crypto.{canonical_event_bytes}
use vorcaro_ledger.Protocol.Crypto.{canonical_bytes}
use vorcaro_ledger.Protocol.Canonical.{optional_field}
use vorcaro_ledger.Protocol.Canonical.{object_text}
use vorcaro_ledger.Protocol.Canonical.{join_comma}
use vorcaro_ledger.Protocol.Canonical.{entry_text}
use vorcaro_ledger.Protocol.Canonical.{canonicalize}
use vorcaro_ledger.Prelude.Sort.{sort}
use vorcaro_ledger.Prelude.Sort.{insert}
use vorcaro_ledger.Prelude.{filter_by}
use vorcaro_ledger.Ledger.Admission.{signature_holds}
use vorcaro_ledger.Database.Select.{to_sql_integer}
use vorcaro_ledger.Database.Select.{max_by}
use vorcaro_ledger.Database.Select.{later}
use vorcaro_ledger.Database.Select.{key_covers}
use vorcaro_ledger.Database.Select.{find_executive_key}
use vorcaro_ledger.Recovery.Checks.{assert_event_signature}
use vorcaro_ledger.Recovery.Checks.{assert_consecutive_counters}
use vorcaro_ledger.Database.Select.{find_device}
use vorcaro_ledger.Ledger.Rows.{find_device_executive}
use vorcaro_ledger.Recovery.Checks.{assert_device_row}
use vorcaro_ledger.Recovery.Checks.{assert_device_can_execute}
use vorcaro_ledger.Protocol.Decimal.{decimal}
use vorcaro_ledger.Recovery.Checks.{rotated_key_object_id}
use vorcaro_ledger.Database.Select.{find_executive}
use vorcaro_ledger.Recovery.Ceremony.{get_executive, ceremony_valid, approvals_of, approval_valid}
use vorcaro_ledger.Protocol.Types.{ObjectType-discrete}
use vorcaro_ledger.Protocol.Types.{EventType-discrete}
use vorcaro_ledger.Recovery.Checks.{assert_execution_event}
use vorcaro_ledger.Recovery.Checks.{is_threshold_met}
use vorcaro_ledger.Prelude.{text_eq}
use vorcaro_ledger.Prelude.{find}
use vorcaro_ledger.Recovery.Ceremony.{get_ceremony}
use vorcaro_ledger.Recovery.Checks.{check_execution}
use vorcaro_ledger.Recovery.Execution.{execution_detail}
use vorcaro_ledger.Database.Select.{find_existing_event}
use vorcaro_ledger.Database.Insert.{set_watermark}
use vorcaro_ledger.Recovery.Rotation.{packages_to_rewrap}
use vorcaro_ledger.Recovery.Statements.{revoke_key_packages}
use vorcaro_ledger.Recovery.Statements.{is_executive}
use vorcaro_ledger.Database.Action.{after_commit}
use vorcaro_ledger.Recovery.Ceremony.{read_ceremony}
use vorcaro_ledger.Recovery.Rotation.{accepted_ack}
use vorcaro_ledger.Recovery.Statements.{complete_ceremony}
use vorcaro_ledger.Recovery.Statements.{activate_executive}
use vorcaro_ledger.Recovery.Statements.{insert_executive_key}
use vorcaro_ledger.Recovery.Statements.{close_executive_key}
use vorcaro_ledger.Recovery.Ceremony.{audit}
use vorcaro_ledger.Recovery.Execution.{finish}
use vorcaro_ledger.Recovery.Rotation.{append_accepted_event}
use vorcaro_ledger.Recovery.Execution.{rotate_key}
use vorcaro_ledger.Recovery.Rotation.{rewrap_each}
use vorcaro_ledger.Recovery.Rotation.{rewrap_key_packages}
use vorcaro_ledger.Database.Select.{genesis_ledger_hash}
use vorcaro_ledger.Prelude.{Text}
use vorcaro_ledger.Recovery.Execution.{execute_statements}
use vorcaro_ledger.Prelude.{none, some, [], ◌∷◌, ◌≡◌, refl, codes}
use vorcaro_ledger.Protocol.Types.{EventStatus}
use vorcaro_ledger.Protocol.Result.{ok}
use vorcaro_ledger.Protocol.Crypto.{compute_ledger_hash}
use vorcaro_ledger.Database.Tables.{Db, CeremonyStatus}
use vorcaro_ledger.Database.Returns.{Returns}
use vorcaro_ledger.Recovery.Execution.{ExecuteRecoveryResult, execute_ceremony}
use vorcaro_ledger.Recovery.Executed.{IsExecuted, execute_ceremony-IsExecuted}
use vorcaro_ledger.Recovery.Once.{execute_ceremony_once}
use vorcaro_ledger.Examples.Host.{plain_host, key_of_64}
use vorcaro_ledger.Examples.Recoveries.{
  service, ceremony, approval, approved_db, performed, rotated, execution,
}

abbrev first_hash : Text
first_hash = compute_ledger_hash plain_host genesis_ledger_hash 1 performed

abbrev executed_result : ExecuteRecoveryResult
executed_result = record {
  ceremony = record {
    row = record ceremony { status = CeremonyStatus.executed; completed_at = some service.now };
    approvals = approval ∷ [];
  };
  new_key_version = 2;
  rewrapped_key_package_ids = [];
  acknowledgements =
      record {
        unsigned = record {
          event_id = codes "ev1";
          status = EventStatus.accepted;
          server_sequence = some 1;
          resulting_ledger_hash = some first_hash;
          server_timestamp = service.now;
          error_code = none;
        };
        server_signature = key_of_64;
      }
      ∷ record {
        unsigned = record {
          event_id = codes "ev2";
          status = EventStatus.accepted;
          server_sequence = some 2;
          resulting_ledger_hash = some (compute_ledger_hash plain_host first_hash 2 rotated);
          server_timestamp = service.now;
          error_code = none;
        };
        server_signature = key_of_64;
      }
      ∷ [];
}

abbrev executed_db : Db
executed_db = (execute_ceremony service execution approved_db).1

execution_returns : (execute_ceremony service execution approved_db).0 ≡ ok executed_result
unfolding execute_ceremony execute_statements rewrap_key_packages rewrap_each rotate_key
    append_accepted_event finish audit close_executive_key insert_executive_key activate_executive
    complete_ceremony accepted_ack read_ceremony after_commit is_executive revoke_key_packages
    packages_to_rewrap set_watermark find_existing_event execution_detail check_execution
    get_ceremony find text_eq is_threshold_met assert_execution_event EventType-discrete
    ObjectType-discrete get_executive find_executive rotated_key_object_id decimal
    assert_device_can_execute assert_device_row find_device_executive find_device
    assert_consecutive_counters assert_event_signature find_executive_key key_covers later max_by
    to_sql_integer signature_holds filter_by insert sort canonicalize entry_text join_comma
    object_text optional_field canonical_bytes canonical_event_bytes constant_time_equal
    metadata_json payload_hash sha256_digest unsigned_client_event verify_bytes
    verify_client_event_signature decimal_ℤ json_string event_type_text object_type_text
    assert_payload_hash ◌>>=◌ parse_envelope envelope_valid is_nonempty policy_metadata_valid
    absent_or monetary_fields_complete is_hash is_base64 transaction next_server_sequence
    max_sequence compute_ledger_hash previous_ledger_hash latest_event audit_json entry_hash
    previous_audit_hash write_audit_log accept_head event_constraints insert_event upsert
    insert_ledger_event row_of stringify_policy_metadata any update_where sign_bytes
    unsigned_ack_json all_units fraction_part is_currency_code is_digits is_exchange_rate
    is_rate_shape is_zero_rate skip_digits strip_prefix zero_fraction audit_category_text
    error_code_text event_status_text ceremony_valid approvals_of approval_valid
execution_returns = refl

executes : Returns (execute_ceremony service execution) approved_db executed_result executed_db
executes = record { value = execution_returns; state = refl }

execute_ceremony-IsExecuted_example :
    IsExecuted service execution approved_db executed_result executed_db
execute_ceremony-IsExecuted_example =
    execute_ceremony-IsExecuted service execution approved_db executed_result executed_db executes

execute_ceremony_once_example :
    ¬ Returns (execute_ceremony service execution) executed_db executed_result executed_db
execute_ceremony_once_example =
    execute_ceremony_once service execution approved_db executed_result executed_db executes service
      execution executed_result executed_db refl
