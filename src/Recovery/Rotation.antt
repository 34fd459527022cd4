-- ===== src/Recovery/Rotation.antt =====
-- `rewrapKeyPackages` and `appendAcceptedEvent` of server/src/recovery/service.ts.
use vorcaro_ledger.Prelude.{
  take, ℕ, Bool, none, some, List, [], ◌∷◌, ◌++◌, Text, Bytes, codes, filter_by, is_defined, not,
}
use vorcaro_ledger.Prelude.Sort.{sort}
use vorcaro_ledger.Protocol.Types.{EventStatus, ErrorCode}
use vorcaro_ledger.Protocol.Result.{coded, guard}
use vorcaro_ledger.Protocol.Decimal.{decimal}
use vorcaro_ledger.Protocol.Envelope.{ClientEventEnvelope, UnsignedServerAck, ServerAck}
use vorcaro_ledger.Protocol.Crypto.{Host, compute_ledger_hash, canonical_bytes, unsigned_ack_json}
use vorcaro_ledger.Database.Tables.{Db, KeyPackageRow, KeyPackageStatus}
use vorcaro_ledger.Database.Action.{Action, pure, lift, gets, modify, attempt, ◌>>=◌, ◌>>◌}
use vorcaro_ledger.Database.Select.{
  find_existing_event, next_server_sequence, previous_ledger_hash, to_sql_integer,
}
use vorcaro_ledger.Database.Insert.{accept_head, set_watermark}
use vorcaro_ledger.Ledger.Append.{insert_ledger_event}
use vorcaro_ledger.Recovery.Statements.{is_package_of, insert_key_package, revoke_key_packages}
use vorcaro_ledger.Recovery.Ceremony.{RecoveryService, bytes_le}

pub record RewrapInput : Type 0 where
  pub executive_id : Text
  pub old_key_version : ℕ
  pub new_key_version : ℕ

unfoldable pub package_le : Host → KeyPackageRow → KeyPackageRow → Bool
package_le host x y = bytes_le (host.utf8 x.id) (host.utf8 y.id)

unfoldable pub packages_to_rewrap : Host → RewrapInput → Db → List KeyPackageRow
packages_to_rewrap host input db =
    sort (package_le host)
      (filter_by (is_package_of input.executive_id input.old_key_version) db.key_packages)

unfoldable pub executive_wrap_key_handle : Text → ℕ → Text
executive_wrap_key_handle executive_id key_version =
    codes "executive:" ++ executive_id ++ b':' ∷ decimal key_version

unfoldable pub rewrapped_key_package_id : Host → Text → ℕ → Text
rewrapped_key_package_id host old_package_id new_key_version =
    codes "kp_"
    ++ take 26 (host.sha256_hex (host.utf8 (old_package_id ++ b':' ∷ decimal new_key_version)))

module _ (s : RecoveryService) where
  unfoldable pub rewrapped : RewrapInput → KeyPackageRow → Bytes → KeyPackageRow
  rewrapped input key_package wrapped_data_key = record {
    id = rewrapped_key_package_id s.host key_package.id input.new_key_version;
    executive_id = input.executive_id;
    key_version = input.new_key_version;
    wrapped_data_key = wrapped_data_key;
    recovery_wrapped_key = key_package.recovery_wrapped_key;
    status = KeyPackageStatus.active;
    created_at = s.now;
    revoked_at = none;
  }

  unfoldable pub rewrap_each : RewrapInput → List KeyPackageRow → Action (List Text)
  rewrap_each input [] = pure []
  rewrap_each input (key_package ∷ packages) = do
    wrapped_data_key ← lift (
        s.kms.rewrap_key s.recovery_master_key_handle
          (executive_wrap_key_handle input.executive_id input.new_key_version)
          key_package.recovery_wrapped_key)
    attempt (insert_key_package (rewrapped input key_package wrapped_data_key))
    ids ← rewrap_each input packages
    pure (rewrapped_key_package_id s.host key_package.id input.new_key_version ∷ ids)

  unfoldable pub rewrap_key_packages : RewrapInput → Action (List Text)
  rewrap_key_packages input = do
    packages ← gets (packages_to_rewrap s.host input)
    ids ← rewrap_each input packages
    modify (revoke_key_packages input.executive_id input.old_key_version s.now)
    pure ids

  unfoldable pub accepted_ack : ClientEventEnvelope → ℕ → Text → UnsignedServerAck
  accepted_ack event sequence hash = record {
    event_id = event.event_id;
    status = EventStatus.accepted;
    server_sequence = some sequence;
    resulting_ledger_hash = some hash;
    server_timestamp = s.now;
    error_code = none;
  }

  unfoldable pub append_accepted_event : ClientEventEnvelope → Action ServerAck
  append_accepted_event event = do
    existing ← gets (find_existing_event event.event_id)
    lift (guard (not (is_defined existing)) (coded ErrorCode.duplicate_event))
    sequence ← gets next_server_sequence
    previous ← gets previous_ledger_hash
    let resulting = compute_ledger_hash s.host previous sequence event
    signature ← lift (
        s.kms.sign_with_key s.server_signing_key_handle
          (canonical_bytes s.host (unsigned_ack_json (accepted_ack event sequence resulting))))
    insert_ledger_event s.host (record {
      event = event;
      server_sequence = sequence;
      previous_ledger_hash = previous;
      resulting_ledger_hash = resulting;
      server_signature = signature;
      status = EventStatus.accepted;
      error_code = none;
      server_timestamp = s.now;
    })
    modify (accept_head event.object_type event.object_id sequence)
    counter ← lift (to_sql_integer event.device_event_counter)
    modify (set_watermark event.device_id counter s.now)
    pure (record { unsigned = accepted_ack event sequence resulting; server_signature = signature })
