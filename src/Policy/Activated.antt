-- ===== src/Policy/Activated.antt =====
-- What an activation by server/src/policy/service.ts that returns has done.
use vorcaro_ledger.Prelude.{◌⊎◌, All, ℕ, some, ◌∷◌, ◌≡◌}
use vorcaro_ledger.Protocol.Types.{EventStatus}
use vorcaro_ledger.Protocol.Result.{ok}
use vorcaro_ledger.Protocol.Envelope.{ClientEventEnvelope}
use vorcaro_ledger.Database.Tables.{Db, PolicyRow}
use vorcaro_ledger.Database.Returns.{Returns}
use vorcaro_ledger.Ledger.Admission.{AppendEventRequest, append_now}
use vorcaro_ledger.Policy.Document.{PolicyDocument}
use vorcaro_ledger.Policy.Snapshot.{document_hash, snapshot_at}
use vorcaro_ledger.Policy.Schema.{parse_policy_document}
use vorcaro_ledger.Policy.Stored.{serialize_policy_document}
use vorcaro_ledger.Policy.Activation.{PolicyService, ActivatePolicyInput, ActivatePolicyResult}
use vorcaro_ledger.Policy.Storing.{Stored}
use vorcaro_ledger.Policy.Grounds.{IsActivation}

abbrev pub request_of_input : ActivatePolicyInput → ClientEventEnvelope → AppendEventRequest
request_of_input input event = record {
  event = event;
  certificate_fingerprint = input.certificate_fingerprint;
}

-- What an activation that returns has done.
pub record IsActivated (s : PolicyService) (input : ActivatePolicyInput) (db : Db)
    (result : ActivatePolicyResult) (db' : Db) : Type 0 where
  pub sequence : ℕ
  pub appended_eq :
      (append_now s.appender (request_of_input input input.activation_event) db).0
      ≡ ok result.acknowledgement
  pub accepted_eq : result.acknowledgement.unsigned.status ≡ EventStatus.accepted
  pub sequence_eq : result.acknowledgement.unsigned.server_sequence ≡ some sequence
  pub policy_eq : result.policy ≡ record input.policy { activated_at_sequence = some sequence }
  pub valid_eq : parse_policy_document input.policy ≡ ok input.policy
  pub hash_eq : document_hash s.appender.host input.policy ≡ input.policy.document_hash
  pub event : IsActivation input.policy input.activation_event
  pub unused :
      All
        (λ (r : PolicyRow). ¬ ((r.id ≡ input.policy.id) ⊎ (r.version ≡ input.policy.version)))
        db.policies
  pub policies_eq :
      db'.policies
      ≡ record {
        id = input.policy.id;
        version = input.policy.version;
        default_currency = input.policy.default_currency;
        default_currency_snapshot_id = (snapshot_at s.appender.host result.policy sequence).id;
        default_currency_snapshot_hash = (snapshot_at s.appender.host result.policy sequence).hash;
        document = serialize_policy_document result.policy;
        document_hash = input.policy.document_hash;
        activated_at_sequence = some sequence;
      }
        ∷ db.policies

module _ (s : PolicyService) (input : ActivatePolicyInput) (db : Db) (result : ActivatePolicyResult)
    (db' : Db) where
  -- The row of one policy, with the snapshot and the text of another.
  abbrev written : PolicyDocument → PolicyDocument → ℕ → PolicyRow
  written p q sequence = record {
    id = p.id;
    version = p.version;
    default_currency = p.default_currency;
    default_currency_snapshot_id = (snapshot_at s.appender.host q sequence).id;
    default_currency_snapshot_hash = (snapshot_at s.appender.host q sequence).hash;
    document = serialize_policy_document q;
    document_hash = p.document_hash;
    activated_at_sequence = some sequence;
  }
