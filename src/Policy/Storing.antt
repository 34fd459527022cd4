-- ===== src/Policy/Storing.antt =====
-- What the statements of `activatePolicy` in server/src/policy/service.ts behind the append did.
use vorcaro_ledger.Prelude.{
  ℕ, Bool, false, ◌||◌, Option, none, some, ◌∷◌, text_eq, ◌==◌, any, ◌≡◌, refl, ap, sym, subst,
  List, ◌∙◌, arith,
}
use vorcaro_ledger.Protocol.Types.{ErrorCode, EventStatus}
use vorcaro_ledger.Protocol.Result.{ok}
use vorcaro_ledger.Protocol.Envelope.{ClientEventEnvelope, ServerAck}
use vorcaro_ledger.Protocol.Schema.{parse_envelope}
use vorcaro_ledger.Database.Tables.{Db, PolicyRow}
use vorcaro_ledger.Database.Returns.{
  Returns, read-Returns, modify-Returns, attempt-Returns, pure-Returns,
}
use vorcaro_ledger.Database.Select.{to_sql_integer}
use vorcaro_ledger.Audit.{write_audit_log}
use vorcaro_ledger.Policy.Document.{PolicyDocument}
use vorcaro_ledger.Policy.Snapshot.{DefaultCurrencySnapshot, default_currency_snapshot, snapshot_at}
use vorcaro_ledger.Policy.Schema.{parse_policy_document}
use vorcaro_ledger.Policy.Activation.{
  PolicyService, ActivatePolicyInput, ActivatePolicyResult, accepted_sequence, insert_policy,
  policy_row, audit_activation, store_policy,
}

abbrev pub activated_at : PolicyDocument → ℕ → PolicyDocument
activated_at policy sequence = record policy { activated_at_sequence = some sequence }

pub parsed_policy : (p q : PolicyDocument) → parse_policy_document p ≡ ok q → q ≡ p
unfolding parse_policy_document
parsed_policy p q h = ground (arith, h)

pub parsed_envelope :
    (is_datetime : _) (e f : ClientEventEnvelope) → parse_envelope is_datetime e ≡ ok f → f ≡ e
unfolding parse_envelope
parsed_envelope is_datetime e f h = ground (arith, h)

stored_sequence : (n m : ℕ) → to_sql_integer n ≡ ok m → m ≡ n
unfolding to_sql_integer
stored_sequence n m h = ground (arith, h)

accepted_parts :
    (status : EventStatus) (sequence : Option ℕ) (code : Option ErrorCode) (n : ℕ)
    → accepted_sequence status sequence code ≡ ok n
    → (status ≡ EventStatus.accepted) × (sequence ≡ some n)
unfolding accepted_sequence
accepted_parts EventStatus.accepted (some m) code n h = (refl, cc)
accepted_parts EventStatus.accepted none code n h = absurd (cc)
accepted_parts EventStatus.rejected sequence code n h = absurd (cc)
accepted_parts _ sequence code n h = absurd (cc)

inserted_policy :
    (new : PolicyRow) (db db' : Db)
    → insert_policy new db ≡ ok db'
    → (any (λ p. text_eq p.id new.id || p.version == new.version) db.policies ≡ false)
      × (db'.policies ≡ new ∷ db.policies)
unfolding insert_policy
inserted_policy new db db' h = (ground (arith, h), ground (arith, h))

abbrev pub taken_by : PolicyDocument → PolicyRow → Bool
taken_by policy r = text_eq r.id policy.id || r.version == policy.version

-- What the statements behind the append did.
pub record Stored (s : PolicyService) (policy : PolicyDocument) (ack : ServerAck) (between : Db)
    (result : ActivatePolicyResult) (db' : Db) : Type 0 where
  pub sequence : ℕ
  pub accepted_eq : ack.unsigned.status ≡ EventStatus.accepted
  pub sequence_eq : ack.unsigned.server_sequence ≡ some sequence
  pub result_eq : result ≡ record { policy = activated_at policy sequence; acknowledgement = ack }
  pub unused_eq :
      any (λ p. text_eq p.id policy.id || p.version == policy.version) between.policies ≡ false
  pub policies_eq :
      db'.policies
      ≡ policy_row
          (activated_at policy sequence)
          (snapshot_at s.appender.host (activated_at policy sequence) sequence)
          sequence
        ∷ between.policies

module _ (s : PolicyService) (input : ActivatePolicyInput) where
  snapshot_parts :
      (policy p : PolicyDocument) (n : ℕ) (snapshot : DefaultCurrencySnapshot)
      → p ≡ activated_at policy n
      → default_currency_snapshot s.appender.host p ≡ ok snapshot
      → snapshot ≡ snapshot_at s.appender.host (activated_at policy n) n
  unfolding default_currency_snapshot
  snapshot_parts policy p n snapshot is taken =
      let same : ok (snapshot_at s.appender.host (activated_at policy n) n) ≡ ok snapshot =
        subst (λ q. default_currency_snapshot s.appender.host q ≡ ok snapshot) is taken in
      cc

  unused_version :
      (policy p : PolicyDocument) (snapshot : DefaultCurrencySnapshot) (m : ℕ)
      (rows : List PolicyRow)
      → (n : ℕ) → p ≡ activated_at policy n
      → any
          (λ r.
            text_eq r.id (policy_row p snapshot m).id
            || r.version == (policy_row p snapshot m).version)
          rows
        ≡ false
      → any (λ r. text_eq r.id policy.id || r.version == policy.version) rows ≡ false
  unfolding policy_row
  unused_version policy p snapshot m rows n is h =
      subst (λ q. any (λ r. text_eq r.id q.id || r.version == q.version) rows ≡ false) {x = p} is h

  row_parts :
      (policy p : PolicyDocument) (snapshot : DefaultCurrencySnapshot) (n m : ℕ)
      → p ≡ activated_at policy n
      → snapshot ≡ snapshot_at s.appender.host (activated_at policy n) n
      → m ≡ n
      → policy_row p snapshot m
        ≡ policy_row
            (activated_at policy n)
            (snapshot_at s.appender.host (activated_at policy n) n)
            n
  row_parts policy p snapshot n m is taken safe = cc

  pub store_policy-Stored :
      (policy : PolicyDocument) (ack : ServerAck) (db : Db) (result : ActivatePolicyResult)
      (db' : Db)
      → Returns (store_policy s input policy ack) db result db'
      → Stored s policy ack db result db'
  unfolding store_policy audit_activation write_audit_log
  store_policy-Stored policy ack db result db' h =
      let (n, accepted, h1) = read-Returns _ _ h in
      let (p, parsed, h2) = read-Returns _ _ h1 in
      let (snapshot, taken, h3) = read-Returns _ _ h2 in
      let (m, safe, h4) = read-Returns _ _ h3 in
      let (db1, inserted, h5) = attempt-Returns (insert_policy (policy_row p snapshot m)) _ h4 in
      let h6 = modify-Returns _ _ h5 in
      let (result_eq, db_eq) = pure-Returns h6 in
      let (status_eq, sequence_eq) =
        accepted_parts ack.unsigned.status ack.unsigned.server_sequence ack.unsigned.error_code n
          accepted in
      let p_eq = parsed_policy (activated_at policy n) p parsed in
      let m_eq = stored_sequence n m safe in
      let (unused, rows) = inserted_policy (policy_row p snapshot m) db db1 inserted in
      record {
        sequence = n;
        accepted_eq = status_eq;
        sequence_eq = sequence_eq;
        result_eq = sym result_eq ∙ ap (λ q. record { policy = q; acknowledgement = ack }) p_eq;
        unused_eq = unused_version policy p snapshot m db.policies n p_eq unused;
        policies_eq =
            sym (ap (λ (d : Db). d.policies) db_eq)
            ∙ rows
            ∙ ap (λ r. r ∷ db.policies)
                (row_parts policy p snapshot n m p_eq
                  (snapshot_parts policy p n snapshot p_eq taken) m_eq);
      }
