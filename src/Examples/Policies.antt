-- ===== src/Examples/Policies.antt =====
-- The theorems on the policy engine at a policy with one permission and one approval rule.
use vorcaro_ledger.Protocol.Json.{json_string}
use vorcaro_ledger.Protocol.Crypto.{canonical_bytes, sha256_digest}
use vorcaro_ledger.Prelude.Sort.{insert, sort}
use vorcaro_ledger.Protocol.Decimal.{read_decimal, decimal, decimal_ℤ, read_from}
use vorcaro_ledger.Protocol.Pattern.{
  is_exchange_rate, is_rate_shape, fraction_part, is_zero_rate, zero_fraction, all_units, is_digits,
  skip_digits,
}
use mathlib.Core.List.{mem-cons_self}
use vorcaro_ledger.Prelude.{
  take, ◌+◌, ◌*◌, ◌^◌, ◌≤◌, ◌<◌, ◌≡◌, ◌≢◌, refl, arith, some, true, [], ◌∷◌, codes, length, any,
  text_eq,
}
use vorcaro_ledger.Prelude.Int.{ℤ, pos, ◌≤ℤ◌}
use vorcaro_ledger.Protocol.Types.{
  EventType, ObjectType, Role, EventType-discrete, Role-discrete, ObjectType-discrete,
}
use vorcaro_ledger.Protocol.Result.{ok}
use vorcaro_ledger.Protocol.Canonical.{
  Fields, bigint, end, field, canonicalize, entry_text, join_comma, object_text,
}
use vorcaro_ledger.Protocol.Envelope.{ClientEventEnvelope}
use vorcaro_ledger.Policy.Document.{
  Permission, Money, ApprovalRule, PolicyDocument, PolicyEvaluationContext, require_approvals,
  allow, create, policy_action_eq, PolicyAction-discrete,
}
use vorcaro_ledger.Policy.Amount.{
  Rate, convert, after_dot, parse_exchange_rate, default_currency_amount_minor_units, before_dot,
  converted_amount, condition_big_int,
}
use vorcaro_ledger.Policy.Amount.Rounding.{convert-ceiling}
use vorcaro_ledger.Policy.Amount.Rates.{parse_exchange_rate-positive}
use vorcaro_ledger.Policy.Snapshot.{
  assert_default_currency_snapshot, check_snapshot_id, default_currency_snapshot, snapshot_at,
}
use vorcaro_ledger.Policy.Engine.{
  get_field, action_for_event, permission_matches, evaluate, find_or_throw, conditions_allow,
  conditions_hold, currency_allows, amount_allows, decide_approval, decide_permission, risk_allows,
  rule_applies, threshold_reached,
}
use vorcaro_ledger.Policy.Decision.{
  Denotes, Explains, evaluate-Explains, Demands, evaluate-Demands, permission_matches-limits,
}
use vorcaro_ledger.Examples.Host.{plain_host}
use vorcaro_ledger.Examples.Samples.{event_of, no_metadata}

-- Nine units at the rate 1/4 are two and a quarter, and cost three.
abbrev quarter : Rate
quarter = record { numerator = 25; denominator = 100 }

convert-ceiling_example :
    (9 * 25 ≤ convert 9 quarter * 100) × (convert 9 quarter * 100 < 9 * 25 + 100)
convert-ceiling_example = convert-ceiling 9 quarter (ground arith)

quarter_read : parse_exchange_rate (codes "0.25") ≡ ok quarter
unfolding parse_exchange_rate is_exchange_rate is_rate_shape fraction_part is_zero_rate
    zero_fraction read_decimal after_dot before_dot
quarter_read = refl

parse_exchange_rate-positive_example :
    (0 < 25)
    × (100 ≡ 10 ^ length (after_dot (codes "0.25")))
    × (length (after_dot (codes "0.25")) ≤ 12)
parse_exchange_rate-positive_example =
    parse_exchange_rate-positive (codes "0.25") quarter quarter_read

abbrev small_limit : Fields
small_limit = field (codes "max_amount_minor_units") (bigint (pos 1000)) end

abbrev opening : Permission
opening = record {
  role = Role.ceo;
  object_type = ObjectType.account;
  actions = create ∷ [];
  conditions = some small_limit;
}

abbrev five_hundred : Money
five_hundred = record { amount_minor_units = pos 500; currency = codes "BRL" }

abbrev second_look : ApprovalRule
second_look = record {
  event_types = EventType.account_created ∷ [];
  threshold = some five_hundred;
  required_roles = Role.cfo ∷ [];
  required_count = 1;
}

abbrev unhashed : PolicyDocument
unhashed = record {
  id = codes "p1";
  version = 1;
  default_currency = codes "BRL";
  permissions = opening ∷ [];
  approval_rules = second_look ∷ [];
  document_hash = [];
  activated_at_sequence = some 1;
  signature = [];
}

abbrev policy : PolicyDocument
policy = record unhashed {
  document_hash = codes "sha256:0000000000000000000000000000000000000000000000000000000000000000";
}

abbrev event : ClientEventEnvelope
event = record (event_of (codes "ev1") 0 1) {
  policy_metadata = record no_metadata {
    transaction_currency = some (codes "USD");
    exchange_rate = some (codes "0.25");
    default_currency_snapshot_id = some (codes "ccysnap_00000000000000000000000000");
    local_rate = some 3000;
  };
}

abbrev context : PolicyEvaluationContext
context = record { actor_role = Role.ceo; risk_score = some 0 }

amount_is : default_currency_amount_minor_units event ≡ ok (pos 750)
unfolding default_currency_amount_minor_units converted_amount parse_exchange_rate is_exchange_rate
    is_rate_shape fraction_part is_zero_rate zero_fraction convert read_decimal before_dot after_dot
amount_is = refl

asks_approval : evaluate plain_host policy event context ≡ ok (require_approvals (Role.cfo ∷ []) 1)
unfolding evaluate find_or_throw permission_matches Role-discrete ObjectType-discrete any
    PolicyAction-discrete action_for_event conditions_allow conditions_hold currency_allows
    get_field text_eq amount_allows default_currency_amount_minor_units converted_amount
    parse_exchange_rate is_exchange_rate after_dot before_dot condition_big_int convert
    decide_approval decide_permission risk_allows rule_applies threshold_reached
    assert_default_currency_snapshot check_snapshot_id default_currency_snapshot snapshot_at take
    insert sort canonicalize entry_text join_comma object_text canonical_bytes sha256_digest decimal
    decimal_ℤ read_decimal read_from json_string all_units fraction_part is_digits is_rate_shape
    is_zero_rate skip_digits zero_fraction EventType-discrete
asks_approval = refl

evaluate-Explains_example :
    Explains plain_host policy event context (require_approvals (Role.cfo ∷ []) 1)
evaluate-Explains_example =
    evaluate-Explains plain_host policy event context (require_approvals (Role.cfo ∷ []) 1)
      asks_approval

demands : Demands plain_host policy event context second_look five_hundred (pos 750)
unfolding any EventType-discrete
demands = record {
  listed = mem-cons_self;
  covers = refl;
  limit = refl;
  currency = refl;
  computed = amount_is;
  reached = ground arith;
}

evaluate-Demands_example : evaluate plain_host policy event context ≢ ok allow
evaluate-Demands_example =
    evaluate-Demands plain_host policy event context second_look five_hundred (pos 750) demands

permitted : permission_matches event context opening ≡ ok true
unfolding permission_matches Role-discrete ObjectType-discrete any PolicyAction-discrete
    action_for_event conditions_allow conditions_hold currency_allows get_field text_eq
    amount_allows default_currency_amount_minor_units converted_amount parse_exchange_rate
    is_exchange_rate is_rate_shape fraction_part after_dot before_dot condition_big_int convert
    risk_allows read_decimal read_from all_units is_digits is_zero_rate skip_digits zero_fraction
permitted = refl

limit_listed : get_field (codes "max_amount_minor_units") small_limit ≡ some (bigint (pos 1000))
unfolding get_field text_eq
limit_listed = refl

permission_matches-limits_example :
    (Role.ceo ≡ Role.ceo)
    × (ObjectType.account ≡ ObjectType.account)
    × (any (policy_action_eq (action_for_event EventType.account_created)) (create ∷ []) ≡ true)
    × ((amount : ℤ) × (limit : ℤ) × (default_currency_amount_minor_units event ≡ ok amount)
        × Denotes (bigint (pos 1000)) limit
        × (amount ≤ℤ limit))
permission_matches-limits_example =
    permission_matches-limits event context opening small_limit (bigint (pos 1000)) refl
      limit_listed permitted
