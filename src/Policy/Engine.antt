-- ===== src/Policy/Engine.antt =====
-- `evaluate`, `conditionsAllow` and `actionForEvent` of server/src/policy/engine.ts.
use vorcaro_ledger.Prelude.{
  ℕ, Bool, true, false, ◌&&◌, not, Option, none, some, List, [], ◌∷◌, Text, codes, text_eq, any,
  if◌then◌else◌,
}
use vorcaro_ledger.Prelude.Int.{pos, leb_ℤ}
use vorcaro_ledger.Protocol.Types.{ErrorCode, EventType, event_type_eq, object_type_eq, role_eq}
use vorcaro_ledger.Protocol.Result.{Result, ok, ◌>>=◌, ◌>>◌}
use vorcaro_ledger.Protocol.Canonical.{CanonicalJson, Fields, number, str, end, field, undef}
use vorcaro_ledger.Protocol.Envelope.{ClientEventEnvelope}
use vorcaro_ledger.Protocol.Crypto.{Host}
use vorcaro_ledger.Policy.Document.{
  PolicyAction, Permission, Money, ApprovalRule, PolicyDocument, PolicyDecision,
  PolicyEvaluationContext, create, approve, resolve, export, allow, deny, require_approvals,
  policy_action_eq,
}
use vorcaro_ledger.Policy.Amount.{default_currency_amount_minor_units, condition_big_int}
use vorcaro_ledger.Policy.Snapshot.{assert_default_currency_snapshot}

unfoldable pub action_for_event : EventType → PolicyAction
action_for_event EventType.data_exported = export
action_for_event EventType.conflict_resolved = resolve
action_for_event EventType.payment_approved = approve
action_for_event EventType.payment_approval_created = approve
action_for_event EventType.budget_approved = approve
action_for_event _ = create

-- `conditions.key`; `none` is `undefined`.
unfoldable pub get_field : Text → Fields → Option CanonicalJson
get_field key end = none
get_field key (undef name fields) = get_field key fields
get_field key (field name value fields) =
    if text_eq name key then some value else get_field key fields

abbrev first_of_two : Option Text → Option Text → Option Text
first_of_two none second = second
first_of_two (some s) second = some s

abbrev is_text : Text → Option Text → Bool
is_text s none = false
is_text s (some t) = text_eq t s

unfoldable pub currency_allows : Option CanonicalJson → ClientEventEnvelope → Bool
currency_allows (some (str currency)) event =
    is_text currency
      (first_of_two event.policy_metadata.transaction_currency event.policy_metadata.currency)
currency_allows _ event = true

unfoldable pub amount_allows : Option CanonicalJson → ClientEventEnvelope → Result Bool
amount_allows none event = ok true
amount_allows (some limit) event = do
  amount ← default_currency_amount_minor_units event
  highest ← condition_big_int limit
  ok (leb_ℤ amount highest)

unfoldable pub risk_allows : Option CanonicalJson → Option ℕ → Bool
risk_allows (some (number highest)) (some score) = leb_ℤ (pos score) highest
risk_allows _ _ = true

-- An amount is computed, and may throw, only after the currency test has passed.
unfoldable pub conditions_hold :
    Fields → ClientEventEnvelope → PolicyEvaluationContext → Result Bool
conditions_hold conditions event context =
    if not (currency_allows (get_field (codes "currency") conditions) event) then ok false else do
      within ← amount_allows (get_field (codes "max_amount_minor_units") conditions) event
      ok (within && risk_allows (get_field (codes "max_risk_score") conditions) context.risk_score)

unfoldable pub conditions_allow :
    Option Fields → ClientEventEnvelope → PolicyEvaluationContext → Result Bool
conditions_allow none event context = ok true
conditions_allow (some conditions) event context = conditions_hold conditions event context

-- The callback of `permissions.find`.
unfoldable pub permission_matches :
    ClientEventEnvelope → PolicyEvaluationContext → Permission → Result Bool
permission_matches event context candidate =
    if role_eq candidate.role context.actor_role
      && object_type_eq candidate.object_type event.object_type
      && any (policy_action_eq (action_for_event event.event_type)) candidate.actions
    then conditions_allow candidate.conditions event context
    else ok false

unfoldable pub threshold_reached : PolicyDocument → ClientEventEnvelope → Option Money → Result Bool
threshold_reached policy event none = ok true
threshold_reached policy event (some threshold) =
    if text_eq threshold.currency policy.default_currency
    then (do
      amount ← default_currency_amount_minor_units event
      ok (leb_ℤ threshold.amount_minor_units amount))
    else ok false

-- The callback of `approval_rules.find`.
unfoldable pub rule_applies : PolicyDocument → ClientEventEnvelope → ApprovalRule → Result Bool
rule_applies policy event rule =
    if any (event_type_eq event.event_type) rule.event_types
    then threshold_reached policy event rule.threshold
    else ok false

-- `Array.prototype.find` with a callback that may throw.
module _ {A : Type 0} (test : A → Result Bool) where
  unfoldable pub find_or_throw : List A → Result (Option A)
  find_or_throw [] = ok none
  find_or_throw (x ∷ xs) =
      let rest = find_or_throw xs in do found ← test x; if found then ok (some x) else rest

unfoldable pub decide_approval : Option ApprovalRule → PolicyDecision
decide_approval none = allow
decide_approval (some rule) = require_approvals rule.required_roles rule.required_count

module _ (host : Host) where
  unfoldable pub decide_permission :
      PolicyDocument → ClientEventEnvelope → Option Permission → Result PolicyDecision
  decide_permission policy event none = ok (deny ErrorCode.policy_denied)
  decide_permission policy event (some permission) = do
    assert_default_currency_snapshot host policy event
    rule ← find_or_throw (rule_applies policy event) policy.approval_rules
    ok (decide_approval rule)

  unfoldable pub evaluate :
      PolicyDocument → ClientEventEnvelope → PolicyEvaluationContext → Result PolicyDecision
  evaluate policy event context = do
    permission ← find_or_throw (permission_matches event context) policy.permissions
    decide_permission policy event permission
