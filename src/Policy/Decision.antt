-- ===== src/Policy/Decision.antt =====
-- What a decision of `evaluate` in server/src/policy/engine.ts rests on.
use mathlib.Core.Logic.Or
use mathlib.Core.HLevel.{⊥_prop}
use mathlib.Core.List.{Mem, mem-cons, not-mem-nil}
use vorcaro_ledger.Prelude.{
  ◌+◌, ◌≤◌, Bool, true, false, Option, none, some, List, [], ◌∷◌, codes, text_eq_iff, All, any, ◌≡◌,
  ◌≢◌, inl, inr, refl, subst, arith, is_yes_iff, Bool-cases,
}
use vorcaro_ledger.Prelude.Int.{ℤ, pos, negsuc, ◌≤ℤ◌}
use vorcaro_ledger.Protocol.Types.{ErrorCode, event_type_eq, Role-discrete, ObjectType-discrete}
use vorcaro_ledger.Protocol.Result.{Result, ok, Result-cases}
use vorcaro_ledger.Protocol.Canonical.{
  CanonicalJson, Fields, null, boolean, number, bigint, str, arr, obj,
}
use vorcaro_ledger.Protocol.Pattern.{is_digits}
use vorcaro_ledger.Protocol.Decimal.{read_decimal}
use vorcaro_ledger.Protocol.Envelope.{ClientEventEnvelope}
use vorcaro_ledger.Protocol.Crypto.{Host}
use vorcaro_ledger.Policy.Document.{
  Permission, Money, ApprovalRule, PolicyDocument, PolicyDecision, PolicyEvaluationContext, allow,
  deny, require_approvals, policy_action_eq,
}
use vorcaro_ledger.Policy.Amount.{
  max_safe_integer, default_currency_amount_minor_units, condition_big_int,
}
use vorcaro_ledger.Policy.Snapshot.{assert_default_currency_snapshot}
use vorcaro_ledger.Policy.Engine.{
  action_for_event, get_field, amount_allows, conditions_hold, conditions_allow, permission_matches,
  threshold_reached, rule_applies, find_or_throw, decide_approval, decide_permission, evaluate,
}

module _ {A : Type 0} (test : A → Result Bool) where
  -- An entry that passes, after entries that do not.
  pub data First (x : A) : List A → Type 0 where
    here : (xs : List A) → test x ≡ ok true → First x (x ∷ xs)
    later : {xs : List A} (y : A) → test y ≡ ok false → First x xs → First x (y ∷ xs)

  abbrev pub Rejected : List A → Type 0
  Rejected = All (λ x. test x ≡ ok false)

  pub find_or_throw-First : (xs : List A) (x : A) → find_or_throw test xs ≡ ok (some x) → First x xs
  unfolding find_or_throw
  find_or_throw-First [] x h = absurd (cc)
  find_or_throw-First (y ∷ ys) x h = elim (Result-cases (test y)) [
    | inr (e, threw) ↦ absurd (ground arith)
    | inl (found, said) ↦ elim (Bool-cases found) [
      | inl hit ↦
          let is : y ≡ x = ground arith in
          subst (λ z. First z (y ∷ ys)) is (First.here ys (ground arith))
      | inr miss ↦ First.later y (ground arith) (find_or_throw-First ys x (ground arith))
    ]
  ]

  pub find_or_throw-Rejected : (xs : List A) → find_or_throw test xs ≡ ok none → Rejected xs
  unfolding find_or_throw
  find_or_throw-Rejected [] h = tt
  find_or_throw-Rejected (y ∷ ys) h = (ground arith, find_or_throw-Rejected ys (ground arith))

module _ (host : Host) (policy : PolicyDocument) (event : ClientEventEnvelope)
    (context : PolicyEvaluationContext) where
  abbrev pub Permitted : Type 0
  Permitted =
      (p : Permission) × First (permission_matches event context) p policy.permissions
      × (assert_default_currency_snapshot host policy event ≡ ok tt)

  -- The reason for each decision.
  abbrev pub Explains : PolicyDecision → Type 0
  Explains (deny code) =
      (code ≡ ErrorCode.policy_denied)
      × Rejected (permission_matches event context) policy.permissions
  Explains allow = Permitted × Rejected (rule_applies policy event) policy.approval_rules
  Explains (require_approvals roles count) =
      Permitted
      × ((rule : ApprovalRule) × First (rule_applies policy event) rule policy.approval_rules
          × (rule.required_roles ≡ roles)
          × (rule.required_count ≡ count))

  explain_rule :
      (rule : Option ApprovalRule) (decision : PolicyDecision)
      → Permitted
      → find_or_throw (rule_applies policy event) policy.approval_rules ≡ ok rule
      → decide_approval rule ≡ decision
      → Explains decision
  unfolding decide_approval
  explain_rule none decision permitted found is =
      subst Explains is
        (permitted, find_or_throw-Rejected (rule_applies policy event) policy.approval_rules found)
  explain_rule (some rule) decision permitted found is = subst Explains is (
    permitted,
    (
      rule,
      find_or_throw-First (rule_applies policy event) policy.approval_rules rule found,
      refl,
      refl,
    ),
  )

  explain_permission :
      (permission : Option Permission) (decision : PolicyDecision)
      → find_or_throw (permission_matches event context) policy.permissions ≡ ok permission
      → decide_permission host policy event permission ≡ ok decision
      → Explains decision
  unfolding decide_permission
  explain_permission none decision found is =
      subst Explains {x = deny ErrorCode.policy_denied} (ground arith)
        (refl, find_or_throw-Rejected (permission_matches event context) policy.permissions found)
  explain_permission (some p) decision found is =
      elim (Result-cases (assert_default_currency_snapshot host policy event)) [
        | inr (e, threw) ↦ absurd (ground arith)
        | inl (tt, current) ↦
            elim (Result-cases (find_or_throw (rule_applies policy event) policy.approval_rules)) [
              | inr (e, threw) ↦ absurd (ground arith)
              | inl (rule, applied) ↦
                  explain_rule rule decision
                    (
                      p,
                      find_or_throw-First (permission_matches event context) policy.permissions p
                          found,
                      current,
                    )
                    applied (ground arith)
            ]
      ]

  -- A denial means that no permission matches. Any other decision means that a permission matches,
  -- after ones that do not, and that the event's currency snapshot is the policy's; then the event
  -- is allowed if no approval rule applies, and otherwise the first rule that applies names the
  -- roles and the number of the approvals.
  pub evaluate-Explains :
      (decision : PolicyDecision)
      → evaluate host policy event context ≡ ok decision
      → Explains decision
  unfolding evaluate
  evaluate-Explains decision is =
      elim (Result-cases (find_or_throw (permission_matches event context) policy.permissions)) [
        | inr (e, threw) ↦ absurd (ground arith)
        | inl (permission, found) ↦ explain_permission permission decision found (ground arith)
      ]

  -- An approval rule that a policy has, for the event's type and for an amount that the event
  -- reaches.
  pub record Demands (rule : ApprovalRule) (threshold : Money) (amount : ℤ) : Type 0 where
    pub listed : Mem rule policy.approval_rules
    pub covers : any (event_type_eq event.event_type) rule.event_types ≡ true
    pub limit : rule.threshold ≡ some threshold
    pub currency : threshold.currency ≡ policy.default_currency
    pub computed : default_currency_amount_minor_units event ≡ ok amount
    pub reached : threshold.amount_minor_units ≤ℤ amount

  demanded_applies :
      (rule : ApprovalRule) (threshold : Money) (amount : ℤ)
      → Demands rule threshold amount
      → rule_applies policy event rule ≡ ok true
  unfolding rule_applies threshold_reached
  demanded_applies rule threshold amount d =
      rw (d.covers, d.limit)
        (ground (
          arith,
          d.computed,
          d.reached,
          d.currency,
          text_eq_iff threshold.currency policy.default_currency,
        ))

  no-Rejected_member :
      (rule : ApprovalRule) (rules : List ApprovalRule)
      → Rejected (rule_applies policy event) rules
      → Mem rule rules
      → rule_applies policy event rule ≡ ok true
      → ⊥
  no-Rejected_member rule [] none_applies m applies = not-mem-nil m
  no-Rejected_member rule (r ∷ rs) none_applies m applies =
      Or.elim ⊥_prop (mem-cons.0 m)
        (λ is.
          both_ways (subst (λ x. rule_applies policy event x ≡ ok true) is applies) none_applies.0)
        (λ rest. no-Rejected_member rule rs none_applies.1 rest applies)
    where
      both_ways : {o : Result Bool} → o ≡ ok true → o ≡ ok false → ⊥
      both_ways p q = absurd (cc)

  -- An event whose amount in the default currency reaches the threshold of an approval rule of the
  -- policy for its type is never simply allowed, whatever the other rules and permissions say.
  pub evaluate-Demands :
      (rule : ApprovalRule) (threshold : Money) (amount : ℤ)
      → Demands rule threshold amount
      → evaluate host policy event context ≢ ok allow
  evaluate-Demands rule threshold amount d allowed =
      no-Rejected_member rule policy.approval_rules (evaluate-Explains allow allowed).1 d.listed
        (demanded_applies rule threshold amount d)

-- The limit that a JSON value stands for: a bigint, a safe integer or a text of digits. No other
-- value stands for one.
abbrev pub Denotes : CanonicalJson → ℤ → Type 0
Denotes (bigint n) limit = limit ≡ n
Denotes (number (pos n)) limit = (n ≤ max_safe_integer) × (limit ≡ pos n)
Denotes (number (negsuc n)) limit = (n + 1 ≤ max_safe_integer) × (limit ≡ negsuc n)
Denotes (str digits) limit = (is_digits digits ≡ true) × (limit ≡ pos (read_decimal digits))
Denotes _ limit = ⊥

condition_big_int-Denotes :
    (value : CanonicalJson) (limit : ℤ) → condition_big_int value ≡ ok limit → Denotes value limit
unfolding condition_big_int
condition_big_int-Denotes (bigint n) limit h = cc
condition_big_int-Denotes (number (pos n)) limit h = (ground arith, ground arith)
condition_big_int-Denotes (number (negsuc n)) limit h = (ground arith, ground arith)
condition_big_int-Denotes (str digits) limit h = (ground arith, ground arith)
condition_big_int-Denotes null limit h = absurd (cc)
condition_big_int-Denotes (boolean b) limit h = absurd (cc)
condition_big_int-Denotes (arr items) limit h = absurd (cc)
condition_big_int-Denotes (obj fields) limit h = absurd (cc)

-- What a permission that matches says of the event and of its actor.
module _ (event : ClientEventEnvelope) (context : PolicyEvaluationContext) (p : Permission) where
  within_limit :
      (conditions : Fields) (value : CanonicalJson)
      → get_field (codes "max_amount_minor_units") conditions ≡ some value
      → conditions_allow (some conditions) event context ≡ ok true
      → (amount : ℤ) × (limit : ℤ) × (default_currency_amount_minor_units event ≡ ok amount)
        × Denotes value limit
        × (amount ≤ℤ limit)
  unfolding conditions_allow conditions_hold amount_allows
  within_limit conditions value limited holds =
      elim (Result-cases (default_currency_amount_minor_units event)) [
        | inr (e, threw) ↦ absurd (ground arith)
        | inl (amount, computed) ↦ elim (Result-cases (condition_big_int value)) [
          | inr (e, threw) ↦ absurd (ground arith)
          | inl (limit, read) ↦
              (amount, limit, computed, condition_big_int-Denotes value limit read, ground arith)
        ]
      ]

  -- A permission with a condition `max_amount_minor_units` matches only the role of the actor, the
  -- type of the object and an action that it lists, and only if the condition stands for a limit, as
  -- a bigint, a safe integer or a text of digits, and the event's amount in the default currency is
  -- computed and is no higher than that limit.
  pub permission_matches-limits :
      (conditions : Fields) (value : CanonicalJson)
      → p.conditions ≡ some conditions
      → get_field (codes "max_amount_minor_units") conditions ≡ some value
      → permission_matches event context p ≡ ok true
      → (p.role ≡ context.actor_role)
        × (p.object_type ≡ event.object_type)
        × (any (policy_action_eq (action_for_event event.event_type)) p.actions ≡ true)
        × ((amount : ℤ) × (limit : ℤ) × (default_currency_amount_minor_units event ≡ ok amount)
            × Denotes value limit
            × (amount ≤ℤ limit))
  unfolding permission_matches
  permission_matches-limits conditions value has limited h = (
    (is_yes_iff (Role-discrete p.role context.actor_role)).0 (ground arith),
    (is_yes_iff (ObjectType-discrete p.object_type event.object_type)).0 (ground arith),
    ground arith,
    within_limit conditions value limited (ground arith),
  )
