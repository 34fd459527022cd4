-- ===== src/Policy/Document.antt =====
-- The policy document of packages/protocol/src/schemas.ts and the decisions of
-- server/src/policy/engine.ts.
use vorcaro_ledger.Prelude.{ℕ, Bool, Option, List, Text, is_yes}
use vorcaro_ledger.Prelude.Int.{ℤ}
use vorcaro_ledger.Protocol.Types.{ErrorCode, EventType, ObjectType, Role}
use vorcaro_ledger.Protocol.Canonical.{Fields}

pub data PolicyAction : Type 0 where
  read create approve resolve export : PolicyAction

unfoldable pub PolicyAction-discrete : Discrete PolicyAction
PolicyAction-discrete = hlevel

abbrev pub policy_action_eq : PolicyAction → PolicyAction → Bool
policy_action_eq a b = is_yes (PolicyAction-discrete a b)

pub record Money : Type 0 where
  pub amount_minor_units : ℤ
  pub currency : Text

-- The values of `conditions` are `unknown`: any JSON values.
pub record Permission : Type 0 where
  pub role : Role
  pub object_type : ObjectType
  pub actions : List PolicyAction
  pub conditions : Option Fields

pub record ApprovalRule : Type 0 where
  pub event_types : List EventType
  pub threshold : Option Money
  pub required_roles : List Role
  pub required_count : ℕ

pub record PolicyDocument : Type 0 where
  pub id : Text
  pub version : ℕ
  pub default_currency : Text
  pub permissions : List Permission
  pub approval_rules : List ApprovalRule
  pub document_hash : Text
  pub activated_at_sequence : Option ℕ
  pub signature : Text

pub data PolicyDecision : Type 0 where
  allow : PolicyDecision
  deny : ErrorCode → PolicyDecision
  require_approvals : List Role → ℕ → PolicyDecision

pub record PolicyEvaluationContext : Type 0 where
  pub actor_role : Role
  pub risk_score : Option ℕ
