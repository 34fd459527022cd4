-- ===== src/Policy/Schema.antt =====
-- `parse` of `policyDocumentSchema` of packages/protocol/src/schemas.ts, on values that already have
-- the field types.
use vorcaro_ledger.Prelude.{Bool, ◌&&◌, List, [], ◌∷◌, true, ltb, if◌then◌else◌}
use vorcaro_ledger.Protocol.Result.{Result, ok, err, zod_error}
use vorcaro_ledger.Protocol.Pattern.{is_currency_code, is_hash, is_base64, is_nonempty}
use vorcaro_ledger.Protocol.Schema.{absent_or}
use vorcaro_ledger.Policy.Document.{Money, ApprovalRule, PolicyDocument}

unfoldable pub money_valid : Money → Bool
money_valid m = is_currency_code m.currency

unfoldable pub approval_rule_valid : ApprovalRule → Bool
approval_rule_valid r = absent_or money_valid r.threshold && ltb 0 r.required_count

unfoldable pub approval_rules_valid : List ApprovalRule → Bool
approval_rules_valid [] = true
approval_rules_valid (r ∷ rs) = approval_rule_valid r && approval_rules_valid rs

unfoldable pub policy_document_valid : PolicyDocument → Bool
policy_document_valid p =
    is_nonempty p.id
    && ltb 0 p.version
    && is_currency_code p.default_currency
    && approval_rules_valid p.approval_rules
    && is_hash p.document_hash
    && is_base64 p.signature

-- `policyDocumentSchema.parse`
unfoldable pub parse_policy_document : PolicyDocument → Result PolicyDocument
parse_policy_document p = if policy_document_valid p then ok p else err zod_error
