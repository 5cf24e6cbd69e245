-- ===== src/Tests/PolicyRuns.antt =====
-- Policies: one rule that lets any caller with the app PIN sign.
use key_wallet.Base.{
  ℕ, ◌^◌, ◌≤◌, ◌<◌, ◌≡◌, ◌↔◌, refl, List, [], ◌∷◌, some, true, false, length, All, Any, arith,
}
use key_wallet.Bytes.{Status, get_uint16_be, get_uint32_be, put_uint16_be, put_uint32_be}
use key_wallet.Policy.{
  Context, validate, validate_rules, rule_valid, rule_operations, rule_required, rule_forbidden,
  rule_namespace, rule_flags, authorize, authorize_rules, rule_permits, operation_malformed,
  context_malformed, max_rules,
}
use key_wallet.Policy.Rules.{Rule, IsRule, encode_rule, encode, Permits, IsTrusted}
use key_wallet.Policy.Accepts.{validate-ok_iff}
use key_wallet.Policy.Decision.{authorize_iff}
use key_wallet.Base.Bits.{bit_at-zero}

abbrev sign_rule : Rule
sign_rule = record { operations = 8; required = 4; forbidden = 0; namespace = 0xffff }

abbrev session : Context
session = record { facts = 5; session_epoch = 3; facts_epoch = 3; caller_namespace = 2 }

sign_rule-IsRule : IsRule sign_rule
sign_rule-IsRule = record {
  some_operation = omega arith;
  known_operations = omega arith;
  known_required = omega arith;
  known_forbidden = omega arith;
  consistent = λ i p q. omega (arith, bit_at-zero i);
  some_namespace = omega arith;
  namespace_fits = omega arith;
}

-- Signing (bit 3) is permitted; deleting (bit 10) is not.
sign_allowed : authorize (some (encode (sign_rule ∷ []))) 8 (some session) ≡ true
unfolding authorize validate validate_rules rule_valid rule_operations rule_required rule_forbidden
    rule_namespace rule_flags authorize_rules rule_permits operation_malformed context_malformed
    get_uint16_be get_uint32_be put_uint16_be put_uint32_be encode_rule
sign_allowed = refl

delete_refused : authorize (some (encode (sign_rule ∷ []))) 1024 (some session) ≡ false
unfolding authorize validate validate_rules rule_valid rule_operations rule_required rule_forbidden
    rule_namespace rule_flags authorize_rules rule_permits operation_malformed context_malformed
    get_uint16_be get_uint32_be put_uint16_be put_uint32_be encode_rule
delete_refused = refl

abbrev two_bytes : List ℕ
two_bytes = 1 ∷ 0 ∷ []

-- The policy with no rule.
validate-ok_iff_example :
    (validate (some two_bytes) ≡ Status.ok)
    ↔ ((rs : List Rule) × (two_bytes ≡ encode rs) × All IsRule rs × (length rs ≤ max_rules))
validate-ok_iff_example = validate-ok_iff two_bytes (omega arith)

authorize_iff_example : (authorize (some (encode (sign_rule ∷ []))) 8 (some session) ≡ true) ↔ (
    (i : ℕ) × (i < 13) × (8 ≡ 2 ^ i) × IsTrusted session × Any (Permits i session) (sign_rule ∷ []))
authorize_iff_example =
    authorize_iff (sign_rule ∷ []) 8 session (sign_rule-IsRule, tt) (omega arith) (omega arith)
      (omega arith)
