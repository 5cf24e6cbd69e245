-- ===== src/Policy/Decision.antt =====
-- `authorize` on an encoded policy decides by the rules as data.
use key_wallet.Base.{ℕ, ◌+◌, ◌-◌, ◌^◌, ◌≤◌, ◌<◌, ◌≡◌, refl, ap, ◌∙◌, ◌↔◌, ◌≢◌, ◌⊎◌, arith}
use native.Mathlib.Nat.{one-le-pow, pow-le-pow_right}
use native.Mathlib.Decide.{dec_lt}
use mathlib.Core.Path.{subst}
use key_wallet.Base.{List, [], ◌∷◌, ◌++◌, some, true, false, bit_and, inl, inr}
use key_wallet.Base.{length, get_or, All, Any, drop, Bool-cases}
use key_wallet.Base.Bits.{bit_at-lt, bit_and-eq-zero_iff, bit_and-eq-right_iff}
use key_wallet.Base.Bits.Mask.{bit_and-pow, single_bit, single_bit-pow}
use key_wallet.Bytes.{Status}
use key_wallet.Policy.{
  Context, rule_at, rule_permits, authorize_rules, authorize, operation_malformed,
  context_malformed, rule_operations, rule_required, rule_forbidden, rule_namespace, namespace_any,
  max_rules, validate,
}
use key_wallet.Policy.Rules.{
  Rule, IsRule, encode_rule, encode_rules, encode, Permits, IsTrusted, Fits32,
}
use key_wallet.Policy.Codec.{decode_rule, decode-encode_rule, drop-encode_rule}
use key_wallet.Policy.Accepts.{rule_at-suc, operation_in_mask, fact_in_mask, validate_complete}

-- The tests of one rule, at the operation with bit `i`.
rule_permits_tests :
    (s : List ℕ) (operation : ℕ) (c : Context)
    → (rule_permits s operation c ≡ true) ↔ (
        (bit_and (rule_operations s) operation ≢ 0)
        × ((rule_namespace s ≡ namespace_any) ⊎ (rule_namespace s ≡ c.caller_namespace))
        × (bit_and c.facts (rule_required s) ≡ rule_required s)
        × (bit_and c.facts (rule_forbidden s) ≡ 0))
unfolding rule_permits
rule_permits_tests s operation c =
    (λ h. (ground arith, ground arith, ground arith, ground arith), λ h. ground arith)

one-le-pow_two : (i : ℕ) → 1 ≤ 2 ^ i
one-le-pow_two i = one-le-pow i 2 (omega arith)

rule_permits_iff :
    (i : ℕ) (s : List ℕ) (c : Context)
    → (rule_permits s (2 ^ i) c ≡ true) ↔ Permits i c (decode_rule s)
rule_permits_iff i s c = (
  λ h.
      let (listed, caller, has, lacks) = (rule_permits_tests s (2 ^ i) c).0 h in
      record {
        listed =
            ground
              (arith, listed, bit_and-pow i (rule_operations s), bit_at-lt i (rule_operations s));
        for_caller = caller;
        has_required = (bit_and-eq-right_iff _ _).0 has;
        lacks_forbidden = (bit_and-eq-zero_iff _ _).0 lacks;
      },
  λ p. (rule_permits_tests s (2 ^ i) c).1 (
    ground (arith, p.listed, bit_and-pow i (rule_operations s), one-le-pow_two i),
    p.for_caller,
    (bit_and-eq-right_iff _ _).1 p.has_required,
    (bit_and-eq-zero_iff _ _).1 p.lacks_forbidden,
  ),
)

module _ (i : ℕ) (c : Context) where
  encoded_rule_permits_iff :
      (r : Rule) (rest s : List ℕ)
      → s ≡ encode_rule r ++ rest
      → IsRule r
      → (rule_permits s (2 ^ i) c ≡ true) ↔ Permits i c r
  encoded_rule_permits_iff r rest s e h =
      subst (λ x. (rule_permits s (2 ^ i) c ≡ true) ↔ Permits i c x)
        (ap decode_rule e ∙ (decode-encode_rule r rest h).0) (rule_permits_iff i s c)

  -- The loop finds a rule exactly if there is one.
  authorize_rules_iff :
      (rs : List Rule) (k : ℕ) (policy : List ℕ)
      → rule_at k policy ≡ encode_rules rs
      → All IsRule rs
      → (authorize_rules (length rs) k policy (2 ^ i) c ≡ true) ↔ Any (Permits i c) rs
  unfolding authorize_rules
  authorize_rules_iff [] k policy e h = (λ p. cc, λ p. absurd p)
  authorize_rules_iff (r ∷ rs) k policy e h =
      let next = rule_at-suc k policy ∙ ap (drop 14) e ∙ drop-encode_rule r (encode_rules rs) in
      let rest = authorize_rules_iff rs (k + 1) policy next h.1 in
      let one = encoded_rule_permits_iff r (encode_rules rs) (rule_at k policy) e h.0 in
      elim (Bool-cases (rule_permits (rule_at k policy) (2 ^ i) c)) [
        | inl permits ↦ rw permits (λ _. inl (one.0 permits), λ _. refl)
        | inr denies ↦
            rw denies (λ p. inr (rest.0 p), λ q. elim q [ inl p ↦ cc (one.1 p) | inr p ↦ rest.1 p ])
      ]

operation_malformed_tests :
    (operation : ℕ)
    → operation < 2 ^ 16
    → (operation_malformed operation ≡ false)
      ↔ ((0 < operation) × (operation < 0x2000) × (bit_and operation (operation - 1) ≡ 0))
unfolding operation_malformed
operation_malformed_tests operation fits = (
  λ h. (ground arith, ground (arith, operation_in_mask operation (omega arith)), ground arith),
  λ h. ground (arith, operation_in_mask operation (omega arith)),
)

pow-lt : (i : ℕ) → i < 13 → 2 ^ i < 0x2000
pow-lt i below =
    omega (arith, pow-le-pow_right {n = 2} (omega arith) {i = i} {j = 12} (omega arith))

exponent_lt : (i : ℕ) → 2 ^ i < 0x2000 → i < 13
exponent_lt i h = elim (dec_lt i 13) [
  | yes below ↦ below
  | no above ↦
      absurd (omega (arith, pow-le-pow_right {n = 2} (omega arith) {i = 13} {j = i} (omega arith)))
]

-- The guards of `authorize`, on a 16-bit operation and 32-bit facts.
operation_malformed_iff :
    (operation : ℕ)
    → operation < 2 ^ 16
    → (operation_malformed operation ≡ false) ↔ ((i : ℕ) × (i < 13) × (operation ≡ 2 ^ i))
operation_malformed_iff operation fits = (
  λ h.
      let (some_bit, known, single) = (operation_malformed_tests operation fits).0 h in
      let (i, e) = single_bit operation some_bit single in (i, exponent_lt i (omega arith), e),
  λ (i, below, e). rw e (
      (operation_malformed_tests (2 ^ i) (rw (← e) fits)).1
        (one-le-pow_two i, pow-lt i below, single_bit-pow i)),
)

context_malformed_iff : (c : Context) → Fits32 c → (context_malformed c ≡ false) ↔ IsTrusted c
unfolding context_malformed
context_malformed_iff c fits =
    (λ h. ground (arith, fact_in_mask c.facts fits), λ t. ground (arith, fact_in_mask c.facts fits))

authorize_tests :
    (policy : List ℕ) (operation : ℕ) (c : Context)
    → validate (some policy) ≡ Status.ok
    → (authorize (some policy) operation (some c) ≡ true) ↔ (
        (operation_malformed operation ≡ false)
        × (context_malformed c ≡ false)
        × (authorize_rules (get_or policy 1 0) 0 policy operation c ≡ true))
unfolding authorize
authorize_tests policy operation c valid =
    (λ h. (ground arith, ground arith, ground arith), λ h. ground arith)

-- On an encoded policy, an operation of 16 bits and facts of 32 bits, `authorize` says yes exactly
-- if the operation is one of the 13 single operations, the context is trusted, and some rule
-- permits it.
pub authorize_iff :
    (rs : List Rule) (operation : ℕ) (c : Context)
    → All IsRule rs
    → length rs ≤ max_rules
    → operation < 2 ^ 16
    → Fits32 c
    → (authorize (some (encode rs)) operation (some c) ≡ true)
      ↔ ((i : ℕ) × (i < 13) × (operation ≡ 2 ^ i) × IsTrusted c × Any (Permits i c) rs)
authorize_iff rs operation c rules few fits facts =
    let tests = authorize_tests (encode rs) operation c (validate_complete rs rules few) in
    (
      λ h.
          let (single, trusted, found) = tests.0 h in
          let (i, below, e) = (operation_malformed_iff operation fits).0 single in
          (
            i,
            below,
            e,
            (context_malformed_iff c facts).0 trusted,
            (authorize_rules_iff i c rs 0 (encode rs) refl rules).0 (rw e at found),
          ),
      λ (i, below, e, trusted, found). tests.1 (
        (operation_malformed_iff operation fits).1 (i, below, e),
        (context_malformed_iff c facts).1 trusted,
        rw e ((authorize_rules_iff i c rs 0 (encode rs) refl rules).1 found),
      ),
    )
