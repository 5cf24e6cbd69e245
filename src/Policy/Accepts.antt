-- ===== src/Policy/Accepts.antt =====
-- `validate` accepts the encodings of lists of rules, and nothing else.
use key_wallet.Base.{
  ℕ, zero, suc, ◌+◌, ◌*◌, ◌^◌, ◌≤◌, ◌<◌, ◌≡◌, refl, ap, sym, ◌∙◌, ◌↔◌, ◌≢◌, arith,
}
use key_wallet.Base.{List, [], ◌∷◌, ◌++◌, some, true, bit_and, bit_or}
use key_wallet.Base.{
  length, All, All-drop, length-drop, drop, drop-drop, Bool-cases, inl, inr, get_or,
}
use key_wallet.Base.Bits.{bit_and-eq-zero_iff, bit_and-bit_or-eq-zero_iff}
use key_wallet.Base.Bits.Mask.{bit_and-high_mask, bit_and-low_mask}
use key_wallet.Bytes.{Status, IsByte}
use key_wallet.Bytes.Bounds.{get_uint16_be-lt, get_uint32_be-lt}
use key_wallet.Policy.Codec.{
  decode_rule, decode-encode_rule, encode-decode_rule, drop-encode_rule, encode_rules-IsByte,
  length-encode_rules,
}
use key_wallet.Policy.{
  rule_valid, rule_at, validate_rules, validate, rule_operations, rule_required, rule_forbidden,
  rule_namespace, rule_flags, complement, operation_mask, fact_mask, rule_flag_mask, max_rules,
}
use key_wallet.Policy.Rules.{Rule, IsRule, encode_rule, encode_rules, encode}

-- `x & ~mask` is 0 exactly for the values that have no bit above the mask.
pub operation_in_mask :
    (x : ℕ) → x < 2 ^ 32 → (bit_and x (complement operation_mask) ≡ 0) ↔ (x < 0x2000)
operation_in_mask x h =
    (λ e. omega (arith, bit_and-high_mask 13 19 x), λ p. omega (arith, bit_and-high_mask 13 19 x))

pub fact_in_mask : (x : ℕ) → x < 2 ^ 32 → (bit_and x (complement fact_mask) ≡ 0) ↔ (x < 0x800)
fact_in_mask x h =
    (λ e. omega (arith, bit_and-high_mask 11 21 x), λ p. omega (arith, bit_and-high_mask 11 21 x))

flag_in_mask : (x : ℕ) → x < 2 ^ 32 → (bit_and x (complement rule_flag_mask) ≡ 0) ↔ (x ≡ 0)
flag_in_mask x h =
    (λ e. omega (arith, bit_and-low_mask 32 x), λ p. omega (arith, bit_and-low_mask 32 x))

-- The tests of `rule_valid`, one after the other.
rule_valid_tests :
    (s : List ℕ)
    → (rule_valid s ≡ true) ↔ (
        (rule_operations s ≢ 0)
        × (bit_and (rule_operations s) (complement operation_mask) ≡ 0)
        × (bit_and (bit_or (rule_required s) (rule_forbidden s)) (complement fact_mask) ≡ 0)
        × (bit_and (rule_required s) (rule_forbidden s) ≡ 0)
        × (rule_namespace s ≢ 0)
        × (bit_and (rule_flags s) (complement rule_flag_mask) ≡ 0))
unfolding rule_valid
rule_valid_tests s = (
  λ h. (ground arith, ground arith, ground arith, ground arith, ground arith, ground arith),
  λ h. ground arith,
)

module _ (s : List ℕ) (bytes : All IsByte s) where
  operations-lt : rule_operations s < 2 ^ 16
  unfolding rule_operations
  operations-lt = get_uint16_be-lt s bytes

  required-lt : rule_required s < 2 ^ 32
  unfolding rule_required
  required-lt = get_uint32_be-lt (drop 2 s) (All-drop IsByte 2 s bytes)

  forbidden-lt : rule_forbidden s < 2 ^ 32
  unfolding rule_forbidden
  forbidden-lt = get_uint32_be-lt (drop 6 s) (All-drop IsByte 6 s bytes)

  namespace-lt : rule_namespace s < 2 ^ 16
  unfolding rule_namespace
  namespace-lt = get_uint16_be-lt (drop 10 s) (All-drop IsByte 10 s bytes)

  flags-lt : rule_flags s < 2 ^ 16
  unfolding rule_flags
  flags-lt = get_uint16_be-lt (drop 12 s) (All-drop IsByte 12 s bytes)

  -- `rule_valid` tests `IsRule`, and that the flags are 0.
  rule_valid_iff : (rule_valid s ≡ true) ↔ (IsRule (decode_rule s) × (rule_flags s ≡ 0))
  rule_valid_iff = (
    λ h.
        let (some_op, ops, facts, both, ns, flags) = (rule_valid_tests s).0 h in
        let known = (bit_and-bit_or-eq-zero_iff _ _ _).0 facts in
        (
          record {
            some_operation = omega arith;
            known_operations = (operation_in_mask _ (omega (arith, operations-lt))).0 ops;
            known_required = (fact_in_mask _ required-lt).0 known.0;
            known_forbidden = (fact_in_mask _ forbidden-lt).0 known.1;
            consistent = (bit_and-eq-zero_iff _ _).0 both;
            some_namespace = omega arith;
            namespace_fits = namespace-lt;
          },
          (flag_in_mask _ (omega (arith, flags-lt))).0 flags,
        ),
    λ (r, z). (rule_valid_tests s).1 (
      omega (arith, r.some_operation),
      (operation_in_mask _ (omega (arith, operations-lt))).1 r.known_operations,
      (bit_and-bit_or-eq-zero_iff _ _ _).1 (
        (fact_in_mask _ required-lt).1 r.known_required,
        (fact_in_mask _ forbidden-lt).1 r.known_forbidden,
      ),
      (bit_and-eq-zero_iff _ _).1 r.consistent,
      omega (arith, r.some_namespace),
      (flag_in_mask _ (omega (arith, flags-lt))).1 z,
    ),
  )

pub rule_at-suc : (i : ℕ) (policy : List ℕ) → rule_at (i + 1) policy ≡ drop 14 (rule_at i policy)
rule_at-suc i policy =
    let e : 2 + (i + 1) * 14 ≡ 2 + i * 14 + 14 = omega arith in
    rw e (sym (drop-drop 14 (2 + i * 14) policy))

-- What the loop accepts from index `i` on is the encoding of some rules.
validate_rules_sound :
    (n i : ℕ) (policy s : List ℕ)
    → rule_at i policy ≡ s
    → All IsByte s
    → length s ≡ n * 14
    → validate_rules n i policy ≡ Status.ok
    → (rs : List Rule) × (s ≡ encode_rules rs) × All IsRule rs × (length rs ≡ n)
unfolding validate_rules
validate_rules_sound zero i policy [] e bytes size h = ([], refl, tt, refl)
validate_rules_sound zero i policy (b ∷ s) e bytes size h = absurd (omega arith)
validate_rules_sound (suc n) i policy s e bytes size h = elim (Bool-cases (rule_valid s)) [
  | inl good ↦
      let (rule, flags) = (rule_valid_iff s bytes).0 good in
      let (rs, q, all, len) =
        validate_rules_sound n (i + 1) policy (drop 14 s) (rule_at-suc i policy ∙ ap (drop 14) e)
          (All-drop IsByte 14 s bytes) (omega (arith, length-drop 14 s)) (rw (e, good) at h) in
      (
        decode_rule s ∷ rs,
        sym (encode-decode_rule s bytes (omega arith) flags)
            ∙ ap (λ (t : List ℕ). encode_rule (decode_rule s) ++ t) q,
        (rule, all),
        ap suc len,
      )
  | inr bad ↦ absurd (let refused : Status.wrong_data ≡ Status.ok = rw (e, bad) at h in cc)
]

validate_rules_complete :
    (rs : List Rule) (i : ℕ) (policy : List ℕ)
    → rule_at i policy ≡ encode_rules rs
    → All IsRule rs
    → validate_rules (length rs) i policy ≡ Status.ok
unfolding validate_rules
validate_rules_complete [] i policy e h = refl
validate_rules_complete (r ∷ rs) i policy e h =
    let bytes : All IsByte (encode_rules (r ∷ rs)) = encode_rules-IsByte (r ∷ rs) h in
    let (same, flags) = decode-encode_rule r (encode_rules rs) h.0 in
    let good : rule_valid (rule_at i policy) ≡ true =
      rw e ((rule_valid_iff _ bytes).1 (rw same h.0, flags)) in
    rw good (
      validate_rules_complete rs (i + 1) policy
        (rule_at-suc i policy ∙ ap (drop 14) e ∙ drop-encode_rule r (encode_rules rs)) h.1)

-- The header tests that an accepted policy has passed.
validate_header :
    (policy : List ℕ)
    → validate (some policy) ≡ Status.ok
    → (2 ≤ length policy)
      × (get_or policy 0 0 ≡ 1)
      × (get_or policy 1 0 ≤ max_rules)
      × (length policy ≡ 2 + get_or policy 1 0 * 14)
      × (validate_rules (get_or policy 1 0) 0 policy ≡ Status.ok)
unfolding validate
validate_header policy h = (ground arith, ground arith, ground arith, ground arith, ground arith)

validate_sound :
    (policy : List ℕ)
    → All IsByte policy
    → validate (some policy) ≡ Status.ok
    → (rs : List Rule) × (policy ≡ encode rs) × All IsRule rs × (length rs ≤ max_rules)
validate_sound [] bytes h = absurd (omega (arith, (validate_header [] h).0))
validate_sound (v ∷ []) bytes h = absurd (omega (arith, (validate_header (v ∷ []) h).0))
validate_sound (v ∷ n ∷ s) bytes h =
    let (long, version, few, size, loop) = validate_header (v ∷ n ∷ s) h in
    let (rs, q, all, len) =
      validate_rules_sound n 0 (v ∷ n ∷ s) s refl bytes.1.1 (omega arith) loop in
    (rs, ground arith, all, omega arith)

pub validate_complete :
    (rs : List Rule)
    → All IsRule rs
    → length rs ≤ max_rules
    → validate (some (encode rs)) ≡ Status.ok
unfolding validate
validate_complete rs h few =
    ground (arith, length-encode_rules rs, validate_rules_complete rs 0 (encode rs) refl h)

-- On bytes, `validate` answers OK exactly for the encodings of at most eight rules, each well
-- formed.
pub validate-ok_iff :
    (policy : List ℕ)
    → All IsByte policy
    → (validate (some policy) ≡ Status.ok)
      ↔ ((rs : List Rule) × (policy ≡ encode rs) × All IsRule rs × (length rs ≤ max_rules))
validate-ok_iff policy bytes =
    (validate_sound policy bytes, λ (rs, e, all, few). rw e (validate_complete rs all few))
