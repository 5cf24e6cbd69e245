-- ===== src/Policy/Codec.antt =====
-- The bytes of one rule: reading back what `encode_rule` writes, and the other way round.
use key_wallet.Base.{ℕ, ◌+◌, ◌*◌, ◌≤◌, ◌≡◌, refl, arith}
use key_wallet.Base.{List, [], ◌∷◌, ◌++◌, length, length-drop, drop, drop-drop, All, All-drop}
use mathlib.Core.List.{append_assoc}
use key_wallet.Bytes.{IsByte, get_uint16_be, get_uint32_be, put_uint16_be, put_uint32_be}
use key_wallet.Bytes.Bounds.{put-get_uint16_be, put-get_uint32_be}
use key_wallet.Policy.{rule_operations, rule_required, rule_forbidden, rule_namespace, rule_flags}
use key_wallet.Policy.Rules.{Rule, IsRule, encode_rule, encode_rules}

-- The rule that 14 bytes spell.
abbrev pub decode_rule : List ℕ → Rule
decode_rule s = record {
  operations = rule_operations s;
  required = rule_required s;
  forbidden = rule_forbidden s;
  namespace = rule_namespace s;
}

pub decode-encode_rule :
    (r : Rule) (rest : List ℕ)
    → IsRule r
    → (decode_rule (encode_rule r ++ rest) ≡ r) × (rule_flags (encode_rule r ++ rest) ≡ 0)
unfolding encode_rule rule_operations rule_required rule_forbidden rule_namespace rule_flags
    get_uint16_be get_uint32_be put_uint16_be put_uint32_be
decode-encode_rule r rest h = ground arith

pub drop-encode_rule : (r : Rule) (rest : List ℕ) → drop 14 (encode_rule r ++ rest) ≡ rest
unfolding encode_rule put_uint16_be put_uint32_be
drop-encode_rule r rest = refl

pub length-encode_rule :
    (r : Rule) (rest : List ℕ) → length (encode_rule r ++ rest) ≡ 14 + length rest
unfolding encode_rule put_uint16_be put_uint32_be
length-encode_rule r rest = omega arith

-- The fields at their offsets, put back one after the other.
module _ (s : List ℕ) (bytes : All IsByte s) (long : 14 ≤ length s) where
  back_uint16 :
      (k : ℕ) → k + 2 ≤ 14 → put_uint16_be (get_uint16_be (drop k s)) ++ drop (k + 2) s ≡ drop k s
  back_uint16 k fits =
      rw (← drop-drop 2 k s)
        (put-get_uint16_be (drop k s) (All-drop IsByte k s bytes) (omega (arith, length-drop k s)))

  back_uint32 :
      (k : ℕ) → k + 4 ≤ 14 → put_uint32_be (get_uint32_be (drop k s)) ++ drop (k + 4) s ≡ drop k s
  back_uint32 k fits =
      rw (← drop-drop 4 k s)
        (put-get_uint32_be (drop k s) (All-drop IsByte k s bytes) (omega (arith, length-drop k s)))

  pub encode-decode_rule : rule_flags s ≡ 0 → encode_rule (decode_rule s) ++ drop 14 s ≡ s
  unfolding encode_rule rule_operations rule_required rule_forbidden rule_namespace rule_flags
  encode-decode_rule flags =
      let last : put_uint16_be 0 ++ drop 14 s ≡ drop 12 s =
        rw flags at (back_uint16 12 (omega arith)) in
      simp (
        append_assoc,
        last,
        back_uint16 10 (omega arith),
        back_uint32 6 (omega arith),
        back_uint32 2 (omega arith),
        back_uint16 0 (omega arith),
      )

pub encode_rule-IsByte :
    (r : Rule) (rest : List ℕ) → IsRule r → All IsByte rest → All IsByte (encode_rule r ++ rest)
unfolding encode_rule put_uint16_be put_uint32_be
encode_rule-IsByte r rest h bytes = ground arith

pub encode_rules-IsByte : (rs : List Rule) → All IsRule rs → All IsByte (encode_rules rs)
encode_rules-IsByte [] h = tt
encode_rules-IsByte (r ∷ rs) h = encode_rule-IsByte r _ h.0 (encode_rules-IsByte rs h.1)

pub length-encode_rules : (rs : List Rule) → length (encode_rules rs) ≡ length rs * 14
length-encode_rules [] = refl
length-encode_rules (r ∷ rs) =
    omega (arith, length-encode_rule r (encode_rules rs), length-encode_rules rs)
