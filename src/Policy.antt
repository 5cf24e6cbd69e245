-- ===== src/Policy.antt =====
-- FidoAuth/pico-keys-sdk/src/fs/object_policy.c: the access policies of stored objects.
-- A policy is a byte string: a version, a count of rules, and 14 bytes for each rule. A null
-- pointer is `none`; `rule` is the suffix of the policy that the C pointer points at.
pub mod Rules
mod Codec
pub mod Decision
pub mod Accepts
use key_wallet.Base.{ℕ, zero, suc, ◌+◌, ◌-◌, ◌*◌, ◌^◌, List, [], Option, none, some}
use key_wallet.Base.{Bool, true, false, not, ◌&&◌, ◌||◌, ltb, ◌==◌, if◌then◌else◌, bit_and, bit_or}
use key_wallet.Base.{length, get_or, drop, take, replicate}
use key_wallet.Bytes.{Status, get_uint16_be, get_uint32_be}

abbrev pub format_version : ℕ
format_version = 1

abbrev pub header_size : ℕ
header_size = 2

abbrev pub rule_size : ℕ
rule_size = 14

abbrev pub max_rules : ℕ
max_rules = 8

abbrev pub namespace_any : ℕ
namespace_any = 0xffff

abbrev pub operation_mask : ℕ
operation_mask = 0x1fff

abbrev pub fact_mask : ℕ
fact_mask = 0x7ff

abbrev pub rule_flag_mask : ℕ
rule_flag_mask = 0

-- `~mask` on 32 bits, the width that both `int` and `uint32_t` have here.
abbrev pub complement : ℕ → ℕ
complement mask = 2 ^ 32 - 1 - mask

-- The authorization context of object_policy.h.
pub record Context : Type 0 where
  pub facts : ℕ
  pub session_epoch : ℕ
  pub facts_epoch : ℕ
  pub caller_namespace : ℕ

-- The fields of the rule that starts the list.
unfoldable pub rule_operations : List ℕ → ℕ
rule_operations rule = get_uint16_be (drop 0 rule)

unfoldable pub rule_required : List ℕ → ℕ
rule_required rule = get_uint32_be (drop 2 rule)

unfoldable pub rule_forbidden : List ℕ → ℕ
rule_forbidden rule = get_uint32_be (drop 6 rule)

unfoldable pub rule_namespace : List ℕ → ℕ
rule_namespace rule = get_uint16_be (drop 10 rule)

unfoldable pub rule_flags : List ℕ → ℕ
rule_flags rule = get_uint16_be (drop 12 rule)

unfoldable pub rule_valid : List ℕ → Bool
rule_valid rule =
    let operations = rule_operations rule in
    let required = rule_required rule in
    let forbidden = rule_forbidden rule in
    if operations == 0 || not (bit_and operations (complement operation_mask) == 0)
    then false
    else if not (bit_and (bit_or required forbidden) (complement fact_mask) == 0)
        || not (bit_and required forbidden == 0)
    then false
    else if rule_namespace rule == 0
        || not (bit_and (rule_flags rule) (complement rule_flag_mask) == 0)
    then false
    else true

-- `policy.data + FILE_OBJECT_POLICY_HEADER_SIZE + i * FILE_OBJECT_POLICY_RULE_SIZE`
abbrev pub rule_at : ℕ → List ℕ → List ℕ
rule_at i policy = drop (header_size + i * rule_size) policy

-- The loop of `file_object_policy_validate` with `n` rounds left, at index `i`.
unfoldable pub validate_rules : ℕ → ℕ → List ℕ → Status
validate_rules zero i policy = Status.ok
validate_rules (suc n) i policy =
    let rest = validate_rules n (i + 1) policy in
    if not (rule_valid (rule_at i policy)) then Status.wrong_data else rest

unfoldable pub validate : Option (List ℕ) → Status
validate none = Status.null_param
validate (some policy) =
    if ltb (length policy) header_size
      || not (get_or policy 0 0 == format_version)
      || ltb max_rules (get_or policy 1 0)
    then Status.wrong_data
    else if not (length policy == header_size + get_or policy 1 0 * rule_size)
    then Status.wrong_length
    else validate_rules (get_or policy 1 0) 0 policy

-- The test of one rule in `file_object_policy_authorize`.
unfoldable pub rule_permits : List ℕ → ℕ → Context → Bool
rule_permits rule operation context =
    not (bit_and (rule_operations rule) operation == 0)
    && (rule_namespace rule == namespace_any || rule_namespace rule == context.caller_namespace)
    && (bit_and context.facts (rule_required rule) == rule_required rule)
    && (bit_and context.facts (rule_forbidden rule) == 0)

unfoldable pub authorize_rules : ℕ → ℕ → List ℕ → ℕ → Context → Bool
authorize_rules zero i policy operation context = false
authorize_rules (suc n) i policy operation context =
    let rest = authorize_rules n (i + 1) policy operation context in
    if rule_permits (rule_at i policy) operation context then true else rest

-- The two guards of `file_object_policy_authorize` before its loop.
unfoldable pub operation_malformed : ℕ → Bool
operation_malformed operation =
    operation == 0
    || not (bit_and operation (complement operation_mask) == 0)
    || not (bit_and operation (operation - 1) == 0)

unfoldable pub context_malformed : Context → Bool
context_malformed c =
    c.caller_namespace == 0
    || c.caller_namespace == namespace_any
    || c.session_epoch == 0
    || not (c.session_epoch == c.facts_epoch)
    || not (bit_and c.facts (complement fact_mask) == 0)

abbrev pub is_ok : Status → Bool
is_ok Status.ok = true
is_ok _ = false

authorize_with : Status → List ℕ → ℕ → Context → Bool
authorize_with status policy operation c =
    if not (is_ok status)
    then false
    else if operation_malformed operation
    then false
    else if context_malformed c
    then false
    else authorize_rules (get_or policy 1 0) 0 policy operation c

-- A null policy or a null context is refused.
unfoldable pub authorize : Option (List ℕ) → ℕ → Option Context → Bool
unfolding authorize_with
authorize none operation context = false
authorize (some policy) operation none = false
authorize (some policy) operation (some c) =
    authorize_with (validate (some policy)) policy operation c

abbrev pub policy_hash_size : ℕ
policy_hash_size = 16

-- `file_object_policy_hash` over the digest `sha256` of the crypto library, which may fail: the
-- status and the 16 bytes that the output buffer holds. `given` says that the buffer is not null.
module _ (sha256 : List ℕ → Option (List ℕ)) where
  hash_digest : Option (List ℕ) → Status × List ℕ
  hash_digest none = (Status.exec_error, replicate policy_hash_size 0)
  hash_digest (some full) = (Status.ok, take policy_hash_size full)

  hash_with : Status → Option (List ℕ) → Status × List ℕ
  unfolding hash_digest
  hash_with Status.ok (some policy) = hash_digest (sha256 policy)
  hash_with status policy = (status, replicate policy_hash_size 0)

  unfoldable pub policy_hash : Bool → Option (List ℕ) → Status × List ℕ
  unfolding hash_with
  policy_hash given policy =
      if not given then (Status.null_param, []) else hash_with (validate policy) policy
