-- ===== src/Policy/Rules.antt =====
-- Policies as data, apart from their bytes: what a rule is, when it permits an operation, and the
-- byte string of a list of rules.
use key_wallet.Base.{ℕ, ◌^◌, ◌<◌, ◌≡◌, ◌≢◌, ◌⊎◌, List, [], ◌∷◌, ◌++◌}
use key_wallet.Base.{length}
use key_wallet.Base.Bits.{bit_at, HasBits, NoCommonBit}
use key_wallet.Bytes.{put_uint16_be, put_uint32_be}
use key_wallet.Policy.{Context, namespace_any}

pub record Rule : Type 0 where
  pub operations : ℕ
  pub required : ℕ
  pub forbidden : ℕ
  pub namespace : ℕ

-- At least one operation of the 13, facts of the 11 known ones, none both required and forbidden,
-- and a namespace.
pub record IsRule (r : Rule) : Type 0 where
  pub some_operation : 0 < r.operations
  pub known_operations : r.operations < 0x2000
  pub known_required : r.required < 0x800
  pub known_forbidden : r.forbidden < 0x800
  pub consistent : NoCommonBit r.required r.forbidden
  pub some_namespace : 0 < r.namespace
  pub namespace_fits : r.namespace < 2 ^ 16

-- 14 bytes, the flags 0.
unfoldable pub encode_rule : Rule → List ℕ
encode_rule r =
    put_uint16_be r.operations
    ++ (put_uint32_be r.required
        ++ (put_uint32_be r.forbidden ++ (put_uint16_be r.namespace ++ put_uint16_be 0)))

abbrev pub encode_rules : List Rule → List ℕ
encode_rules [] = []
encode_rules (r ∷ rs) = encode_rule r ++ encode_rules rs

abbrev pub encode : List Rule → List ℕ
encode rs = 1 ∷ length rs ∷ encode_rules rs

-- The rule permits operation number `i`: it lists it, it is for this caller, the caller has every
-- required fact and no forbidden one.
pub record Permits (i : ℕ) (c : Context) (r : Rule) : Type 0 where
  pub listed : bit_at i r.operations ≡ 1
  pub for_caller : (r.namespace ≡ namespace_any) ⊎ (r.namespace ≡ c.caller_namespace)
  pub has_required : HasBits c.facts r.required
  pub lacks_forbidden : NoCommonBit c.facts r.forbidden

-- A named caller in a session whose facts are of this session, with known facts only.
pub record IsTrusted (c : Context) : Type 0 where
  pub caller_named : c.caller_namespace ≢ 0
  pub caller_single : c.caller_namespace ≢ namespace_any
  pub in_session : c.session_epoch ≢ 0
  pub fresh : c.session_epoch ≡ c.facts_epoch
  pub known : c.facts < 0x800

abbrev pub Fits32 : Context → Type 0
Fits32 c = c.facts < 2 ^ 32
