-- ===== src/Container/Extensions.antt =====
-- FidoAuth/pico-keys-sdk/src/fs/object_container.c, file_object_extensions_validate: the extensions of
-- a manifest. `data + offset` is the list of the bytes from there on.
use key_wallet.Base.{
  ℕ, zero, suc, ◌+◌, ◌-◌, ◌^◌, ◌≤◌, ◌<◌, ◌≡◌, refl, sym, ◌∙◌, Bool, true, false, not, ◌&&◌, ◌||◌,
  bit_and, List, [], ◌∷◌, ◌++◌, length, drop, get_or, ltb, ◌==◌, if◌then◌else◌, arith, Bool-cases,
  inl, inr, length-append, length-drop, drop-append, drop-drop,
}
use key_wallet.Bytes.{Status, ok, wrong_data, get_uint16_be, put_uint16_be}
use key_wallet.Bytes.RoundTrip.{uint16}

abbrev pub extension_header_size : ℕ
extension_header_size = 4

abbrev pub flag_critical : ℕ
flag_critical = 1

-- `~FILE_OBJECT_EXTENSION_FLAG_CRITICAL` on a byte
abbrev pub unknown_extension_flags : ℕ
unknown_extension_flags = 0xfe

unfoldable pub extension_malformed : List ℕ → Bool
extension_malformed b =
    (get_or b 0 0 == 0)
    || not (bit_and (get_or b 1 0) unknown_extension_flags == 0)
    || ltb (length b - extension_header_size) (get_uint16_be (drop 2 b))

-- A critical extension that is not supported.
unfoldable pub extension_refused : (ℕ → Bool) → List ℕ → Bool
extension_refused supported b =
    not (bit_and (get_or b 1 0) flag_critical == 0) && not (supported (get_or b 0 0))

-- The loop, on fuel, over the bytes that are left.
unfoldable pub extensions_from : ℕ → (ℕ → Bool) → List ℕ → Status
extensions_from zero supported b = ok
extensions_from (suc fuel) supported [] = ok
extensions_from (suc fuel) supported (x ∷ b) =
    let size = get_uint16_be (drop 2 (x ∷ b)) in
    let rest = extensions_from fuel supported (drop (extension_header_size + size) (x ∷ b)) in
    if ltb (length (x ∷ b)) extension_header_size
    then wrong_data
    else if extension_malformed (x ∷ b)
    then wrong_data
    else if extension_refused supported (x ∷ b)
    then wrong_data
    else rest

-- The length is enough fuel: a round takes a byte at least.
unfoldable pub extensions_validate : (ℕ → Bool) → List ℕ → Status
extensions_validate supported b = extensions_from (length b) supported b

pub record Extension : Type 0 where
  pub kind : ℕ
  pub critical : Bool
  pub value : List ℕ

pub record IsExtension (x : Extension) : Type 0 where
  pub named : 0 < x.kind
  pub value_small : length x.value < 2 ^ 16

abbrev flag_of : Bool → ℕ
flag_of true = 1
flag_of false = 0

abbrev pub encode_extension : Extension → List ℕ
encode_extension x = x.kind ∷ flag_of x.critical ∷ (put_uint16_be (length x.value) ++ x.value)

abbrev pub encode_extensions : List Extension → List ℕ
encode_extensions [] = []
encode_extensions (x ∷ xs) = encode_extension x ++ encode_extensions xs

abbrev pub AreExtensions : List Extension → Type 0
AreExtensions [] = Unit {0}
AreExtensions (x ∷ xs) = IsExtension x × AreExtensions xs

-- Every critical one is supported.
abbrev pub all_supported : (ℕ → Bool) → List Extension → Bool
all_supported supported [] = true
all_supported supported (x ∷ xs) =
    not (x.critical && not (supported x.kind)) && all_supported supported xs

refused_by : (c b : Bool) → (not (bit_and (flag_of c) 1 == 0) && b) ≡ (c && b)
refused_by true b = refl
refused_by false b = refl

module _ (supported : ℕ → Bool) (x : Extension) (w : IsExtension x) (rest : List ℕ) where
  size_read : get_uint16_be (drop 2 (encode_extension x ++ rest)) ≡ length x.value
  unfolding put_uint16_be get_uint16_be
  size_read = uint16 (length x.value) w.value_small

  whole_length : length (encode_extension x ++ rest) ≡ 4 + length x.value + length rest
  unfolding put_uint16_be
  whole_length = omega (arith, length-append x.value rest)

  rest_left : drop (4 + length x.value) (encode_extension x ++ rest) ≡ rest
  unfolding put_uint16_be
  rest_left =
      sym (drop-drop (length x.value) 4 (encode_extension x ++ rest)) ∙ drop-append x.value rest

  no_unknown : (c : Bool) → bit_and (flag_of c) 0xfe ≡ 0
  no_unknown true = refl
  no_unknown false = refl

  well_formed : extension_malformed (encode_extension x ++ rest) ≡ false
  unfolding extension_malformed
  well_formed = rw (size_read, whole_length) (ground (arith, no_unknown x.critical, w.named))

  refused :
      extension_refused supported (encode_extension x ++ rest)
      ≡ (x.critical && not (supported x.kind))
  unfolding extension_refused
  refused = refused_by x.critical (not (supported x.kind))

  -- One round over an extension.
  round :
      (fuel : ℕ)
      → extensions_from (suc fuel) supported (encode_extension x ++ rest) ≡ (
          if x.critical && not (supported x.kind)
          then wrong_data
          else extensions_from fuel supported rest)
  unfolding extensions_from
  round fuel =
      let long : ltb (4 + length x.value + length rest) 4 ≡ false = ground arith in
      rw (size_read, rest_left, whole_length, long, well_formed, refused) refl

nothing_left : (fuel : ℕ) (supported : ℕ → Bool) → extensions_from fuel supported [] ≡ ok
unfolding extensions_from
nothing_left zero supported = refl
nothing_left (suc fuel) supported = refl

validated :
    (fuel : ℕ) (supported : ℕ → Bool) (xs : List Extension)
    → AreExtensions xs
    → length (encode_extensions xs) ≤ fuel
    → extensions_from fuel supported (encode_extensions xs)
      ≡ (if all_supported supported xs then ok else wrong_data)
validated zero supported [] w enough = nothing_left zero supported
validated (suc fuel) supported [] w enough = nothing_left (suc fuel) supported
validated zero supported (x ∷ xs) w enough =
    absurd (omega (arith, enough, whole_length supported x w.0 (encode_extensions xs)))
validated (suc fuel) supported (x ∷ xs) w enough =
    let rest = encode_extensions xs in
    let ih =
      validated fuel supported xs w.1 (omega (arith, enough, whole_length supported x w.0 rest)) in
    round supported x w.0 rest fuel ∙ elim (Bool-cases (x.critical && not (supported x.kind))) [
      | inl bad ↦ rw bad refl
      | inr good ↦ rw good ih
    ]

-- The validation of extensions with kinds that are not 0 and values that 16 bits measure, one after
-- the other, answers OK exactly if every critical one is supported, and WRONG_DATA otherwise.
pub extensions_validate-encode_extensions :
    (supported : ℕ → Bool) (xs : List Extension)
    → AreExtensions xs
    → extensions_validate supported (encode_extensions xs)
      ≡ (if all_supported supported xs then ok else wrong_data)
unfolding extensions_validate
extensions_validate-encode_extensions supported xs w =
    validated (length (encode_extensions xs)) supported xs w (omega arith)

same_answer :
    (fuel more : ℕ) (supported : ℕ → Bool) (b : List ℕ)
    → length b ≤ fuel
    → length b ≤ more
    → extensions_from fuel supported b ≡ extensions_from more supported b
unfolding extensions_from
same_answer fuel more supported [] h k =
    nothing_left fuel supported ∙ sym (nothing_left more supported)
same_answer zero more supported (x ∷ b) h k = absurd (omega arith)
same_answer (suc fuel) zero supported (x ∷ b) h k = absurd (omega arith)
same_answer (suc fuel) (suc more) supported (x ∷ b) h k =
    let size = get_uint16_be (drop 2 (x ∷ b)) in
    let left = length-drop (4 + size) (x ∷ b) in
    let ih =
      same_answer fuel more supported (drop (4 + size) (x ∷ b)) (omega (arith, left, h))
        (omega (arith, left, k)) in
    rw ih refl

-- The loop ends on every string of bytes: any fuel that is not below its length gives the same.
pub extensions_validate-fuel :
    (fuel : ℕ) (supported : ℕ → Bool) (b : List ℕ)
    → length b ≤ fuel
    → extensions_from fuel supported b ≡ extensions_validate supported b
unfolding extensions_validate
extensions_validate-fuel fuel supported b h =
    same_answer fuel (length b) supported b h (omega arith)
