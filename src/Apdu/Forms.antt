-- ===== src/Apdu/Forms.antt =====
-- FidoAuth/pico-keys-sdk/src/apdu.c, apdu_process: the forms of a command APDU of ISO 7816-4.
use key_wallet.Base.{
  drop, drop-append, ◌^◌, ◌*◌, ◌/◌, ◌-◌, ℕ, ◌+◌, ◌%◌, ◌≤◌, ◌<◌, ◌≡◌, refl, List, [], ◌∷◌, ◌++◌,
  Option, none, some, length, take, get_or, arith, length-append, append-nil, take-append,
}
use key_wallet.Bytes.{get_uint16_be, put_uint16_be}
use key_wallet.Apdu.{extended, Header, parse, short, expected, command, header_of}

abbrev pub header_bytes : Header → List ℕ
header_bytes h = h.cla ∷ h.ins ∷ h.p1 ∷ h.p2 ∷ []

-- The expected length, if it is given: 1 to 256 in one byte, the largest as 0.
abbrev pub le_short : Option ℕ → List ℕ
le_short none = []
le_short (some ne) = ne % 256 ∷ []

abbrev pub given : Option ℕ → ℕ
given none = 0
given (some ne) = ne

abbrev pub Fits : ℕ → Option ℕ → Type 0
Fits largest none = Unit
Fits largest (some ne) = (0 < ne) × (ne ≤ largest)

-- A command with a body in the short form.
abbrev pub encode_short : Header → List ℕ → Option ℕ → List ℕ
encode_short h body le = header_bytes h ++ (length body ∷ (body ++ le_short le))

get_or-append : (xs ys : List ℕ) (y : ℕ) → get_or (xs ++ (y ∷ ys)) (length xs) 0 ≡ y
get_or-append [] ys y = refl
get_or-append (x ∷ xs) ys y = get_or-append xs ys y

take_all {ℓ} : {A : Type ℓ} (xs : List A) → take (length xs) xs ≡ xs
take_all [] = refl
take_all (x ∷ xs) = rw (take_all xs)

length_one {ℓ} : {A : Type ℓ} (xs : List A) (x : A) → length (xs ++ (x ∷ [])) ≡ length xs + 1
length_one xs x = length-append xs (x ∷ [])

-- A command with a body of 1 to 255 bytes in the short form is parsed to its header, its body and
-- the expected length it gives (0 if none).
pub parse-encode_short :
    (h : Header) (body : List ℕ) (le : Option ℕ)
    → 0 < length body
    → length body < 256
    → Fits 256 le
    → parse (encode_short h body le)
      ≡ some (record { header = h; nc = length body; ne = given le; body = body })
unfolding parse short expected command header_of
parse-encode_short h body none pos small fits = ground (arith, append-nil body, take_all body)
parse-encode_short h body (some ne) pos small fits = ground (
  arith,
  length-append body (ne % 256 ∷ []),
  take-append body (ne % 256 ∷ []),
  get_or-append body [] (ne % 256),
  length_one body (ne % 256),
)

sixteen : (n : ℕ) → n < 2 ^ 16 → n / 256 % 256 * 256 + n % 256 ≡ n
sixteen n h = omega arith

-- The expected length in the extended form: 1 to 65536 in two bytes, the largest as 0.
abbrev pub le_extended : Option ℕ → List ℕ
le_extended none = []
le_extended (some ne) = put_uint16_be ne

abbrev pub encode_extended : Header → List ℕ → Option ℕ → List ℕ
encode_extended h body le =
    header_bytes h ++ (0 ∷ (put_uint16_be (length body) ++ (body ++ le_extended le)))

last_two :
    (xs : List ℕ) (hi lo : ℕ)
    → drop (length (xs ++ (hi ∷ lo ∷ [])) - 2) (xs ++ (hi ∷ lo ∷ [])) ≡ hi ∷ lo ∷ []
last_two xs hi lo =
    let e = length-append xs (hi ∷ lo ∷ []) in
    let n : length (xs ++ (hi ∷ lo ∷ [])) - 2 ≡ length xs = omega (arith, e) in
    rw n (drop-append xs (hi ∷ lo ∷ []))

expected_two :
    (ne : ℕ) → 0 < ne → ne ≤ 65536 → expected (ne / 256 % 256 * 256 + ne % 256) 65536 ≡ ne
unfolding expected
expected_two ne pos max = ground arith

-- A command with a body of at least one byte in the extended form, with at most 65535 bytes in all,
-- is parsed to its header, its body and the expected length it gives (0 if none).
pub parse-encode_extended :
    (h : Header) (body : List ℕ) (le : Option ℕ)
    → 0 < length body
    → length (encode_extended h body le) < 2 ^ 16
    → Fits 65536 le
    → parse (encode_extended h body le)
      ≡ some (record { header = h; nc = length body; ne = given le; body = body })
unfolding parse extended command header_of put_uint16_be get_uint16_be
parse-encode_extended h body none pos small fits =
    let few : length body < 2 ^ 16 = omega (arith, small, length-append body []) in
    ground (arith, append-nil body, take_all body, sixteen (length body) few)
parse-encode_extended h body (some ne) pos small fits =
    let hi = ne / 256 % 256 in
    let lo = ne % 256 in
    let n = length body in
    let few : n < 2 ^ 16 = omega (arith, small, length-append body (hi ∷ lo ∷ [])) in
    let front = h.cla ∷ h.ins ∷ h.p1 ∷ h.p2 ∷ 0 ∷ n / 256 % 256 ∷ n % 256 ∷ [] in
    ground (
      arith,
      take-append body (hi ∷ lo ∷ []),
      length-append body (hi ∷ lo ∷ []),
      last_two (front ++ body) hi lo,
      expected_two ne fits.0 fits.1,
      sixteen n few,
    )
