-- ===== src/Apdu/Splice.antt =====
-- FidoAuth/pico-keys-sdk/src/apdu.c: two bytes written into the response buffer, and its frames.
use key_wallet.Base.{
  ◌∙◌, length-take, All, ℕ, zero, suc, ◌+◌, ◌-◌, ◌≤◌, ◌<◌, ◌≡◌, refl, ap, sym, List, [], ◌∷◌, ◌++◌,
  length, take, drop, get_or, set, arith, length-set,
}
use key_wallet.Bytes.{IsByte}
use key_wallet.Apdu.Response.{put2}

-- Writing the two bytes back undoes an announcement.
pub put2_back :
    (at hi lo : ℕ) (b : List ℕ)
    → at + 1 < length b
    → put2 at (get_or b at 0) (get_or b (at + 1) 0) (put2 at hi lo b) ≡ b
unfolding put2
put2_back zero hi lo [] h = elim h [ ]
put2_back zero hi lo (x ∷ []) h = absurd (omega arith)
put2_back zero hi lo (x ∷ y ∷ b) h = refl
put2_back (suc at) hi lo [] h = elim h [ ]
put2_back (suc at) hi lo (x ∷ b) h =
    let e : suc at + 1 ≡ suc (at + 1) = omega arith in
    rw e (ap (λ (l : List ℕ). x ∷ l) (put2_back at hi lo b (omega arith)))

take-drop-set :
    (n k i v : ℕ) (b : List ℕ) → k + n ≤ i → take n (drop k (set b i v)) ≡ take n (drop k b)
take-drop-set n zero i v [] h = refl
take-drop-set zero zero i v (x ∷ b) h = refl
take-drop-set (suc n) zero zero v (x ∷ b) h = absurd (omega arith)
take-drop-set (suc n) zero (suc i) v (x ∷ b) h =
    ap (λ (l : List ℕ). x ∷ l) (take-drop-set n zero i v b (omega arith))
take-drop-set n (suc k) i v [] h = refl
take-drop-set n (suc k) zero v (x ∷ b) h = absurd (omega arith)
take-drop-set n (suc k) (suc i) v (x ∷ b) h = take-drop-set n k i v b (omega arith)

pub take-drop-put2 :
    (n k at hi lo : ℕ) (b : List ℕ)
    → k + n ≤ at
    → take n (drop k (put2 at hi lo b)) ≡ take n (drop k b)
unfolding put2
take-drop-put2 n k at hi lo b h =
    take-drop-set n k (at + 1) lo (set b at hi) (omega arith) ∙ take-drop-set n k at hi b h

pub length-put2 : (at hi lo : ℕ) (b : List ℕ) → length (put2 at hi lo b) ≡ length b
unfolding put2
length-put2 at hi lo b = length-set (set b at hi) (at + 1) lo ∙ length-set b at hi

take-take : (m n : ℕ) (xs : List ℕ) → m ≤ n → take m (take n xs) ≡ take m xs
take-take zero n xs h = refl
take-take (suc m) zero xs h = absurd (omega arith)
take-take (suc m) (suc n) [] h = refl
take-take (suc m) (suc n) (x ∷ xs) h = ap (λ (l : List ℕ). x ∷ l) (take-take m n xs (omega arith))

take-nil : (n : ℕ) → take {A = ℕ} n [] ≡ []
take-nil zero = refl
take-nil (suc n) = refl

pub take-add : (m n : ℕ) (xs : List ℕ) → take (m + n) xs ≡ take m xs ++ take n (drop m xs)
take-add zero n xs = let e : zero + n ≡ n = omega arith in rw e
take-add (suc m) n [] = let e : suc m + n ≡ suc (m + n) = omega arith in rw e (sym (take-nil n))
take-add (suc m) n (x ∷ xs) =
    let e : suc m + n ≡ suc (m + n) = omega arith in
    rw e (ap (λ (l : List ℕ). x ∷ l) (take-add m n xs))

-- A frame without its status word.
abbrev pub payload : List ℕ → List ℕ
payload f = take (length f - 2) f

pub payload-take : (n : ℕ) (xs : List ℕ) → n + 2 ≤ length xs → payload (take (n + 2) xs) ≡ take n xs
payload-take n xs h =
    let e : length (take (n + 2) xs) - 2 ≡ n = omega (arith, length-take (n + 2) xs) in
    rw e (take-take n (n + 2) xs (omega arith))

All-set : (b : List ℕ) (i v : ℕ) → All IsByte b → IsByte v → All IsByte (set b i v)
All-set [] i v h g = tt
All-set (x ∷ b) zero v h g = (g, h.1)
All-set (x ∷ b) (suc i) v h g = (h.0, All-set b i v h.1 g)

pub All-put2 :
    (at hi lo : ℕ) (b : List ℕ)
    → All IsByte b
    → IsByte hi
    → IsByte lo
    → All IsByte (put2 at hi lo b)
unfolding put2
All-put2 at hi lo b h hi_ok lo_ok =
    All-set (set b at hi) (at + 1) lo (All-set b at hi h hi_ok) lo_ok
