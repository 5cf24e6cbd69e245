-- ===== src/Base/Tokens.antt =====
-- Tokens: numbers that are tried one after the other, with wrap-around at 2 ^ 32, against those in use.
use key_wallet.Base.{
  not, ◌&&◌, Option, none, some, ◌⊎◌, ◌∙◌, ap, sym, ℕ, zero, suc, ◌+◌, ◌%◌, ◌^◌, ◌≤◌, ◌<◌, ◌≡◌, ◌≢◌,
  refl, Bool, true, false, ◌||◌, List, [], ◌∷◌, ◌==◌, if◌then◌else◌, length, Bool-cases, arith, inl,
  inr,
}

abbrev pub in_list : ℕ → List ℕ → Bool
in_list n [] = false
in_list n (x ∷ xs) = (n == x) || in_list n xs

abbrev without : ℕ → List ℕ → List ℕ
without n [] = []
without n (x ∷ xs) = if n == x then xs else x ∷ without n xs

without-length : (n : ℕ) (xs : List ℕ) → in_list n xs ≡ true → length (without n xs) + 1 ≡ length xs
without-length n [] h = absurd (ground arith)
without-length n (x ∷ xs) h = elim (Bool-cases (n == x)) [
  | inl same ↦ rw same (omega arith)
  | inr differs ↦ rw differs (omega (arith, without-length n xs (rw differs at h)))
]

without-in_list :
    (m n : ℕ) (xs : List ℕ) → m ≢ n → in_list m xs ≡ true → in_list m (without n xs) ≡ true
without-in_list m n [] d h = absurd (ground arith)
without-in_list m n (x ∷ xs) d h = elim (Bool-cases (n == x)) [
  | inl same ↦ rw same (ground arith)
  | inr differs ↦ rw differs (elim (Bool-cases (m == x)) [
    | inl here ↦ rw here refl
    | inr there ↦ rw there (without-in_list m n xs d (rw there at h))
  ])
]

-- So many numbers in a row are all in the list only if it is as long.
pub run_in_list :
    (n a : ℕ) (xs : List ℕ)
    → n ≤ 2 ^ 32
    → ((i : ℕ) → i < n → in_list ((a + i) % 2 ^ 32) xs ≡ true)
    → n ≤ length xs
run_in_list zero a xs small all = omega arith
run_in_list (suc n) a xs small all =
    let last = (a + n) % 2 ^ 32 in
    let rest =
      run_in_list n a (without last xs) (omega arith) (λ i less.
        without-in_list ((a + i) % 2 ^ 32) last xs (apart i less) (all i (omega arith))) in
    omega (arith, rest, without-length last xs (all n (omega arith)))
  where
    apart : (i : ℕ) → i < n → (a + i) % 2 ^ 32 ≢ (a + n) % 2 ^ 32
    apart i less = omega arith

-- The loop that draws a token: the first number from `next` on that is neither 0 nor in use, and the
-- one after it.
unfoldable pub draw : ℕ → ℕ → (ℕ → Bool) → Option (ℕ × ℕ)
draw zero next used = none
draw (suc fuel) next used =
    let following = (next + 1) % 2 ^ 32 in
    let rest = draw fuel following used in
    if not (next == 0) && not (used next) then some (next, following) else rest

or_else : {A : Type 0} → A → Option A → A
or_else d none = d
or_else d (some a) = a

some_inj : {A : Type 0} {a b : A} → some a ≡ some b → a ≡ b
unfolding or_else
some_inj {a = a} e = ap (λ o. or_else a o) e

drawn_token : (p q : ℕ × ℕ) → some p ≡ some q → p.0 ≡ q.0
drawn_token p q e = ap (λ (x : ℕ × ℕ). x.0) (some_inj e)

free_token : (n : ℕ) (b : Bool) → (not (n == 0) && not b) ≡ true → (n ≢ 0) × (b ≡ false)
free_token n b h = ground arith

-- A token that is drawn is free.
pub draw-free :
    (fuel next t following : ℕ) (used : ℕ → Bool)
    → draw fuel next used ≡ some (t, following)
    → (t ≢ 0) × (used t ≡ false)
unfolding draw
draw-free zero next t following used e = absurd (ground arith)
draw-free (suc fuel) next t following used e =
    elim (Bool-cases (not (next == 0) && not (used next))) [
      | inl free ↦
          (let same : next ≡ t = drawn_token _ _ (rw free at e) in
            rw (sym same) (free_token next (used next) free))
      | inr taken ↦ draw-free fuel ((next + 1) % 2 ^ 32) t following used (rw taken at e)
    ]

passed :
    (fuel next : ℕ) (used : ℕ → Bool)
    → draw (suc fuel) next used ≡ none
    → ((not (next == 0) && not (used next)) ≡ false) × (draw fuel ((next + 1) % 2 ^ 32) used ≡ none)
unfolding draw
passed fuel next used e = elim (Bool-cases (not (next == 0) && not (used next))) [
  | inl free ↦ absurd (ground arith)
  | inr taken ↦ (taken, rw taken at e)
]

module _ (used : ℕ → Bool) (xs : List ℕ)
    (listed : (t : ℕ) → used t ≡ true → in_list t xs ≡ true) where
  taken_token : (t : ℕ) → (not (t == 0) && not (used t)) ≡ false → in_list t (0 ∷ xs) ≡ true
  taken_token t e = elim (Bool-cases (t == 0)) [
    | inl zeroth ↦ rw zeroth refl
    | inr other ↦ elim (Bool-cases (used t)) [
      | inl taken ↦ ground (arith, listed t taken)
      | inr free ↦ absurd (ground arith)
    ]
  ]

  all_taken :
      (fuel next : ℕ)
      → draw fuel next used ≡ none
      → next < 2 ^ 32
      → (i : ℕ) → i < fuel
      → in_list ((next + i) % 2 ^ 32) (0 ∷ xs) ≡ true
  all_taken zero next e small i less = absurd (omega arith)
  all_taken (suc fuel) next e small zero less =
      let same : (next + 0) % 2 ^ 32 ≡ next = omega (arith, small) in
      ap (λ (n : ℕ). in_list n (0 ∷ xs)) same ∙ taken_token next (passed fuel next used e).0
  all_taken (suc fuel) next e small (suc i) less =
      let same : ((next + 1) % 2 ^ 32 + i) % 2 ^ 32 ≡ (next + suc i) % 2 ^ 32 = omega arith in
      ap (λ (n : ℕ). in_list n (0 ∷ xs)) (sym same)
      ∙ all_taken fuel ((next + 1) % 2 ^ 32) (passed fuel next used e).1 (omega arith) i
          (omega (arith, less))

  drawn_or_none : (o : Option (ℕ × ℕ)) → (o ≡ none) ⊎ ((p : ℕ × ℕ) × (o ≡ some p))
  drawn_or_none none = inl refl
  drawn_or_none (some p) = inr (p, refl)

  -- Two rounds more than there are tokens in use are enough.
  pub draw-some :
      (next : ℕ)
      → length xs + 2 ≤ 2 ^ 32
      → next < 2 ^ 32
      → (p : ℕ × ℕ) × (draw (length xs + 2) next used ≡ some p) × (p.0 ≢ 0) × (used p.0 ≡ false)
  draw-some next room small = elim (drawn_or_none (draw (length xs + 2) next used)) [
    | inl stuck ↦ absurd (
        omega (
          arith,
          run_in_list (length xs + 2) next (0 ∷ xs) room
              (all_taken (length xs + 2) next stuck small),
        ))
    | inr drawn ↦
        (let p = draw-free (length xs + 2) next drawn.0.0 drawn.0.1 used drawn.1 in
          (drawn.0, drawn.1, p.0, p.1))
  ]
