-- ===== src/Objects/Draw.antt =====
-- FidoAuth/pico-keys-sdk/src/fs/object_store.c, file_object_allocate_token: its loop.
use key_wallet.Base.{
  ℕ, zero, suc, ◌+◌, ◌%◌, ◌^◌, ◌≤◌, ◌<◌, ◌≡◌, ◌≢◌, ap, ◌∙◌, true, false, refl, sym, List, [], ◌∷◌,
  some, ◌==◌, length, Bool-cases, arith, inl, inr,
}
use key_wallet.Base.Tokens.{in_list, draw, draw-some}
use key_wallet.Objects.Handles.{
  Entry, Handles, find_in, find_handle, is_some, handle_in_use, allocate_from, allocate_token,
}

abbrev tokens : List Entry → List ℕ
tokens [] = []
tokens (e ∷ es) = e.token ∷ tokens es

tokens-length : (es : List Entry) → length (tokens es) ≡ length es
tokens-length [] = refl
tokens-length (e ∷ es) = omega (arith, tokens-length es)

found_token :
    (t : ℕ) (es : List Entry) → is_some (find_in t es) ≡ true → in_list t (tokens es) ≡ true
unfolding find_in is_some
found_token t [] h = h
found_token t (e ∷ es) h = elim (Bool-cases (e.token == t)) [
  | inl same ↦ ground arith
  | inr differs ↦ ground (arith, found_token t es (rw differs at h))
]

used_token : (t : ℕ) (h : Handles) → handle_in_use t h ≡ true → in_list t (tokens h.entries) ≡ true
unfolding find_handle handle_in_use is_some
used_token t h e = elim (Bool-cases (t == 0)) [
  | inl zeroth ↦ absurd (ground arith)
  | inr other ↦ found_token t h.entries (rw other at e)
]

pub allocate_from-draw :
    (fuel next : ℕ) (h : Handles)
    → allocate_from fuel next h ≡ draw fuel next (λ t. handle_in_use t h)
unfolding allocate_from draw
allocate_from-draw zero next h = refl
allocate_from-draw (suc fuel) next h = rw (allocate_from-draw fuel ((next + 1) % 2 ^ 32) h) refl

-- With at most 2 ^ 32 - 2 entries and a next token below 2 ^ 32, two rounds more than there are
-- entries are enough to draw a token; it is not 0 and no entry has it.
pub allocate_token-some :
    (h : Handles)
    → length h.entries + 2 ≤ 2 ^ 32
    → h.next_handle < 2 ^ 32
    → (p : ℕ × ℕ) × (allocate_token h ≡ some p) × (p.0 ≢ 0) × (handle_in_use p.0 h ≡ false)
unfolding allocate_token
allocate_token-some h room small =
    let e = tokens-length h.entries in
    let p =
      draw-some (λ t. handle_in_use t h) (tokens h.entries) (λ t. used_token t h) h.next_handle
        (omega (arith, e, room)) small in
    (
      p.0,
      allocate_from-draw (length h.entries + 2) h.next_handle h
          ∙ ap (λ (n : ℕ). draw (n + 2) h.next_handle (λ t. handle_in_use t h)) (sym e)
          ∙ p.1,
      p.2,
      p.3,
    )
