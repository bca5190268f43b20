-- ===== src/Wire/Grammar/Values.antt =====
-- Values in the grammar, and the scanner's functions from the colon on (src/compositor_ipc.c).
use playos_compositor.Base.{
  ℕ, ◌≡◌, refl, ap, false, some, List, [], ◌∷◌, ◌++◌, ◌==◌, arith, All, Bool-cases, inl, inr,
  Option-cases,
}
use mathlib.Core.Option
use playos_compositor.Wire.Json.{
  is_space, take_value, open_quote, after_colon, value_after, skip_spaces,
}
use playos_compositor.Wire.RoundTrip.{take_value-quote}
use playos_compositor.Wire.Grammar.{IsValue, empty, plain, escape, IsSpace, HasValue}

take_value-step :
    (b : ℕ) (w s : List ℕ)
    → (b == b'"') ≡ false
    → (b == 92) ≡ false
    → take_value (b ∷ (w ++ b'"' ∷ s)) ≡ Option.map (λ v. b ∷ v) (take_value (w ++ b'"' ∷ s))
unfolding take_value
take_value-step b [] s q e = rw (q, e)
take_value-step b (x ∷ w) s q e = rw (q, e)

pub take_value-IsValue : (v s : List ℕ) → IsValue v → take_value (v ++ b'"' ∷ s) ≡ some v
unfolding take_value
take_value-IsValue _ s empty = take_value-quote s
take_value-IsValue _ s (plain b {v} q e h) =
    let q' : (b == b'"') ≡ false = ground arith in
    let e' : (b == 92) ≡ false = ground arith in
    rw (take_value-step b v s q' e', take_value-IsValue v s h)
take_value-IsValue _ s (escape b {v} h) = rw (take_value-IsValue v s h)

skip_spaces-append :
    (ws : List ℕ) (b : ℕ) (r : List ℕ)
    → All IsSpace ws
    → is_space b ≡ false
    → skip_spaces (ws ++ b ∷ r) ≡ b ∷ r
unfolding skip_spaces
skip_spaces-append [] b r h n = rw n
skip_spaces-append (w ∷ ws) b r h n = rw (h.0, skip_spaces-append ws b r h.1 n)

pub value_after-HasValue : (r v : List ℕ) → HasValue v r → value_after r ≡ some v
unfolding value_after after_colon open_quote
value_after-HasValue r v h =
    let after = b'"' ∷ (v ++ b'"' ∷ h.rest) in
    let colon = skip_spaces-append h.before b':' (h.between ++ after) h.spaced refl in
    let quote = skip_spaces-append h.between b'"' (v ++ b'"' ∷ h.rest) h.spaced' refl in
    rw h.text (rw (colon, after_colon, quote, open_quote) (take_value-IsValue v h.rest h.value))

skip_spaces-split : (r : List ℕ) → (ws : List ℕ) × (All IsSpace ws) × (r ≡ ws ++ skip_spaces r)
unfolding skip_spaces
skip_spaces-split [] = ([], tt, refl)
skip_spaces-split (b ∷ r) = elim (Bool-cases (is_space b)) [
  | inl e ↦
      let (ws, spaced, same) = skip_spaces-split r in
      (b ∷ ws, (e, spaced), rw (e, skip_spaces) (ap (◌∷◌ b) same))
  | inr e ↦ ([], tt, rw (e, skip_spaces))
]

-- Where the scanner finds the end of a value.
abbrev Ends : List ℕ → List ℕ → Type 0
Ends r v = (rest : List ℕ) × (r ≡ v ++ b'"' ∷ rest) × IsValue v

take_value-Ends : (r v : List ℕ) → take_value r ≡ some v → Ends r v
unfolding take_value
take_value-Ends [] v h = cc
take_value-Ends (b ∷ []) v h =
    let quote : b ≡ b'"' = ground arith in
    let nothing : v ≡ [] = ground arith in rw (quote, nothing) ([], refl, empty)
take_value-Ends (b ∷ x ∷ r) v h = elim (Bool-cases (b == b'"')) [
  | inl q ↦
      let quote : b ≡ b'"' = ground arith in
      let nothing : v ≡ [] = ground arith in rw (quote, nothing) (x ∷ r, refl, empty)
  | inr q ↦ elim (Bool-cases (b == 92)) [
    | inl e ↦ elim (Option-cases (take_value r)) [
      | inl n ↦ absurd (ground arith)
      | inr (w, m) ↦
          let (rest, ends, value) = take_value-Ends r w m in
          let slash : b ≡ 92 = ground arith in
          let escaped : v ≡ 92 ∷ x ∷ w = ground arith in
          rw (slash, escaped, ends) (rest, refl, escape x value)
    ]
    | inr e ↦ elim (Option-cases (take_value (x ∷ r))) [
      | inl n ↦ absurd (ground arith)
      | inr (w, m) ↦
          let (rest, ends, value) = take_value-Ends (x ∷ r) w m in
          let longer : v ≡ b ∷ w = ground arith in
          rw longer (rest, ap (◌∷◌ b) ends, plain b (ground arith) (ground arith) value)
    ]
  ]
]

open_quote-Ends : (r v : List ℕ) → open_quote r ≡ some v → (s : List ℕ) × (r ≡ b'"' ∷ s) × Ends s v
unfolding open_quote
open_quote-Ends [] v h = cc
open_quote-Ends (b ∷ r) v h = (r, ground arith, take_value-Ends r v (ground arith))

after_colon-split :
    (r v : List ℕ)
    → after_colon r ≡ some v
    → (s : List ℕ) × (r ≡ b':' ∷ s) × (open_quote (skip_spaces s) ≡ some v)
unfolding after_colon
after_colon-split [] v h = cc
after_colon-split (b ∷ r) v h = (r, ground arith, ground arith)

pub HasValue-value_after : (r v : List ℕ) → value_after r ≡ some v → HasValue v r
unfolding value_after
HasValue-value_after r v h =
    let (before, spaced, same) = skip_spaces-split r in
    let (s, colon, h') = after_colon-split (skip_spaces r) v h in
    let (between, spaced', same') = skip_spaces-split s in
    let (t, quote, (rest, ends, value)) = open_quote-Ends (skip_spaces s) v h' in
    record {
      before = before;
      between = between;
      rest = rest;
      spaced = spaced;
      spaced' = spaced';
      text = cc;
      value = value;
    }
