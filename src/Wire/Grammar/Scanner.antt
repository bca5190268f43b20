-- ===== src/Wire/Grammar/Scanner.antt =====
-- The search of json_get_string (src/compositor_ipc.c) and the grammar.
use playos_compositor.Base.{
  ℕ, suc, ◌-◌, ◌≡◌, ◌↔◌, refl, true, false, none, some, List, [], ◌∷◌, ◌++◌, ◌==◌, arith, take,
  Bool-cases, inl, inr, Option-cases,
}
use playos_compositor.Wire.Json.{match_key, found_or, find_value, json_get_string}
use playos_compositor.Wire.Grammar.{IsValue, Starts, Reads, here, later}
use playos_compositor.Wire.Grammar.Values.{value_after-HasValue, HasValue-value_after}

match_key-eq : (key r s : List ℕ) → match_key key r ≡ some s → r ≡ key ++ b'"' ∷ s
unfolding match_key
match_key-eq [] [] s h = cc
match_key-eq [] (q ∷ r) s h = ground arith
match_key-eq (k ∷ ks) [] s h = cc
match_key-eq (k ∷ ks) (b ∷ r) s h = ground (arith, match_key-eq ks r s)

match_key-append : (key s : List ℕ) → match_key key (key ++ b'"' ∷ s) ≡ some s
unfolding match_key
match_key-append [] s = refl
match_key-append (k ∷ ks) s = ground (arith, match_key-append ks s)

not-Starts : (key : List ℕ) (b : ℕ) (r : List ℕ) → match_key key r ≡ none → ¬ Starts key (b ∷ r)
not-Starts key b r h (s, e) = let same : r ≡ key ++ b'"' ∷ s = cc in cc (match_key-append key s)

not-Starts_of_ne : (key : List ℕ) (b : ℕ) (r : List ℕ) → (b == b'"') ≡ false → ¬ Starts key (b ∷ r)
not-Starts_of_ne key b r q (s, e) = ground arith

match_key-none :
    (key : List ℕ) (b : ℕ) (r : List ℕ)
    → (b == b'"') ≡ true
    → ¬ Starts key (b ∷ r)
    → match_key key r ≡ none
match_key-none key b r q n = elim (Option-cases (match_key key r)) [
  | inl e ↦ e
  | inr (t, m) ↦
      let quote : b ≡ b'"' = ground arith in absurd (n (t, rw (quote, match_key-eq key r t m)))
]

pub find_value-Reads : (key text v : List ℕ) → find_value key text ≡ some v → Reads key v text
unfolding find_value
find_value-Reads key [] v h = cc
find_value-Reads key (b ∷ r) v h =
    let rest = find_value-Reads key r v in
    elim (Bool-cases (b == b'"')) [
      | inl q ↦ elim (Option-cases (match_key key r)) [
        | inl n ↦ later b (not-Starts key b r n) (rest (ground arith))
        | inr (t, m) ↦
            let quote : b ≡ b'"' = ground arith in
            here t (rw (quote, match_key-eq key r t m)) (HasValue-value_after t v (ground arith))
      ]
      | inr q ↦ later b (not-Starts_of_ne key b r q) (rest (ground arith))
    ]

Reads-find_value : (key v text : List ℕ) → Reads key v text → find_value key text ≡ some v
unfolding find_value found_or
Reads-find_value key v text (here r e h) =
    rw e (rw (match_key-append key r, value_after-HasValue r v h))
Reads-find_value key v _ (later b {text} n h) =
    let rest = Reads-find_value key v text h in
    elim (Bool-cases (b == b'"')) [
      | inl q ↦ rw (q, match_key-none key b text q n) rest
      | inr q ↦ rw q rest
    ]

pub Reads-IsValue : (key v text : List ℕ) → Reads key v text → IsValue v
Reads-IsValue key v text (here r e h) = h.value
Reads-IsValue key v _ (later b {text} n h) = Reads-IsValue key v text h

-- json_get_string is the grammar: it gives exactly the start, as far as the buffer holds it, of the
-- string value that the grammar reads at the first place of the key in quotes; and nothing where the
-- grammar reads none.
pub json_get_string-Reads :
    (key text w : List ℕ) (n : ℕ)
    → (json_get_string text key (suc n) ≡ some w)
      ↔ ((v : List ℕ) × (Reads key v text) × (w ≡ take n v))
unfolding json_get_string
json_get_string-Reads key text w n = (
  λ h. elim (Option-cases (find_value key text)) [
    | inl e ↦ absurd (ground arith)
    | inr (v, e) ↦ (v, find_value-Reads key text v e, ground arith)
  ],
  λ (v, r, e).
      let less : suc n - 1 ≡ n = omega arith in rw (Reads-find_value key v text r, less, e),
)
