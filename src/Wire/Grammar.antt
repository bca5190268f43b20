-- ===== src/Wire/Grammar.antt =====
-- What json_get_string of src/compositor_ipc.c reads, told without the scanner: a grammar for the
-- first member of a key with a string value.
pub mod Values
pub mod Scanner
use playos_compositor.Base.{
  ℕ, suc, ◌-◌, ◌≡◌, ◌≢◌, ◌↔◌, refl, ap, true, false, none, some, List, [], ◌∷◌, ◌++◌, ◌==◌, arith,
  All, take, Bool-cases, inl, inr, Option-cases,
}
use mathlib.Core.Option
use playos_compositor.Wire.Json.{
  is_space, take_value, open_quote, after_colon, value_after, skip_spaces, match_key, found_or,
  find_value, json_get_string,
}
use playos_compositor.Wire.RoundTrip.{take_value-quote}

-- The inside of a string: bytes that are neither a quote nor a backslash, and a backslash with any
-- byte after it.
pub data IsValue : List ℕ → Type 0 where
  empty : IsValue []
  plain : (b : ℕ) {v : List ℕ} → b ≢ b'"' → b ≢ 92 → IsValue v → IsValue (b ∷ v)
  escape : (b : ℕ) {v : List ℕ} → IsValue v → IsValue (92 ∷ b ∷ v)

abbrev pub IsSpace : ℕ → Type 0
IsSpace b = is_space b ≡ true

-- A colon and a string in quotes, with space before each.
pub record HasValue (v : List ℕ) (r : List ℕ) : Type 0 where
  pub before : List ℕ
  pub between : List ℕ
  pub rest : List ℕ
  pub spaced : All IsSpace before
  pub spaced' : All IsSpace between
  pub text : r ≡ before ++ b':' ∷ (between ++ b'"' ∷ (v ++ b'"' ∷ rest))
  pub value : IsValue v

-- The key in quotes.
abbrev pub Starts : List ℕ → List ℕ → Type 0
Starts key text = (r : List ℕ) × (text ≡ b'"' ∷ (key ++ b'"' ∷ r))

-- The first place in a text where the key stands in quotes has the value.
pub data Reads (key v : List ℕ) : List ℕ → Type 0 where
  here :
      {text : List ℕ} (r : List ℕ)
      → text ≡ b'"' ∷ (key ++ b'"' ∷ r)
      → HasValue v r
      → Reads key v text
  later :
      (b : ℕ) {text : List ℕ} → ¬ Starts key (b ∷ text) → Reads key v text → Reads key v (b ∷ text)
