-- ===== src/Wire/Json.antt =====
-- json_get_string of src/compositor_ipc.c. A pointer into the body is the rest of the body from it.
use playos_compositor.Base.{
  ℕ, zero, suc, ◌-◌, Bool, ◌||◌, Option, none, some, List, [], ◌∷◌, ◌==◌, if◌then◌else◌, take,
}
use mathlib.Core.Option

-- ' ', '\t', '\r' or '\n'.
abbrev pub is_space : ℕ → Bool
is_space b = b == 32 || b == 9 || b == 13 || b == 10

unfoldable pub skip_spaces : List ℕ → List ℕ
skip_spaces [] = []
skip_spaces (b ∷ r) = if is_space b then skip_spaces r else b ∷ r

-- What follows the key and its closing quote, where `p + 1` begins with them.
unfoldable pub match_key : List ℕ → List ℕ → Option (List ℕ)
match_key [] [] = none
match_key [] (q ∷ r) = if q == b'"' then some r else none
match_key (k ∷ ks) [] = none
match_key (k ∷ ks) (b ∷ r) = if k == b then match_key ks r else none

-- The value up to its closing quote, escapes skipped over and kept; `none` if the quote is missing.
unfoldable pub take_value : List ℕ → Option (List ℕ)
take_value [] = none
take_value (b ∷ []) = if b == b'"' then some [] else none
take_value (b ∷ x ∷ r) =
    let escaped = Option.map (λ v. b ∷ x ∷ v) (take_value r) in
    let plain = Option.map (λ v. b ∷ v) (take_value (x ∷ r)) in
    if b == b'"' then some [] else if b == 92 then escaped else plain

unfoldable pub open_quote : List ℕ → Option (List ℕ)
unfolding take_value
open_quote [] = none
open_quote (b ∷ r) = if b == b'"' then take_value r else none

unfoldable pub after_colon : List ℕ → Option (List ℕ)
unfolding skip_spaces open_quote
after_colon [] = none
after_colon (b ∷ r) = if b == b':' then open_quote (skip_spaces r) else none

-- What is done once a quoted key is found: the value must follow, or the call fails.
unfoldable pub value_after : List ℕ → Option (List ℕ)
unfolding skip_spaces after_colon
value_after r = after_colon (skip_spaces r)

unfoldable pub found_or : Option (List ℕ) → Option (List ℕ) → Option (List ℕ)
unfolding value_after
found_or (some r) rest = value_after r
found_or none rest = rest

-- The search from one quote to the next (the outer loop).
unfoldable pub find_value : List ℕ → List ℕ → Option (List ℕ)
unfolding match_key found_or
find_value key [] = none
find_value key (b ∷ r) =
    let rest = find_value key r in if b == b'"' then found_or (match_key key r) rest else rest

-- The copy into `out`: at most out_sz - 1 bytes.
abbrev pub clip : ℕ → List ℕ → List ℕ
clip n v = take (n - 1) v

unfoldable pub json_get_string : List ℕ → List ℕ → ℕ → Option (List ℕ)
unfolding find_value
json_get_string raw key zero = none
json_get_string raw key (suc n) = Option.map (clip (suc n)) (find_value key raw)
