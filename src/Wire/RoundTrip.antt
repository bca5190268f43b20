-- ===== src/Wire/RoundTrip.antt =====
-- What is written to the wire can be read from it: words, frames and JSON strings.
use playos_compositor.Base.{
  append-nil, length-append, ℕ, suc, ◌-◌, ◌^◌, ◌≤◌, ◌<◌, ◌≡◌, ◌≢◌, refl, false, some, List, [], ◌∷◌,
  ◌++◌, append_assoc, arith, ◌==◌, All, length, take, codes, c_str, take-length-append,
}
use mathlib.Core.Option
use playos_compositor.Wire.Json.{take_value, find_value, json_get_string}
use playos_compositor.Wire.Frame.{
  le32_load, le32_store, frame_of, encode, decode, body, ipc_magic, ipc_max_body,
}
use playos_compositor.Foreground.{member, msg_game_surface_ready}

-- A byte that JSON text may hold as it is: no terminator, no quote, no backslash.
abbrev pub IsPlain : ℕ → Type 0
IsPlain b = (b ≢ 0) × (b ≢ b'"') × (b ≢ 92)

pub c_str-plain : (xs : List ℕ) → All IsPlain xs → c_str xs ≡ xs
unfolding c_str
c_str-plain [] h = refl
c_str-plain (x ∷ xs) h = ground (arith, c_str-plain xs h.1)

-- Any word of 32 bits is read back as it was stored, whatever bytes follow it.
le32_load-store : (v : ℕ) (r : List ℕ) → v < 2 ^ 32 → le32_load (le32_store v ++ r) ≡ v
unfolding le32_load le32_store
le32_load-store v r h = omega arith

le32_load-magic : (r : List ℕ) → le32_load (le32_store ipc_magic ++ r) ≡ ipc_magic
le32_load-magic r = le32_load-store ipc_magic r (omega arith)

pub decode-frame_of :
    (text rest : List ℕ) → length text ≤ ipc_max_body → decode (frame_of text ++ rest) ≡ some text
unfolding decode le32_store
decode-frame_of text rest h = ground (
  arith,
  le32_load-magic (le32_store (length text) ++ (text ++ rest)),
  le32_load-store (length text) (text ++ rest),
  length-append text rest,
  take-length-append text rest,
)

-- Every frame that is encoded to be sent passes the checks of a receiver, and carries exactly its body.
pub decode-encode :
    (type extra buf : List ℕ) → encode type extra ≡ some buf → decode buf ≡ some (body type extra)
unfolding encode
decode-encode type extra buf h =
    let text = body type extra in
    let exact = rw append-nil at (decode-frame_of text []) in ground (arith, exact)

ne-false : (a b : ℕ) → a ≢ b → (a == b) ≡ false
ne-false a b h = ground arith

pub take_value-quote : (r : List ℕ) → take_value (b'"' ∷ r) ≡ some []
unfolding take_value
take_value-quote [] = refl
take_value-quote (y ∷ r) = refl

take_value-cons :
    (x y : ℕ) (r : List ℕ)
    → IsPlain x
    → take_value (x ∷ y ∷ r) ≡ Option.map (◌∷◌ x) (take_value (y ∷ r))
unfolding take_value
take_value-cons x y r h = rw (ne-false x b'"' h.1, ne-false x 92 h.2)

pub take_value-plain : (xs r : List ℕ) → All IsPlain xs → take_value (xs ++ b'"' ∷ r) ≡ some xs
take_value-plain [] r h = take_value-quote r
take_value-plain (x ∷ []) r h = rw (take_value-cons x b'"' r h.0, take_value-quote r)
take_value-plain (x ∷ y ∷ xs) r h =
    rw (take_value-cons x y (xs ++ b'"' ∷ r) h.0, take_value-plain (y ∷ xs) r h.1)

pub find_value-plain :
    (key xs r : List ℕ) → All IsPlain xs → find_value key (xs ++ r) ≡ find_value key r
unfolding find_value
find_value-plain key [] r h = refl
find_value-plain key (x ∷ xs) r h = ground (arith, find_value-plain key xs r h.1)

-- The type of every message, if it has neither quotes nor backslashes nor NUL, can be read from the
-- body that is sent, cut to the buffer less its terminator.
pub json_get_string-body :
    (type extra : List ℕ) (n : ℕ)
    → All IsPlain type
    → json_get_string (body type extra) (codes "type") (suc n) ≡ some (take n type)
unfolding json_get_string body
json_get_string-body type [] n h =
    let less : suc n - 1 ≡ n = omega arith in rw (take_value-plain type (b'}' ∷ []) h, less)
json_get_string-body type (x ∷ extra) n h =
    let less : suc n - 1 ≡ n = omega arith in
    rw (take_value-plain type (b',' ∷ x ∷ (extra ++ b'}' ∷ [])) h, less)

-- The token of GameSurfaceReady can be read from the body that carries it, if it is plain, cut to
-- the buffer less its terminator.
json_get_string-ready :
    (token : List ℕ) (n : ℕ)
    → All IsPlain token
    → json_get_string
        (body msg_game_surface_ready (member (codes "launch_token") token))
        (codes "launch_token")
        (suc n)
      ≡ some (take n token)
unfolding json_get_string body
json_get_string-ready token n h =
    let less : suc n - 1 ≡ n = omega arith in
    rw append_assoc (rw (take_value-plain token (b'}' ∷ []) h, less))
