-- ===== src/Machine/Messages/Echo.antt =====
-- The token of a launch on its way through the compositor: from SetExpectedGame to GameSurfaceReady.
use playos_compositor.Base.{
  ℕ, zero, suc, ◌≤◌, ◌≡◌, refl, ap, ◌∙◌, Option, none, some, List, [], ◌∷◌, ◌++◌, append_assoc,
  append-nil, arith, All, length, take, codes, c_str, length-append, take-eq_of_le,
}
use mathlib.Core.Option
use playos_compositor.Compositor.{Compositor, Os, ForegroundState}
use playos_compositor.Wire.Json.{take_value, find_value, json_get_string}
use playos_compositor.Wire.Frame.{body, frame_of, decode, ipc_max_body}
use playos_compositor.Wire.Grammar.Values.{take_value-IsValue}
use playos_compositor.Wire.Grammar.Scanner.{find_value-Reads, Reads-IsValue}
use playos_compositor.Wire.RoundTrip.{IsPlain, decode-frame_of}
use playos_compositor.Foreground.{
  member, snprintf, msg_game_surface_ready, set_expected_game, transition, reset_overlay,
}
use playos_compositor.Ipc.{dispatch_set_expected, string_or}
use playos_compositor.Machine.Messages.{ready_frame}

-- The launch_token that a receiver reads from a frame.
abbrev pub token_read : List ℕ → Option (List ℕ)
token_read buf = elim (decode buf) [
  | none ↦ none
  | some text ↦ json_get_string text (codes "launch_token") 64
]

token_read-frame_of :
    (text : List ℕ)
    → length text ≤ ipc_max_body
    → token_read (frame_of text) ≡ json_get_string text (codes "launch_token") 64
token_read-frame_of text l =
    let read : decode (frame_of text) ≡ some text = rw append-nil at (decode-frame_of text [] l) in
    rw (read, token_read)

json_get_string-token :
    (token : List ℕ)
    → json_get_string
        (body msg_game_surface_ready (member (codes "launch_token") token))
        (codes "launch_token")
        64
      ≡ Option.map (take 63) (take_value (token ++ b'"' ∷ b'}' ∷ []))
unfolding json_get_string body
json_get_string-token token = rw append_assoc

-- What a receiver reads from the frame for a token is what stands before the closing quote.
token_read-ready :
    (token : List ℕ)
    → length token ≤ 63
    → token_read (ready_frame token) ≡ Option.map (take 63) (take_value (token ++ b'"' ∷ b'}' ∷ []))
unfolding body
token_read-ready token l =
    let key = member (codes "launch_token") token in
    let size = length-append token (codes "\"") in
    let whole : snprintf 192 key ≡ key = take-eq_of_le 191 key (omega (arith, size)) in
    ap (λ x. token_read (frame_of (body msg_game_surface_ready x))) whole
    ∙ (token_read-frame_of (body msg_game_surface_ready key)
          (omega (arith, size, length-append (token ++ codes "\"") (codes "}")))
        ∙ json_get_string-token token)

transition_token :
    (os : Os) (c : Compositor) (s : ForegroundState)
    → (transition os c s).expected_launch_token ≡ c.expected_launch_token
unfolding transition reset_overlay
transition_token os c s = ground arith

abbrev launched : Os → Compositor → List ℕ → List ℕ
launched os c text = (dispatch_set_expected os c text).expected_launch_token

launched_token :
    (os : Os) (c : Compositor) (text v : List ℕ)
    → find_value (codes "launch_token") text ≡ some v
    → launched os c text ≡ take 63 (c_str (take 63 v))
unfolding dispatch_set_expected set_expected_game string_or json_get_string
launched_token os c text v h = rw (transition_token os, h)

-- The token that SetExpectedGame brought, whatever escapes it holds, is what json_get_string reads
-- from the GameSurfaceReady frame of that launch, if it has at most 63 bytes and no NUL.
pub token_echo :
    (os : Os) (c : Compositor) (text v : List ℕ)
    → find_value (codes "launch_token") text ≡ some v
    → length v ≤ 63
    → c_str v ≡ v
    → token_read (ready_frame (dispatch_set_expected os c text).expected_launch_token) ≡ some v
token_echo os c text v h l z =
    let value = Reads-IsValue (codes "launch_token") v text (find_value-Reads _ text v h) in
    let fits = take-eq_of_le 63 v l in
    let same : launched os c text ≡ v = rw (launched_token os c text v h, fits, z, fits) in
    rw (same, token_read-ready v l, take_value-IsValue v (b'}' ∷ []) value, fits)

take-cut :
    (n : ℕ) (xs : List ℕ) (y : ℕ) (ys : List ℕ)
    → length xs ≡ n
    → take (suc n) (xs ++ y ∷ ys) ≡ xs ++ y ∷ []
take-cut zero [] y ys h = refl
take-cut zero (x ∷ xs) y ys h = absurd (omega arith)
take-cut (suc n) [] y ys h = absurd (omega arith)
take-cut (suc n) (x ∷ xs) y ys h = ap (◌∷◌ x) (take-cut n xs y ys (omega arith))

c_str-cut : (xs : List ℕ) → All IsPlain xs → c_str (xs ++ 92 ∷ []) ≡ xs ++ 92 ∷ []
unfolding c_str
c_str-cut [] h = refl
c_str-cut (x ∷ xs) h = ground (arith, c_str-cut xs h.1)

take_value-cut : (xs : List ℕ) → All IsPlain xs → take_value (xs ++ 92 ∷ b'"' ∷ b'}' ∷ []) ≡ none
unfolding take_value
take_value-cut [] h = refl
take_value-cut (x ∷ []) h = ground (arith, take_value-cut [] tt)
take_value-cut (x ∷ y ∷ xs) h = ground (arith, take_value-cut (y ∷ xs) h.1)

-- A token whose 63rd byte begins an escape, after plain bytes, is cut within that escape: then
-- json_get_string reads no token from the GameSurfaceReady frame of that launch.
pub cut_escape-unreadable :
    (os : Os) (c : Compositor) (text before after : List ℕ) (b : ℕ)
    → All IsPlain before
    → length before ≡ 62
    → find_value (codes "launch_token") text ≡ some (before ++ 92 ∷ b ∷ after)
    → token_read (ready_frame (dispatch_set_expected os c text).expected_launch_token) ≡ none
cut_escape-unreadable os c text before after b p l h =
    let cut = before ++ 92 ∷ [] in
    let at_end : take 63 (before ++ 92 ∷ b ∷ after) ≡ cut = take-cut 62 before 92 (b ∷ after) l in
    let at_end' : take 63 cut ≡ cut = take-cut 62 before 92 [] l in
    let same : launched os c text ≡ cut =
      rw (launched_token os c text _ h, at_end, c_str-cut before p, at_end') in
    rw (
      same,
      token_read-ready cut (omega (arith, length-append before (92 ∷ []))),
      append_assoc,
      take_value-cut before p,
    )
