-- ===== src/Ipc/Delivery.antt =====
-- From the bytes on the socket to the operation: which frame is dispatched, and to what.
use playos_compositor.Base.{
  ◌≢◌, ◌==◌, ℕ, zero, suc, ◌≤◌, ◌≡◌, refl, ◌∙◌, true, false, none, some, List, [], ◌∷◌, ◌++◌,
  append_assoc, arith, str_eq, codes, All, take, length, take-eq_of_le, Bool-cases, inl, inr,
}
use playos_compositor.Compositor.{game_starting, Compositor, Os, received}
use playos_compositor.Wire.Json.{json_get_string, match_key}
use playos_compositor.Wire.Frame.{decode, body, frame_of, ipc_max_body, le32_store}
use playos_compositor.Wire.RoundTrip.{
  IsPlain, c_str-plain, json_get_string-body, decode-frame_of, take_value-plain, find_value-plain,
}
use playos_compositor.Foreground.{
  transition, member, set_expected_game, handle_clear_expected, force_terminate,
}
use playos_compositor.Overlay.{manager_show, manager_hide}
use playos_compositor.Ipc.{
  Mask, dispatch, dispatch_type, dispatch_set_expected, dispatch_frame, handle_read, fd_handler,
  string_or, msg_set_expected_game, msg_clear_expected_game, msg_force_terminate_game,
  msg_show_overlay, msg_hide_overlay,
}

handle_read_frame :
    (os : Os) (c : Compositor) (b : ℕ) (buf text : List ℕ)
    → decode (b ∷ buf) ≡ some text
    → handle_read os c (some (b ∷ buf)) ≡ dispatch os c text
unfolding handle_read dispatch_frame
handle_read_frame os c b buf text e = rw (e, handle_read, dispatch_frame)

-- On a readable event without hang-up or error, a frame that is read whole and whose body has at
-- most 65536 bytes is dispatched as that body, whatever follows it in the buffer.
pub fd_handler_delivers :
    (os : Os) (c : Compositor) (fd : ℕ) (mask : Mask) (text rest : List ℕ)
    → mask.broken ≡ false
    → mask.readable ≡ true
    → length text ≤ ipc_max_body
    → os.read c.calls fd ≡ some (frame_of text ++ rest)
    → fd_handler os c fd mask ≡ dispatch os (record c { calls = received fd ∷ c.calls }) text
unfolding fd_handler le32_store
fd_handler_delivers os c fd mask text rest b r l e =
    rw (b, r, e) (handle_read_frame os _ _ _ text (decode-frame_of text rest l))

dispatch-body :
    (os : Os) (c : Compositor) (type extra : List ℕ)
    → All IsPlain type
    → length type ≤ 127
    → dispatch os c (body type extra) ≡ dispatch_type os c type (body type extra)
unfolding dispatch
dispatch-body os c type extra h l =
    rw (
      json_get_string-body type extra 127 h,
      dispatch,
      take-eq_of_le 127 type l,
      c_str-plain type h,
    )

-- Each of the four messages without a payload is dispatched to exactly its operation,
-- whatever members follow the type.
dispatch_plain :
    (os : Os) (c : Compositor) (extra : List ℕ)
    → (dispatch os c (body msg_clear_expected_game extra) ≡ handle_clear_expected os c)
      × (dispatch os c (body msg_force_terminate_game extra) ≡ force_terminate os c)
      × (dispatch os c (body msg_show_overlay extra) ≡ manager_show os c)
      × (dispatch os c (body msg_hide_overlay extra) ≡ manager_hide os c)
unfolding dispatch_type str_eq
dispatch_plain os c extra = (
  dispatch-body os c msg_clear_expected_game extra (ground arith) (omega arith),
  dispatch-body os c msg_force_terminate_game extra (ground arith) (omega arith),
  dispatch-body os c msg_show_overlay extra (ground arith) (omega arith),
  dispatch-body os c msg_hide_overlay extra (ground arith) (omega arith),
)

-- The members of SetExpectedGame.
abbrev pub launch : List ℕ → List ℕ → List ℕ
launch token id = member (codes "launch_token") token ++ (b',' ∷ member (codes "game_id") id)

token_of_launch :
    (token id : List ℕ)
    → All IsPlain token
    → json_get_string (body msg_set_expected_game (launch token id)) (codes "launch_token") 64
      ≡ some (take 63 token)
unfolding json_get_string body
token_of_launch token id h = simp append_assoc (rw (take_value-plain token _ h))

-- A plain text that is not the key, closed by a quote, is not taken for the key.
match_key-plain :
    (key xs r : List ℕ)
    → All IsPlain key
    → All IsPlain xs
    → xs ≢ key
    → match_key key (xs ++ b'"' ∷ r) ≡ none
unfolding match_key
match_key-plain [] [] r hk hx n = absurd (n refl)
match_key-plain [] (x ∷ xs) r hk hx n = ground arith
match_key-plain (k ∷ ks) [] r hk hx n = ground arith
match_key-plain (k ∷ ks) (x ∷ xs) r hk hx n = elim (Bool-cases (k == x)) [
  | inl e ↦ rw e (match_key-plain ks xs r hk.1 hx.1 (λ q. n (ground arith)))
  | inr e ↦ rw e refl
]

id_of_launch :
    (token id : List ℕ)
    → All IsPlain token
    → token ≢ codes "game_id"
    → All IsPlain id
    → json_get_string (body msg_set_expected_game (launch token id)) (codes "game_id") 256
      ≡ some (take 255 id)
unfolding json_get_string body
id_of_launch token id h n g = simp append_assoc (
    rw (
      match_key-plain (codes "game_id") token _ (ground arith) h n,
      find_value-plain (codes "game_id") token _ h,
      take_value-plain id _ g,
    ))

IsPlain-take : (n : ℕ) (xs : List ℕ) → All IsPlain xs → All IsPlain (take n xs)
IsPlain-take zero xs h = tt
IsPlain-take (suc n) [] h = tt
IsPlain-take (suc n) (x ∷ xs) h = (h.0, IsPlain-take n xs h.1)

set_expected_launch :
    (os : Os) (c : Compositor) (token id : List ℕ)
    → All IsPlain token
    → token ≢ codes "game_id"
    → All IsPlain id
    → dispatch_set_expected os c (body msg_set_expected_game (launch token id))
      ≡ set_expected_game os c (take 63 token) (take 255 id)
unfolding dispatch_set_expected string_or
set_expected_launch os c token id h n g = rw (
  token_of_launch token id h,
  id_of_launch token id h n g,
  string_or,
  c_str-plain (take 63 token) (IsPlain-take 63 token h),
  c_str-plain (take 255 id) (IsPlain-take 255 id g),
)

-- SetExpectedGame with a plain token, which is not the word game_id, and a plain identifier sets
-- exactly these as the expected launch, each cut to its buffer.
pub dispatch-launch :
    (os : Os) (c : Compositor) (token id : List ℕ)
    → All IsPlain token
    → token ≢ codes "game_id"
    → All IsPlain id
    → dispatch os c (body msg_set_expected_game (launch token id))
      ≡ set_expected_game os c (take 63 token) (take 255 id)
unfolding dispatch_type str_eq
dispatch-launch os c token id h n g =
    dispatch-body os c msg_set_expected_game (launch token id) (ground arith) (omega arith)
    ∙ set_expected_launch os c token id h n g

-- SetExpectedGame that has no launch_token member takes the token from memory that nothing has
-- written: the expected token is what the stack buffer held, and the game is starting all the same.
pub dispatch_token_missing :
    (os : Os) (c : Compositor) (extra : List ℕ)
    → json_get_string (body msg_set_expected_game extra) (codes "launch_token") 64 ≡ none
    → let c' = dispatch os c (body msg_set_expected_game extra) in
      (c'.expected_launch_token ≡ take 63 (os.uninit c.calls 64)) × (c'.fg_state ≡ game_starting)
unfolding dispatch_type str_eq dispatch_set_expected string_or set_expected_game transition
dispatch_token_missing os c extra h =
    rw
      (
        dispatch-body os c msg_set_expected_game extra (ground arith) (omega arith),
        h,
        dispatch_type,
        dispatch_set_expected,
      )
      (ground arith)
