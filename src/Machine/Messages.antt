-- ===== src/Machine/Messages.antt =====
-- The messages that a step sends to playos-init.
pub mod Quiet
pub mod Steps
pub mod Echo
use playos_compositor.Base.{
  ℕ, ◌≡◌, ◌≤◌, ◌<◌, ◌+◌, refl, ap, ◌∙◌, Bool, true, false, Option, none, some, List, [], ◌∷◌, ◌++◌,
  arith, codes, ◌&&◌, ◌||◌, length, take, length-append, length-take-le, if◌then◌else◌, Bool-cases,
  inl, inr, Option-cases, is_some, leb,
}
use playos_compositor.Compositor.{
  Compositor, Track, Os, ForegroundState, shell_foreground, game_starting, game_foreground,
  playos_ui_foreground_with_game_background, terminating_game, state_is, Call, sent, SendResult,
  count, interrupted, failed,
}
use playos_compositor.Wire.Frame.{
  body, frame_of, encode, frame_send, send_twice, after_send, ipc_max_body,
}
use playos_compositor.Foreground.{
  foreground_state_name, msg_state_changed, msg_game_surface_ready, member, snprintf, ipc_calls,
  ipc_send, announce, transition, reset_overlay, refresh, set_expected_game, handle_clear_expected,
  force_terminate, surface_ready, announce_ready, game_exited, has_game, send_output_info,
  send_about_to_show, send_about_to_hide, clear_expected,
}
use playos_compositor.Overlay.{manager_show, manager_hide}
use playos_compositor.Machine.Rule.{if-keeps, if-split}
use playos_compositor.Machine.Announced.{state_frame, encode-state}

-- The frames handed to send(2), the latest first.
unfoldable pub messages : List Call → List (List ℕ)
messages [] = []
messages (sent fd buf ∷ calls) = buf ∷ messages calls
messages (_ ∷ calls) = messages calls

-- GameSurfaceReady with the token of a launch.
abbrev pub ready_frame : List ℕ → List ℕ
ready_frame token =
    frame_of (body msg_game_surface_ready (snprintf 192 (member (codes "launch_token") token)))

-- A frame, where the link is up.
unfoldable over : Option ℕ → List ℕ → List (List ℕ)
over none frame = []
over (some fd) frame = frame ∷ []

-- What a change of the state says over the link: the new state, and before it that the game is
-- ready where a game that was starting is now in the foreground.
unfoldable pub changes : Option ℕ → ForegroundState → ForegroundState → List (List ℕ)
unfolding over
changes fd old new = if state_is old new then [] else over fd (state_frame new)

unfoldable pub readies : Option ℕ → ForegroundState → ForegroundState → List ℕ → List (List ℕ)
unfolding over
readies fd old new token =
    if state_is old game_starting && state_is new game_foreground
    then over fd (ready_frame token)
    else []

-- From a state to the next, exactly that is said.
pub record Says (c : Compositor) (c' : Compositor) : Type 0 where
  pub said :
      messages c'.calls
      ≡ changes c.link.sock_fd c.fg_state c'.fg_state
        ++ (readies c.link.sock_fd c.fg_state c'.fg_state c.expected_launch_token
            ++ messages c.calls)

abbrev pub is_interrupted : SendResult → Bool
is_interrupted interrupted = true
is_interrupted _ = false

encode-fits :
    (type extra : List ℕ)
    → length (body type extra) < ipc_max_body
    → encode type extra ≡ some (frame_of (body type extra))
unfolding encode
encode-fits type extra h =
    let fits : leb ipc_max_body (length (body type extra)) ≡ false = ground arith in rw fits

length-ready :
    (text : List ℕ)
    → length text ≤ 175
    → length (body msg_game_surface_ready (codes "\"launch_token\":\"" ++ text)) < ipc_max_body
unfolding body
length-ready text h = omega (arith, length-append text (codes "}"))

encode-ready :
    (token : List ℕ)
    → encode msg_game_surface_ready (snprintf 192 (member (codes "launch_token") token))
      ≡ some (ready_frame token)
encode-ready token =
    encode-fits msg_game_surface_ready (snprintf 192 (member (codes "launch_token") token))
      (length-ready (take 175 (token ++ codes "\"")) (length-take-le 175 (token ++ codes "\"")))

messages-after_send :
    (os : Os) (fd : ℕ) (buf : List ℕ) (calls : List Call) (r : SendResult)
    → is_interrupted r ≡ false
    → messages (after_send os fd buf calls r).1 ≡ buf ∷ messages calls
unfolding messages after_send
messages-after_send os fd buf calls (count n) h = refl
messages-after_send os fd buf calls interrupted h = cc
messages-after_send os fd buf calls failed h = refl

pub refresh-messages : (c : Compositor) → messages (refresh c).calls ≡ messages c.calls
unfolding refresh messages
refresh-messages c = ground arith

reset-messages :
    (c : Compositor) (s : ForegroundState) → messages (reset_overlay c s).calls ≡ messages c.calls
unfolding reset_overlay messages
reset-messages c s = ground arith

refresh_link : (c : Compositor) → (refresh c).link ≡ c.link
unfolding refresh
refresh_link c = refl

pub refresh_fg : (c : Compositor) → (refresh c).fg_state ≡ c.fg_state
unfolding refresh
refresh_fg c = refl

reset_link : (c : Compositor) (s : ForegroundState) → (reset_overlay c s).link ≡ c.link
unfolding reset_overlay
reset_link c s = ground arith

-- Nothing was sent, and the state is as it was.
pub Says-quiet :
    (c c' : Compositor)
    → c'.fg_state ≡ c.fg_state
    → messages c'.calls ≡ messages c.calls
    → Says c c'
unfolding changes readies
Says-quiet c c' s m = ground arith

module _ (os : Os)
    (whole : (calls : List Call) (fd : ℕ) (buf : List ℕ)
      → is_interrupted (os.send calls fd buf) ≡ false) where
  frame_send-messages :
      (fd : ℕ) (type extra buf : List ℕ) (calls : List Call)
      → encode type extra ≡ some buf
      → messages (frame_send os fd type extra calls).1 ≡ buf ∷ messages calls
  unfolding frame_send send_twice
  frame_send-messages fd type extra buf calls e =
      rw (e, frame_send)
        (messages-after_send os fd buf calls (os.send calls fd buf) (whole calls fd buf))

  ipc_calls-messages :
      (fd : Option ℕ) (type extra buf : List ℕ) (calls : List Call)
      → encode type extra ≡ some buf
      → messages (ipc_calls os fd type extra calls) ≡ over fd buf ++ messages calls
  unfolding ipc_calls over
  ipc_calls-messages none type extra buf calls e = refl
  ipc_calls-messages (some fd) type extra buf calls e =
      frame_send-messages fd type extra buf calls e

  transition-fg : (c : Compositor) (s : ForegroundState) → (transition os c s).fg_state ≡ s
  unfolding transition
  transition-fg c s = ground arith

  transition-messages :
      (c : Compositor) (s : ForegroundState)
      → messages (transition os c s).calls ≡ changes c.link.sock_fd c.fg_state s ++ messages c.calls
  unfolding transition announce ipc_send changes
  transition-messages c s =
      let c' = refresh (record (reset_overlay c s) { fg_state = s }) in
      let sent_on =
        ipc_calls-messages c'.link.sock_fd msg_state_changed _ (state_frame s) c'.calls
          (encode-state s) in
      ground (
        arith,
        sent_on,
        refresh-messages (record (reset_overlay c s) { fg_state = s }),
        reset-messages c s,
        refresh_link (record (reset_overlay c s) { fg_state = s }),
        reset_link c s,
      )

  Says-transition :
      (c c' : Compositor) (s : ForegroundState)
      → c'.link ≡ c.link
      → c'.fg_state ≡ c.fg_state
      → messages c'.calls ≡ messages c.calls
      → (state_is c.fg_state game_starting && state_is s game_foreground) ≡ false
      → Says c (transition os c' s)
  unfolding readies
  Says-transition c c' s l f m n = ground (arith, transition-fg c' s, transition-messages c' s)

  pub launches-Says :
      (c : Compositor) (token id : List ℕ) → Says c (set_expected_game os c token id)
  unfolding set_expected_game
  launches-Says c token id = Says-transition c _ game_starting refl refl refl (ground arith)

  pub cancels-Says : (c : Compositor) → Says c (handle_clear_expected os c)
  unfolding handle_clear_expected
  cancels-Says c =
      if-keeps (Says c) (has_game c.fg_state)
        (Says-transition c (clear_expected c) shell_foreground refl refl refl (ground arith))
        (Says-quiet c (clear_expected c) refl refl)

  pub terminates-Says : (c : Compositor) → Says c (force_terminate os c)
  unfolding force_terminate
  terminates-Says c = record {
    said = (Says-transition c c terminating_game refl refl refl (ground arith)).said;
  }

  pub shows-Says : (c : Compositor) → Says c (manager_show os c)
  unfolding manager_show send_output_info send_about_to_show messages
  shows-Says c =
      let c' = send_about_to_show (send_output_info (record c { overlay_visible = true })) in
      let same : messages c'.calls ≡ messages c.calls = ground arith in
      if-keeps (Says c) c.overlay_visible (Says-quiet c c refl refl) (
        if-keeps (Says c) (state_is c.fg_state game_foreground)
          (Says-transition c c' playos_ui_foreground_with_game_background refl refl same
            (ground arith))
          (Says-quiet c (refresh c') (refresh_fg c') (refresh-messages c' ∙ same)))

  pub hides-Says : (c : Compositor) → Says c (manager_hide os c)
  unfolding manager_hide send_about_to_hide messages
  hides-Says c =
      let c' = send_about_to_hide (record c { overlay_visible = false }) in
      let same : messages c'.calls ≡ messages c.calls = ground arith in
      if-keeps (Says c) c.overlay_visible
        (if-split (Says c) (state_is c.fg_state playos_ui_foreground_with_game_background)
          (λ e. Says-transition c c' _ refl refl same (ground arith))
          (λ e. Says-quiet c (refresh c') (refresh_fg c') (refresh-messages c' ∙ same)))
        (Says-quiet c c refl refl)

  pub readies-Says : (c : Compositor) → Says c (surface_ready os c)
  unfolding surface_ready announce_ready ipc_send changes readies
  readies-Says c =
      let calls' =
        ipc_calls os c.link.sock_fd msg_game_surface_ready
          (snprintf 192 (member (codes "launch_token") c.expected_launch_token)) c.calls in
      let c' : Compositor = record c { game_surface_ready = true; calls = calls' } in
      let told =
        ipc_calls-messages c.link.sock_fd msg_game_surface_ready _
          (ready_frame c.expected_launch_token) c.calls (encode-ready c.expected_launch_token) in
      if-keeps (Says c) c.game_surface_ready (Says-quiet c c refl refl) (
        if-split (Says c) (state_is c.fg_state game_starting)
          (λ e.
            ground (
              arith,
              told,
              transition-fg c' game_foreground,
              transition-messages c' game_foreground,
            ))
          (λ e. Says-quiet c c refl refl))

  pub exits-Says :
      (c c' : Compositor)
      → c'.link ≡ c.link
      → c'.fg_state ≡ c.fg_state
      → messages c'.calls ≡ messages c.calls
      → Says c (game_exited os c')
  unfolding game_exited
  exits-Says c c' l f m = record {
    said =
        (if-keeps (Says c) (has_game c'.fg_state || state_is c'.fg_state terminating_game)
          (Says-transition c c' shell_foreground l f m (ground arith)) (Says-quiet c c' f m)).said;
  }
