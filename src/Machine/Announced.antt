-- ===== src/Machine/Announced.antt =====
-- What playos-init knows of the foreground state from the connection that is up.
pub mod Reached
use playos_compositor.Base.{
  Bool-cases, inl, inr, ℕ, ◌≡◌, refl, Bool, true, false, Option, none, some, List, [], ◌∷◌, arith,
  codes, ◌||◌, if◌then◌else◌, ◌&&◌, is_some,
}
use playos_compositor.Compositor.{
  Compositor, Track, Os, ForegroundState, shell_foreground, game_starting, game_foreground,
  playos_ui_foreground_with_game_background, terminating_game, state_is, Call, sent, opened,
  SendResult, count, interrupted, failed, shell, overlay, Backend, Output,
}
use playos_compositor.Wire.Frame.{body, frame_of, encode, frame_send, send_twice, after_send}
use playos_compositor.Foreground.{
  foreground_state_name, msg_state_changed, member, snprintf, ipc_calls, ipc_send, announce,
  transition, reset_overlay, refresh, set_expected_game, handle_clear_expected, force_terminate,
  surface_ready, announce_ready, game_exited, has_game, send_output_info, send_about_to_show,
  send_about_to_hide, clear_expected,
}
use playos_compositor.Overlay.{
  manager_show, manager_hide, bind, resource_destroy, resolve_resource, use_resource,
}
use playos_compositor.Toplevels.{
  new_xdg_toplevel, destroy_track, configure_or_count, untrack, reclassify, drop_tree, restack,
  assign_trees, classify, role_for_client, no_trees, count_commit,
}
use playos_compositor.Trusted.{
  register_shell, register_overlay, client_destroyed, claim, assign_role, shell_client_gone,
  overlay_client_gone,
}
use playos_compositor.Ipc.{
  drop_link, reconnect_handler, ipc_connect, connected, retry_later, ipc_start, schedule_reconnect,
  ipc_disconnect,
}
use playos_compositor.Render.{output_present, frame}
use playos_compositor.Lifecycle.{started, mark_ready}
use playos_compositor.Machine.{Reach}
use playos_compositor.Machine.Rule.{
  register_shell_cases, register_overlay_cases, if-keeps, if-split, Keeps, Runs-keeps,
}
use playos_compositor.Button.{Keycodes}

-- The bytes of the last send(2) since the last socket was opened.
unfoldable pub told_frame : List Call → Option (List ℕ)
told_frame [] = none
told_frame (sent fd buf ∷ calls) = some buf
told_frame (opened fd ∷ calls) = none
told_frame (_ ∷ calls) = told_frame calls

-- CompositorStateChanged with the name of a state, as a frame.
abbrev pub state_frame : ForegroundState → List ℕ
state_frame s = frame_of (body msg_state_changed (member (codes "state") (foreground_state_name s)))

-- By the descriptor of the link and the last frame: if the link is up and a frame was sent on it,
-- the frame announces the state.
abbrev pub Tells : Option ℕ → Option (List ℕ) → ForegroundState → Type 0
Tells none o s = Unit {0}
Tells (some fd) none s = Unit {0}
Tells (some fd) (some buf) s = buf ≡ state_frame s

pub record Announced (c : Compositor) : Type 0 where
  pub tells : Tells c.link.sock_fd (told_frame c.calls) c.fg_state

pub encode-state :
    (s : ForegroundState)
    → encode msg_state_changed (snprintf 160 (member (codes "state") (foreground_state_name s)))
      ≡ some (state_frame s)
unfolding encode body
encode-state shell_foreground = refl
encode-state game_starting = refl
encode-state game_foreground = refl
encode-state playos_ui_foreground_with_game_background = refl
encode-state terminating_game = refl

told_frame-after_send :
    (os : Os) (fd : ℕ) (buf : List ℕ) (calls : List Call) (r : SendResult)
    → told_frame (after_send os fd buf calls r).1 ≡ some buf
unfolding told_frame after_send
told_frame-after_send os fd buf calls (count n) = refl
told_frame-after_send os fd buf calls interrupted = refl
told_frame-after_send os fd buf calls failed = refl

Tells-announced :
    (os : Os) (fd : Option ℕ) (calls : List Call) (s : ForegroundState)
    → Tells fd
        (told_frame (
          ipc_calls os fd msg_state_changed
            (snprintf 160 (member (codes "state") (foreground_state_name s)))
            calls))
        s
unfolding ipc_calls frame_send send_twice
Tells-announced os none calls s = tt
Tells-announced os (some fd) calls s =
    rw (encode-state s, ipc_calls, frame_send)
      (rw (told_frame-after_send os fd (state_frame s) calls (os.send calls fd (state_frame s)))
        refl)

module _ (os : Os) where
  announce-Announced :
      (c : Compositor) (s : ForegroundState) → c.fg_state ≡ s → Announced (announce os c s)
  unfolding announce ipc_send
  announce-Announced c s e = record { tells = rw e (Tells-announced os c.link.sock_fd c.calls s) }

  transition_announces :
      (c : Compositor) (s : ForegroundState)
      → state_is c.fg_state s ≡ false
      → Announced (transition os c s)
  unfolding transition refresh
  transition_announces c s h =
      rw h (announce-Announced (refresh (record (reset_overlay c s) { fg_state = s })) s refl)

  pub transition-Announced :
      (c : Compositor) (s : ForegroundState) → Announced c → Announced (transition os c s)
  unfolding transition
  transition-Announced c s h = elim (Bool-cases (state_is c.fg_state s)) [
    | inl e ↦ rw (e, transition) h
    | inr e ↦ transition_announces c s e
  ]

  pub refresh-Announced : (c : Compositor) → Announced c → Announced (refresh c)
  unfolding refresh told_frame
  refresh-Announced c h = ground arith

  pub shows-Announced : (c : Compositor) → Announced c → Announced (manager_show os c)
  unfolding manager_show send_output_info send_about_to_show told_frame
  shows-Announced c h =
      let c' = send_about_to_show (send_output_info (record c { overlay_visible = true })) in
      let h' : Announced c' = ground arith in
      if-keeps Announced c.overlay_visible h (
        if-keeps Announced (state_is c.fg_state game_foreground) (transition-Announced c' _ h')
          (refresh-Announced c' h'))

  pub hides-Announced : (c : Compositor) → Announced c → Announced (manager_hide os c)
  unfolding manager_hide send_about_to_hide told_frame
  hides-Announced c h =
      let c' = send_about_to_hide (record c { overlay_visible = false }) in
      let h' : Announced c' = ground arith in
      if-keeps Announced c.overlay_visible
        (if-keeps Announced (state_is c.fg_state playos_ui_foreground_with_game_background)
          (transition-Announced c' _ h') (refresh-Announced c' h'))
        h

  -- A game that becomes ready is announced twice: as ready, and as the one in the foreground.
  pub readies-Announced : (c : Compositor) → Announced c → Announced (surface_ready os c)
  unfolding surface_ready announce_ready ipc_send
  readies-Announced c h = if-keeps Announced c.game_surface_ready h (
      if-split Announced (state_is c.fg_state game_starting)
        (λ e. transition_announces _ game_foreground (ground arith)) (λ e. h))

  pub clears-Announced : (c : Compositor) → Announced c → Announced (handle_clear_expected os c)
  unfolding handle_clear_expected
  clears-Announced c h =
      let h' : Announced (clear_expected c) = record { tells = h.tells } in
      if-keeps Announced (has_game c.fg_state) (transition-Announced _ _ h') h'

  exits-Announced : (c : Compositor) → Announced c → Announced (game_exited os c)
  unfolding game_exited
  exits-Announced c h = record {
    tells =
        (if-keeps Announced (has_game c.fg_state || state_is c.fg_state terminating_game)
          (transition-Announced c shell_foreground h) h).tells;
  }

  pub restack-Announced : (c : Compositor) → Announced c → Announced (restack c)
  unfolding restack told_frame
  restack-Announced c h = ground arith

  untrack-Announced : (c : Compositor) (x : Track) → Announced c → Announced (untrack c x)
  unfolding untrack drop_tree
  untrack-Announced c x h = ground arith

  pub destroys-Announced :
      (c : Compositor) (x : Track) → Announced c → Announced (destroy_track os c x)
  unfolding destroy_track
  destroys-Announced c x h =
      let h' = untrack-Announced c x h in
      restack-Announced _ (
        if-keeps Announced _ (exits-Announced (untrack c x) h')
          (refresh-Announced (untrack c x) h'))
