-- ===== src/Machine/Messages/Steps.antt =====
-- The messages of every step of the event loop.
use playos_compositor.Base.{
  ℕ, ◌≡◌, refl, ◌∙◌, Bool, false, ◌&&◌, points_to, if◌then◌else◌, Option, none, some, List, [], ◌∷◌,
  codes, c_str, arith, inl, inr, Option-cases,
}
use playos_compositor.Compositor.{
  Compositor, Track, Os, Call, game_foreground, playos_ui_foreground_with_game_background, received,
  state_is, role_is, game,
}
use playos_compositor.Foreground.{surface_ready, refresh, game_exited}
use playos_compositor.Overlay.{bind, request_dismiss}
use playos_compositor.Wire.Frame.{decode}
use playos_compositor.Wire.Json.{json_get_string}
use playos_compositor.Ipc.{
  Mask, dispatch_set_expected, dispatch_type, dispatch, dispatch_frame, drop_link, handle_read,
  fd_handler, ipc_disconnect, schedule_reconnect,
}
use playos_compositor.Button.{
  Keycodes, toggle_overlay, keyboard_key, is_reserved_keycode, is_system_keycode,
}
use playos_compositor.Toplevels.{
  Commit, find_track, new_xdg_toplevel, toplevel_commit, toplevel_destroy, commit_track,
  configure_or_count, count_commit, destroy_track, untrack, drop_tree, restack,
}
use playos_compositor.Machine.Messages.{
  messages, is_interrupted, Says, Says-quiet, launches-Says, cancels-Says, terminates-Says,
  shows-Says, hides-Says, readies-Says, exits-Says, refresh-messages, refresh_fg,
}
use playos_compositor.Machine.Messages.Quiet.{
  new_xdg_toplevel-Says, register_shell-Says, register_overlay-Says, client_destroyed-Says,
  bind-Says, unbind-Says, reconnect_handler-Says, new_output-Says, output_present-Says, frame-Says,
}
use playos_compositor.Machine.{
  Event, new_toplevel, commit, destroy, registers_shell, registers_overlay, client_gone,
  binds_overlay, unbinds_overlay, dismisses, key, ipc_ready, reconnect_timer, output_added,
  presented, frame_due, step,
}
use playos_compositor.Machine.Rule.{if-keeps}

restack-messages : (c : Compositor) → messages (restack c).calls ≡ messages c.calls
unfolding restack messages
restack-messages c = ground arith

module _ (os : Os)
    (whole : (calls : List Call) (fd : ℕ) (buf : List ℕ)
      → is_interrupted (os.send calls fd buf) ≡ false) where
  drop_link-Says : (c : Compositor) → Says c (drop_link os c)
  unfolding drop_link ipc_disconnect schedule_reconnect messages
  drop_link-Says c = Says-quiet c (drop_link os c) (ground arith) (ground arith)

  dispatch_type-Says : (c : Compositor) (type text : List ℕ) → Says c (dispatch_type os c type text)
  unfolding dispatch_type dispatch_set_expected
  dispatch_type-Says c type text = if-keeps (Says c) _ (launches-Says os whole c _ _) (
      if-keeps (Says c) _ (cancels-Says os whole c) (
        if-keeps (Says c) _ (terminates-Says os whole c) (
          if-keeps (Says c) _ (shows-Says os whole c)
            (if-keeps (Says c) _ (hides-Says os whole c) (Says-quiet c c refl refl)))))

  dispatch-Says : (c : Compositor) (text : List ℕ) → Says c (dispatch os c text)
  unfolding dispatch
  dispatch-Says c text = elim (Option-cases (json_get_string text (codes "type") 128)) [
    | inl e ↦ rw (e, dispatch) (Says-quiet c c refl refl)
    | inr (type, e) ↦ rw (e, dispatch) (dispatch_type-Says c (c_str type) text)
  ]

  handle_read-Says : (c : Compositor) (r : Option (List ℕ)) → Says c (handle_read os c r)
  unfolding handle_read dispatch_frame
  handle_read-Says c none = drop_link-Says c
  handle_read-Says c (some []) = drop_link-Says c
  handle_read-Says c (some (b ∷ buf)) = elim (Option-cases (decode (b ∷ buf))) [
    | inl e ↦ rw (e, handle_read, dispatch_frame) (Says-quiet c c refl refl)
    | inr (text, e) ↦ rw (e, handle_read, dispatch_frame) (dispatch-Says c text)
  ]

  fd_handler-Says : (c : Compositor) (fd : ℕ) (m : Mask) → Says c (fd_handler os c fd m)
  unfolding fd_handler messages
  fd_handler-Says c fd m =
      let c' : Compositor = record c { calls = received fd ∷ c.calls } in
      if-keeps (Says c) m.broken (drop_link-Says c) (
        if-keeps (Says c) m.readable
          (record { said = (handle_read-Says c' (os.read c.calls fd)).said })
          (Says-quiet c c refl refl))

  keyboard_key-Says :
      (k : Keycodes) (c : Compositor) (code : ℕ) (pressed : Bool)
      → Says c (keyboard_key k os c code pressed)
  unfolding keyboard_key toggle_overlay
  keyboard_key-Says k c code pressed =
      let quiet = Says-quiet c c refl refl in
      if-keeps (Says c) (is_reserved_keycode k code && pressed)
        (if-keeps (Says c) (is_system_keycode k code)
          (if-keeps (Says c) (state_is c.fg_state game_foreground) (shows-Says os whole c) (
            if-keeps (Says c) (state_is c.fg_state playos_ui_foreground_with_game_background)
              (hides-Says os whole c) quiet))
          quiet)
        quiet

  request_dismiss-Says : (c : Compositor) (client : ℕ) → Says c (request_dismiss os c client)
  unfolding request_dismiss
  request_dismiss-Says c client =
      if-keeps (Says c) (points_to c.overlay_client client) (hides-Says os whole c)
        (Says-quiet c c refl refl)

  counted-Says : (c : Compositor) (x : Track) (b : Bool) → Says c (configure_or_count c x b)
  unfolding configure_or_count count_commit messages
  counted-Says c x b = Says-quiet c (configure_or_count c x b) (ground arith) (ground arith)

  commit_track-Says : (c : Compositor) (x : Track) (e : Commit) → Says c (commit_track os c x e)
  unfolding commit_track configure_or_count count_commit messages
  commit_track-Says c x e =
      let c' = configure_or_count c x e.initial_commit in
      let f : c'.fg_state ≡ c.fg_state = ground arith in
      let m : messages c'.calls ≡ messages c.calls = ground arith in
      let l : c'.link ≡ c.link = ground arith in
      let t : c'.expected_launch_token ≡ c.expected_launch_token = ground arith in
      let ready = readies-Says os whole c' in
      let ready' : Says c (surface_ready os c') = record { said = rw (f, m, l, t) at ready.said } in
      if-keeps (Says c) e.is_toplevel
        (if-keeps (Says c) (role_is x.role game && e.has_buffer) ready' (Says-quiet c c' f m))
        (Says-quiet c c refl refl)

  toplevel_commit-Says :
      (c : Compositor) (tree : ℕ) (e : Commit) → Says c (toplevel_commit os c tree e)
  unfolding toplevel_commit
  toplevel_commit-Says c tree e = elim (Option-cases (find_track tree c.toplevels)) [
    | inl q ↦ rw (q, toplevel_commit) (Says-quiet c c refl refl)
    | inr (x, q) ↦ rw (q, toplevel_commit) (commit_track-Says c x e)
  ]

  destroy_track-Says : (c : Compositor) (x : Track) → Says c (destroy_track os c x)
  unfolding destroy_track untrack drop_tree restack messages
  destroy_track-Says c x =
      let c' = untrack c x in
      let f : c'.fg_state ≡ c.fg_state = ground arith in
      let m : messages c'.calls ≡ messages c.calls = ground arith in
      let l : c'.link ≡ c.link = ground arith in
      let ended =
        if-keeps (Says c) (role_is x.role game) (exits-Says os whole c c' l f m)
          (Says-quiet c (refresh c') (refresh_fg c' ∙ f) (refresh-messages c' ∙ m)) in
      let c2 = if role_is x.role game then game_exited os c' else refresh c' in
      record { said = restack-messages c2 ∙ ended.said }

  toplevel_destroy-Says : (c : Compositor) (tree : ℕ) → Says c (toplevel_destroy os c tree)
  unfolding toplevel_destroy
  toplevel_destroy-Says c tree = elim (Option-cases (find_track tree c.toplevels)) [
    | inl q ↦ rw (q, toplevel_destroy) (Says-quiet c c refl refl)
    | inr (x, q) ↦ rw (q, toplevel_destroy) (destroy_track-Says c x)
  ]

  -- As long as send(2) is not interrupted, every step of the event loop hands to send, over a link
  -- that is up when the step begins, exactly this: nothing if the foreground state stays; else one
  -- CompositorStateChanged with the new state; and right before it one GameSurfaceReady, with the
  -- token of the expected launch, if a game that was starting is now in the foreground, and in no
  -- other case. Over a link that is down it sends nothing.
  pub step-Says : (k : Keycodes) (c : Compositor) (e : Event) → Says c (step k os c e)
  unfolding step new_xdg_toplevel bind
  step-Says k c (new_toplevel client none) = Says-quiet c c refl refl
  step-Says k c (new_toplevel client (some tree)) = new_xdg_toplevel-Says c client tree
  step-Says k c (commit tree e) = toplevel_commit-Says c tree e
  step-Says k c (destroy tree) = toplevel_destroy-Says c tree
  step-Says k c (registers_shell client resource) = register_shell-Says c client resource
  step-Says k c (registers_overlay client resource) = register_overlay-Says c client resource
  step-Says k c (client_gone client) = client_destroyed-Says c client
  step-Says k c (binds_overlay client none) = Says-quiet c c refl refl
  step-Says k c (binds_overlay client (some resource)) = bind-Says c client resource
  step-Says k c (unbinds_overlay resource) = unbind-Says c resource
  step-Says k c (dismisses client) = request_dismiss-Says c client
  step-Says k c (key code pressed) = keyboard_key-Says k c code pressed
  step-Says k c (ipc_ready fd mask) = fd_handler-Says c fd mask
  step-Says k c reconnect_timer = reconnect_handler-Says c os
  step-Says k c (output_added a) = new_output-Says c a
  step-Says k c (presented p z) = output_present-Says c p z
  step-Says k c (frame_due now) = frame-Says c now
