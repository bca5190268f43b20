-- ===== src/Machine/Automaton/Reacts.antt =====
-- The handlers of the events beside the automaton.
use playos_compositor.Base.{
  ℕ, ◌≡◌, refl, Bool, Option, none, some, List, [], ◌∷◌, codes, c_str, arith, inl, inr,
  Option-cases,
}
use playos_compositor.Compositor.{Compositor, Os, game_starting, terminating_game, received}
use playos_compositor.Foreground.{
  set_expected_game, handle_clear_expected, force_terminate, transition, surface_ready, refresh,
  announce_ready, send_about_to_show, send_about_to_hide, send_output_info,
}
use playos_compositor.Overlay.{
  manager_show, manager_hide, bind, request_dismiss, resolve_resource, use_resource,
  resource_destroy,
}
use playos_compositor.Wire.Frame.{decode}
use playos_compositor.Wire.Json.{json_get_string}
use playos_compositor.Ipc.{
  Mask, dispatch_set_expected, dispatch_type, dispatch, dispatch_frame, drop_link, handle_read,
  fd_handler, reconnect_handler, connected, retry_later, ipc_connect, string_or,
}
use playos_compositor.Button.{Keycodes, toggle_overlay, keyboard_key}
use playos_compositor.Toplevels.{
  Commit, reclassify, find_track, new_xdg_toplevel, toplevel_commit, toplevel_destroy,
}
use playos_compositor.Trusted.{
  client_destroyed, register_shell, register_overlay, assign_role, shell_client_gone,
  overlay_client_gone,
}
use playos_compositor.Render.{output_present, frame, close_window}
use playos_compositor.Screen.{NewOutput, new_output}
use playos_compositor.Machine.{
  Event, new_toplevel, commit, destroy, registers_shell, registers_overlay, client_gone,
  binds_overlay, unbinds_overlay, dismisses, key, ipc_ready, reconnect_timer, output_added,
  presented, frame_due, step,
}
use playos_compositor.Toplevels.Launch.{toplevel_commit-activates, toplevel_destroy_exits}
use playos_compositor.Machine.Rule.{register_shell_cases, register_overlay_cases}
use playos_compositor.Machine.Automaton.{
  Input, cancels, shows, hides, toggles, draws, ignored, reacts, type_input, message_input,
  read_input, surface_input, event_input,
}

cancels_react :
    (os : Os) (c : Compositor) → (handle_clear_expected os c).fg_state ≡ reacts c cancels
unfolding handle_clear_expected transition
cancels_react os c = ground arith

shows_react : (os : Os) (c : Compositor) → (manager_show os c).fg_state ≡ reacts c shows
unfolding manager_show transition send_about_to_show send_output_info refresh
shows_react os c = ground arith

hides_react : (os : Os) (c : Compositor) → (manager_hide os c).fg_state ≡ reacts c hides
unfolding manager_hide transition send_about_to_hide refresh
hides_react os c = ground arith

toggles_react : (os : Os) (c : Compositor) → (toggle_overlay os c).fg_state ≡ reacts c toggles
unfolding toggle_overlay
toggles_react os c = ground (arith, shows_react os c, hides_react os c)

readies_react : (os : Os) (c : Compositor) → (surface_ready os c).fg_state ≡ reacts c draws
unfolding surface_ready transition announce_ready
readies_react os c = ground arith

launches_react :
    (os : Os) (c : Compositor) (token id : List ℕ)
    → (set_expected_game os c token id).fg_state ≡ game_starting
unfolding set_expected_game transition
launches_react os c token id = ground arith

terminates_react : (os : Os) (c : Compositor) → (force_terminate os c).fg_state ≡ terminating_game
unfolding force_terminate transition
terminates_react os c = ground arith

-- One operation reacts as an input.
abbrev Reacts : Compositor → Compositor → Input → Type 0
Reacts c c' i = c'.fg_state ≡ reacts c i

module _ (os : Os) where
  dispatch_type-Reacts :
      (c : Compositor) (type text : List ℕ)
      → Reacts c (dispatch_type os c type text) (type_input type)
  unfolding dispatch_type type_input dispatch_set_expected
  dispatch_type-Reacts c type text =
      let started =
        launches_react os c
          (string_or (json_get_string text (codes "launch_token") 64) (os.uninit c.calls 64))
          (string_or (json_get_string text (codes "game_id") 256) (os.uninit c.calls 256)) in
      ground (
        arith,
        started,
        cancels_react os c,
        terminates_react os c,
        shows_react os c,
        hides_react os c,
      )

  dispatch-Reacts :
      (c : Compositor) (text : List ℕ) → Reacts c (dispatch os c text) (message_input text)
  unfolding dispatch message_input
  dispatch-Reacts c text = elim (Option-cases (json_get_string text (codes "type") 128)) [
    | inl e ↦ rw (e, dispatch, message_input) refl
    | inr (type, e) ↦ rw (e, dispatch, message_input) (dispatch_type-Reacts c (c_str type) text)
  ]

  drop_link-Reacts : (c : Compositor) → Reacts c (drop_link os c) ignored
  unfolding drop_link
  drop_link-Reacts c = ground arith

  handle_read-Reacts :
      (c : Compositor) (r : Option (List ℕ)) → Reacts c (handle_read os c r) (read_input r)
  unfolding handle_read read_input dispatch_frame
  handle_read-Reacts c none = drop_link-Reacts c
  handle_read-Reacts c (some []) = drop_link-Reacts c
  handle_read-Reacts c (some (b ∷ buf)) = elim (Option-cases (decode (b ∷ buf))) [
    | inl e ↦ rw (e, handle_read, dispatch_frame, read_input) refl
    | inr (text, e) ↦ rw (e, handle_read, dispatch_frame, read_input) (dispatch-Reacts c text)
  ]

  fd_handler-Reacts :
      (k : Keycodes) (c : Compositor) (fd : ℕ) (m : Mask)
      → Reacts c (fd_handler os c fd m) (event_input k os c (ipc_ready fd m))
  unfolding fd_handler event_input
  fd_handler-Reacts k c fd m =
      let c1 : Compositor = record c { calls = received fd ∷ c.calls } in
      ground (arith, drop_link-Reacts c, handle_read-Reacts c1 (os.read c.calls fd))

  keyboard_key-Reacts :
      (k : Keycodes) (c : Compositor) (code : ℕ) (pressed : Bool)
      → Reacts c (keyboard_key k os c code pressed) (event_input k os c (key code pressed))
  unfolding keyboard_key event_input
  keyboard_key-Reacts k c code pressed = ground (arith, toggles_react os c)

  toplevel_commit-Reacts :
      (k : Keycodes) (c : Compositor) (tree : ℕ) (e : Commit)
      → Reacts c (toplevel_commit os c tree e) (event_input k os c (commit tree e))
  unfolding toplevel_commit event_input surface_input
  toplevel_commit-Reacts k c tree e = elim (Option-cases (find_track tree c.toplevels)) [
    | inl q ↦ rw (q, toplevel_commit, surface_input) refl
    | inr (x, q) ↦ let done = toplevel_commit-activates os c tree x e q in ground (arith, done.0)
  ]

  toplevel_destroy-Reacts :
      (k : Keycodes) (c : Compositor) (tree : ℕ)
      → Reacts c (toplevel_destroy os c tree) (event_input k os c (destroy tree))
  unfolding toplevel_destroy event_input surface_input
  toplevel_destroy-Reacts k c tree = elim (Option-cases (find_track tree c.toplevels)) [
    | inl q ↦ rw (q, toplevel_destroy, surface_input) refl
    | inr (x, q) ↦ let done = toplevel_destroy_exits os c tree x q in ground (arith, done.0)
  ]

  request_dismiss-Reacts :
      (k : Keycodes) (c : Compositor) (client : ℕ)
      → Reacts c (request_dismiss os c client) (event_input k os c (dismisses client))
  unfolding request_dismiss event_input
  request_dismiss-Reacts k c client = ground (arith, hides_react os c)

-- The handlers that leave the foreground state as it is.
module _ (c : Compositor) where
  resolve_resource-Reacts : (client : ℕ) → Reacts c (resolve_resource c client) ignored
  unfolding resolve_resource use_resource send_output_info
  resolve_resource-Reacts client = ground arith

  register_overlay-Reacts :
      (client resource : ℕ) → Reacts c (register_overlay c client resource) ignored
  unfolding reclassify assign_role resolve_resource use_resource send_output_info
  register_overlay-Reacts client resource =
      register_overlay_cases (λ c'. Reacts c c' ignored) c client resource refl (ground arith)

  register_shell-Reacts :
      (client resource : ℕ) → Reacts c (register_shell c client resource) ignored
  unfolding reclassify assign_role
  register_shell-Reacts client resource =
      register_shell_cases (λ c'. Reacts c c' ignored) c client resource refl refl

  client_destroyed-Reacts : (client : ℕ) → Reacts c (client_destroyed c client) ignored
  unfolding client_destroyed shell_client_gone overlay_client_gone
  client_destroyed-Reacts client = ground arith

  bind-Reacts : (client resource : ℕ) → Reacts c (bind c client (some resource)) ignored
  unfolding bind resolve_resource use_resource send_output_info
  bind-Reacts client resource = ground arith

  reconnect_handler-Reacts : (os : Os) → Reacts c (reconnect_handler os c) ignored
  unfolding reconnect_handler connected retry_later ipc_connect
  reconnect_handler-Reacts os = ground arith

  new_output-Reacts : (a : NewOutput) → Reacts c (new_output c a) ignored
  unfolding new_output
  new_output-Reacts a = ground arith

  output_present-Reacts : (p z : Bool) → Reacts c (output_present c p z) ignored
  unfolding output_present
  output_present-Reacts p z = ground arith

  frame-Reacts : (now : ℕ) → Reacts c (frame c now) ignored
  unfolding frame close_window
  frame-Reacts now = ground arith

-- The handlers implement the automaton: in every state of the compositor, an event takes the
-- foreground state to the one that the automaton gives for the event's input. So the state of the
-- game changes only on playos-init's messages, the system button, a dismissal by the overlay's
-- client, and the first buffer or the end of a surface with the game's role.
pub step-reacts :
    (k : Keycodes) (os : Os) (c : Compositor) (e : Event)
    → (step k os c e).fg_state ≡ reacts c (event_input k os c e)
unfolding step event_input new_xdg_toplevel bind reclassify resource_destroy
step-reacts k os c (new_toplevel client none) = refl
step-reacts k os c (new_toplevel client (some tree)) = refl
step-reacts k os c (commit tree e) = toplevel_commit-Reacts os k c tree e
step-reacts k os c (destroy tree) = toplevel_destroy-Reacts os k c tree
step-reacts k os c (registers_shell client resource) = register_shell-Reacts c client resource
step-reacts k os c (registers_overlay client resource) = register_overlay-Reacts c client resource
step-reacts k os c (client_gone client) = client_destroyed-Reacts c client
step-reacts k os c (binds_overlay client none) = refl
step-reacts k os c (binds_overlay client (some resource)) = bind-Reacts c client resource
step-reacts k os c (unbinds_overlay resource) = refl
step-reacts k os c (dismisses client) = request_dismiss-Reacts os k c client
step-reacts k os c (key code pressed) = keyboard_key-Reacts os k c code pressed
step-reacts k os c (ipc_ready fd mask) = fd_handler-Reacts os k c fd mask
step-reacts k os c reconnect_timer = reconnect_handler-Reacts c os
step-reacts k os c (output_added a) = new_output-Reacts c a
step-reacts k os c (presented p z) = output_present-Reacts c p z
step-reacts k os c (frame_due now) = frame-Reacts c now
