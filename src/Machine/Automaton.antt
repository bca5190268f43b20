-- ===== src/Machine/Automaton.antt =====
-- The foreground state machine as the events drive it: an automaton with nine inputs, and the
-- input that each event is. Independent of the handlers, but for the reading of a message.
pub mod Reacts
use playos_compositor.Base.{
  ℕ, ◌≡◌, refl, Bool, true, false, ◌&&◌, Option, none, some, List, [], ◌∷◌, is_some, str_eq, codes,
  c_str, arith, inl, inr, Option-cases, points_to, if◌then◌else◌,
}
use playos_compositor.Compositor.{
  Compositor, Track, Os, ForegroundState, shell_foreground, game_starting, game_foreground,
  playos_ui_foreground_with_game_background, terminating_game, game, role_is, received, state_is,
}
use playos_compositor.Foreground.{
  set_expected_game, handle_clear_expected, force_terminate, transition, surface_ready, game_exited,
  refresh, announce_ready, send_about_to_show, send_about_to_hide, send_output_info,
}
use playos_compositor.Overlay.{
  manager_show, manager_hide, bind, request_dismiss, resolve_resource, use_resource,
  resource_destroy,
}
use playos_compositor.Wire.Frame.{decode}
use playos_compositor.Wire.Json.{json_get_string}
use playos_compositor.Ipc.{
  Mask, msg_set_expected_game, msg_clear_expected_game, msg_force_terminate_game, msg_show_overlay,
  msg_hide_overlay, dispatch_set_expected, dispatch_type, dispatch, dispatch_frame, drop_link,
  handle_read, fd_handler, reconnect_handler, connected, retry_later, ipc_connect, string_or,
}
use playos_compositor.Button.{
  Keycodes, is_reserved_keycode, is_system_keycode, toggle_overlay, keyboard_key,
}
use playos_compositor.Toplevels.{
  Commit, reclassify, find_track, new_xdg_toplevel, toplevel_commit, commit_track,
  configure_or_count, toplevel_destroy, destroy_track, untrack, drop_tree,
}
use playos_compositor.Trusted.{
  client_destroyed, register_shell, register_overlay, assign_role, shell_client_gone,
  overlay_client_gone,
}
use playos_compositor.Render.{output_present, frame, close_window}
use playos_compositor.Screen.{NewOutput, new_output}
use playos_compositor.Machine.{
  Event, new_toplevel, commit, destroy, registers_shell, registers_overlay, client_gone,
  binds_overlay, unbinds_overlay, dismisses, key, ipc_ready, reconnect_timer, output_added,
  presented, frame_due, step,
}
use playos_compositor.Toplevels.Launch.{toplevel_commit-activates, toplevel_destroy_exits}
use playos_compositor.Machine.Rule.{register_shell_cases, register_overlay_cases}

pub data Input : Type 0 where
  launches cancels terminates shows hides toggles draws ends ignored : Input

-- The next state, by whether the game's surface is ready, the overlay is visible and the game has a
-- tree.
abbrev pub react : Input → (ready visible game_there : Bool) → ForegroundState → ForegroundState
react launches r v g s = game_starting
react cancels r v g game_starting = shell_foreground
react cancels r v g game_foreground = shell_foreground
react cancels r v g playos_ui_foreground_with_game_background = shell_foreground
react cancels r v g s = s
react terminates r v g s = terminating_game
react shows r false g game_foreground = playos_ui_foreground_with_game_background
react shows r v g s = s
react hides r true true playos_ui_foreground_with_game_background = game_foreground
react hides r true false playos_ui_foreground_with_game_background = shell_foreground
react hides r v g s = s
react toggles r false g game_foreground = playos_ui_foreground_with_game_background
react toggles r true true playos_ui_foreground_with_game_background = game_foreground
react toggles r true false playos_ui_foreground_with_game_background = shell_foreground
react toggles r v g s = s
react draws false v g game_starting = game_foreground
react draws r v g s = s
react ends r v g s = shell_foreground
react ignored r v g s = s

abbrev pub reacts : Compositor → Input → ForegroundState
reacts c i = react i c.game_surface_ready c.overlay_visible (is_some c.game_tree) c.fg_state

-- What a message is, by its type.
unfoldable pub type_input : List ℕ → Input
unfolding str_eq
type_input type =
    if str_eq type msg_set_expected_game
    then launches
    else if str_eq type msg_clear_expected_game
    then cancels
    else if str_eq type msg_force_terminate_game
    then terminates
    else if str_eq type msg_show_overlay
    then shows
    else if str_eq type msg_hide_overlay
    then hides
    else ignored

unfoldable pub message_input : List ℕ → Input
unfolding type_input json_get_string
message_input text = elim (json_get_string text (codes "type") 128) [
  | none ↦ ignored
  | some type ↦ type_input (c_str type)
]

unfoldable pub read_input : Option (List ℕ) → Input
unfolding message_input decode
read_input none = ignored
read_input (some []) = ignored
read_input (some (b ∷ buf)) = elim (decode (b ∷ buf)) [
  | none ↦ ignored
  | some text ↦ message_input text
]

unfoldable pub surface_input : Option Track → Bool → Input → Input
surface_input none on i = ignored
surface_input (some x) on i = if role_is x.role game && on then i else ignored

-- What an event is for the state machine.
unfoldable pub event_input : Keycodes → Os → Compositor → Event → Input
unfolding read_input surface_input find_track is_reserved_keycode is_system_keycode
event_input k os c (commit tree e) =
    surface_input (find_track tree c.toplevels) (e.is_toplevel && e.has_buffer) draws
event_input k os c (destroy tree) = surface_input (find_track tree c.toplevels) true ends
event_input k os c (dismisses client) = if points_to c.overlay_client client then hides else ignored
event_input k os c (key code pressed) =
    if is_reserved_keycode k code && pressed
    then if is_system_keycode k code then toggles else ignored
    else ignored
event_input k os c (ipc_ready fd mask) =
    if mask.broken
    then ignored
    else if mask.readable
    then read_input (os.read c.calls fd)
    else ignored
event_input k os c _ = ignored
