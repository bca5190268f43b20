-- ===== src/Scenarios.antt =====
-- The theorems at concrete states and inputs: a compositor on the DRM backend, from its start
-- through the launch of a game.
mod Runs
mod Inputs
mod Tokens
mod Frames
mod Fallbacks
mod Boots
mod Whole
mod Client
use playos_compositor.Base.{
  ℕ, ◌+◌, ◌*◌, ◌^◌, ◌<◌, ◌≤◌, ◌≡◌, refl, Bool, true, false, Option, none, some, List, [], ◌∷◌, ◌++◌,
  length, take, drop, codes, arith, str_eq, c_str, map, is_some, points_to, not, ◌&&◌, ◌||◌, ◌==◌,
}
use playos_compositor.Compositor.{
  Compositor, no_output, Backend, drm, Os, SendResult, count, Track, Role, shell, overlay, game,
  game_foreground, shell_foreground, received,
}
use playos_compositor.Wire.Json.{json_get_string}
use playos_compositor.Wire.Frame.{
  body, frame_of, decode, encode, le32_load, le32_store, ipc_max_body, ipc_magic,
}
use playos_compositor.Foreground.{
  refresh, transition, set_expected_game, handle_clear_expected, force_terminate, surface_ready,
  announce_ready, game_exited, send_output_info, send_about_to_show, send_about_to_hide,
}
use playos_compositor.Overlay.{
  manager_show, manager_hide, bind, resource_destroy, resolve_resource, use_resource, find_bound,
  request_dismiss,
}
use playos_compositor.Toplevels.{
  Commit, place, find_track, new_xdg_toplevel, toplevel_commit, toplevel_destroy, commit_track,
  destroy_track, untrack, drop_tree, remove_track, configure_or_count, classify, reclassify,
  role_for_client, restack,
}
use playos_compositor.Trusted.{
  register_shell, register_overlay, claim, assign_role, client_destroyed,
}
use playos_compositor.Button.{Keycodes, keyboard_key, is_reserved_keycode, toggle_overlay}
use playos_compositor.Ipc.{
  Mask, msg_set_expected_game, ipc_start, ipc_connect, schedule_reconnect, fd_handler, handle_read,
  dispatch_frame, dispatch, dispatch_type, dispatch_set_expected, string_or, drop_link,
  reconnect_handler, connected, retry_later,
}
use playos_compositor.Ipc.Delivery.{launch}
use playos_compositor.Render.{output_present, frame}
use playos_compositor.Lifecycle.{started, mark_ready, compositor_init}
use playos_compositor.Machine.{
  Event, new_toplevel, commit, registers_shell, ipc_ready, step, Reach, here, next, Legal,
}

-- The codes of <linux/input-event-codes.h>.
abbrev pub keys : Keycodes
keys = record {
  btn_mode = 0x13c;
  key_prog1 = 148;
  btn_trigger_happy1 = 0x2c0;
  key_f17 = 187;
  key_prog2 = 149;
  btn_trigger_happy2 = 0x2c1;
  key_f16 = 186;
}

abbrev pub launch_body : List ℕ
launch_body = body msg_set_expected_game (launch (codes "t-1") (codes "pong"))

-- A system on which every call succeeds, and every read brings the launch of one game.
abbrev pub working : Os
working = record {
  send = λ calls fd buf. count (length buf);
  socket = λ calls. some 7;
  connect = λ calls fd. true;
  read = λ calls fd. some (frame_of launch_body ++ []);
  uninit = λ calls size. codes "?";
  adds_fd = λ calls fd. true;
  adds_timer = λ calls. true;
}

abbrev pub readable : Mask
readable = record { broken = false; readable = true }

abbrev pub first_frame : Commit
first_frame = record { is_toplevel = true; initial_commit = false; has_buffer = true }

-- Every function of the model, so that a run computes where this name is unfolded.
everything : Unit {0}
unfolding step started mark_ready compositor_init ipc_start ipc_connect schedule_reconnect
    find_track place new_xdg_toplevel toplevel_commit toplevel_destroy commit_track destroy_track
    untrack drop_tree remove_track configure_or_count classify reclassify role_for_client
    register_shell register_overlay claim assign_role client_destroyed bind resource_destroy
    resolve_resource use_resource find_bound request_dismiss keyboard_key is_reserved_keycode
    toggle_overlay manager_show manager_hide send_output_info send_about_to_show send_about_to_hide
    refresh restack transition set_expected_game handle_clear_expected force_terminate surface_ready
    announce_ready game_exited fd_handler handle_read dispatch_frame dispatch dispatch_type
    dispatch_set_expected string_or str_eq c_str json_get_string decode body le32_load le32_store
    drop_link reconnect_handler connected retry_later output_present frame
everything = tt

-- The shell's surface, its claim, the launch, the game's surface and its first frame.
abbrev pub shell_mapped : Compositor
shell_mapped = step keys working (started working drm no_output) (new_toplevel 5 (some 50))

abbrev pub shell_trusted : Compositor
shell_trusted = step keys working shell_mapped (registers_shell 5 1)

abbrev pub launching : Compositor
launching = step keys working shell_trusted (ipc_ready 7 readable)

abbrev pub game_mapped : Compositor
game_mapped = step keys working launching (new_toplevel 6 (some 60))

abbrev pub playing : Compositor
playing = step keys working game_mapped (commit 60 first_frame)

pub to_shell_trusted : Reach keys working (started working drm no_output) shell_trusted
unfolding everything
to_shell_trusted = next (registers_shell 5 1) (next (new_toplevel 5 (some 50)) here refl) tt

pub to_playing : Reach keys working (started working drm no_output) playing
unfolding everything
to_playing =
    next (commit 60 first_frame)
      (next (new_toplevel 6 (some 60)) (next (ipc_ready 7 readable) to_shell_trusted tt) refl) tt

playing_state : playing.fg_state ≡ game_foreground
unfolding everything
playing_state = refl
