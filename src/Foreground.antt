-- ===== src/Foreground.antt =====
-- The foreground state machine (src/state_machine.c), with the senders that it calls: the overlay
-- events of src/playos_manager.c and playos_compositor_ipc_send of src/compositor_ipc.c.
pub mod Sends
use playos_compositor.Base.{
  ℕ, ◌-◌, Bool, true, false, ◌&&◌, ◌||◌, Option, none, some, List, [], ◌∷◌, ◌++◌, if◌then◌else◌,
  take, codes,
}
use playos_compositor.Compositor.{
  Compositor, ForegroundState, shell_foreground, game_starting, game_foreground,
  playos_ui_foreground_with_game_background, terminating_game, state_is, Call, set_enabled,
  about_to_show, about_to_hide, output_info, Os,
}
use playos_compositor.Wire.Frame.{frame_send}

abbrev pub foreground_state_name : ForegroundState → List ℕ
foreground_state_name shell_foreground = codes "SHELL_FOREGROUND"
foreground_state_name game_starting = codes "GAME_STARTING"
foreground_state_name game_foreground = codes "GAME_FOREGROUND"
foreground_state_name playos_ui_foreground_with_game_background =
    codes "PLAYOS_UI_FOREGROUND_WITH_GAME_BACKGROUND"
foreground_state_name terminating_game = codes "TERMINATING_GAME"

abbrev pub set_tree_enabled : Option ℕ → Bool → List Call → List Call
set_tree_enabled none enabled calls = calls
set_tree_enabled (some tree) enabled calls = set_enabled tree enabled ∷ calls

abbrev pub shell_visible : ForegroundState → Bool
shell_visible s =
    state_is s shell_foreground || (state_is s game_starting || state_is s terminating_game)

abbrev pub game_visible : ForegroundState → Bool
game_visible s = state_is s game_foreground || state_is s playos_ui_foreground_with_game_background

abbrev pub overlay_shown : Bool → ForegroundState → Bool
overlay_shown requested s = requested && state_is s playos_ui_foreground_with_game_background

-- playos_state_refresh.
unfoldable pub refresh : Compositor → Compositor
refresh c = record c {
  calls = set_tree_enabled c.overlay_tree (overlay_shown c.overlay_visible c.fg_state) (
      set_tree_enabled c.game_tree (game_visible c.fg_state)
        (set_tree_enabled c.shell_tree (shell_visible c.fg_state) c.calls));
}

-- playos_state_init.
unfoldable pub state_init : Compositor → Compositor
state_init c = record c {
  fg_state = shell_foreground;
  expected_launch_token = [];
  expected_game_id = [];
  shell_tree = none;
  game_tree = none;
  overlay_tree = none;
  game_surface_ready = false;
  overlay_visible = false;
}

-- Sends to the overlay's resource, if there is one.
abbrev pub to_resource : Option ℕ → (ℕ → Call) → List Call → List Call
to_resource none event calls = calls
to_resource (some r) event calls = event r ∷ calls

unfoldable pub send_about_to_show : Compositor → Compositor
send_about_to_show c = record c { calls = to_resource c.overlay_resource about_to_show c.calls }

unfoldable pub send_about_to_hide : Compositor → Compositor
send_about_to_hide c = record c { calls = to_resource c.overlay_resource about_to_hide c.calls }

unfoldable pub send_output_info : Compositor → Compositor
send_output_info c = record c {
  calls = to_resource c.overlay_resource (λ r. output_info r c.output) c.calls;
}

-- The history after playos_compositor_ipc_send; every caller drops the status.
unfoldable pub ipc_calls : Os → Option ℕ → List ℕ → List ℕ → List Call → List Call
unfolding frame_send
ipc_calls os none type extra calls = calls
ipc_calls os (some fd) type extra calls = (frame_send os fd type extra calls).1

abbrev pub ipc_status : Os → Option ℕ → List ℕ → List ℕ → List Call → Bool
ipc_status os none type extra calls = false
ipc_status os (some fd) type extra calls = (frame_send os fd type extra calls).0

-- playos_compositor_ipc_send: whether it returned 0, and the state after it.
unfoldable pub ipc_send : Os → Compositor → List ℕ → List ℕ → Bool × Compositor
unfolding ipc_calls
ipc_send os c type extra = (
  ipc_status os c.link.sock_fd type extra c.calls,
  record c { calls = ipc_calls os c.link.sock_fd type extra c.calls },
)

abbrev pub msg_state_changed : List ℕ
msg_state_changed = codes "CompositorStateChanged"

abbrev pub msg_game_surface_ready : List ℕ
msg_game_surface_ready = codes "GameSurfaceReady"

-- `"key":"value"`, the shape of every extra_json.
abbrev pub member : List ℕ → List ℕ → List ℕ
member key value = codes "\"" ++ (key ++ (codes "\":\"" ++ (value ++ codes "\"")))

-- snprintf into a buffer of `size` bytes.
abbrev pub snprintf : ℕ → List ℕ → List ℕ
snprintf size text = take (size - 1) text

abbrev pub leaves_game : ForegroundState → Bool
leaves_game s = state_is s shell_foreground || state_is s terminating_game

-- The overlay is hidden when the game leaves the foreground, and its client is told.
unfoldable pub reset_overlay : Compositor → ForegroundState → Compositor
unfolding send_about_to_hide
reset_overlay c s =
    if leaves_game s
    then record (if c.overlay_visible then send_about_to_hide c else c) { overlay_visible = false }
    else c

-- Tells playos-init the new state.
unfoldable pub announce : Os → Compositor → ForegroundState → Compositor
unfolding ipc_send
announce os c s =
    (ipc_send os c msg_state_changed
      (snprintf 160 (member (codes "state") (foreground_state_name s)))).1

-- playos_state_transition.
unfoldable pub transition : Os → Compositor → ForegroundState → Compositor
unfolding reset_overlay refresh announce
transition os c s =
    if state_is c.fg_state s
    then c
    else announce os (refresh (record (reset_overlay c s) { fg_state = s })) s

abbrev pub clear_expected : Compositor → Compositor
clear_expected c = record c {
  expected_launch_token = [];
  expected_game_id = [];
  game_surface_ready = false;
}

-- playos_state_handle_set_expected_game; the caller passes no NULL.
unfoldable pub set_expected_game : Os → Compositor → List ℕ → List ℕ → Compositor
set_expected_game os c launch_token game_id =
    transition os
      (record c {
        expected_launch_token = snprintf 64 launch_token;
        expected_game_id = snprintf 256 game_id;
        game_surface_ready = false;
      })
      game_starting

abbrev pub has_game : ForegroundState → Bool
has_game s =
    state_is s game_starting
    || (state_is s game_foreground || state_is s playos_ui_foreground_with_game_background)

-- playos_state_handle_clear_expected.
unfoldable pub handle_clear_expected : Os → Compositor → Compositor
handle_clear_expected os c =
    let c' = clear_expected c in
    if has_game c.fg_state then transition os c' shell_foreground else c'

-- playos_state_handle_force_terminate.
unfoldable pub force_terminate : Os → Compositor → Compositor
force_terminate os c = clear_expected (transition os c terminating_game)

-- GameSurfaceReady, with the token of the launch.
unfoldable pub announce_ready : Os → Compositor → Compositor
unfolding ipc_send
announce_ready os c =
    (ipc_send os c msg_game_surface_ready
      (snprintf 192 (member (codes "launch_token") c.expected_launch_token))).1

-- playos_state_game_surface_ready.
unfoldable pub surface_ready : Os → Compositor → Compositor
surface_ready os c =
    if c.game_surface_ready
    then c
    else if state_is c.fg_state game_starting
    then transition os (announce_ready os (record c { game_surface_ready = true })) game_foreground
    else c

-- playos_state_game_exited; `crashed` is not read.
unfoldable pub game_exited : Os → Compositor → Compositor
game_exited os c = clear_expected (
    if has_game c.fg_state || state_is c.fg_state terminating_game
    then transition os c shell_foreground
    else c)
