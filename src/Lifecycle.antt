-- ===== src/Lifecycle.antt =====
-- Start of the compositor: playos_compositor_init and the end of playos_compositor_start in
-- src/compositor.c, and the choice of the backend in src/main.c.
use playos_compositor.Base.{
  ℕ, true, false, Option, none, some, List, [], if◌then◌else◌, str_eq, codes,
}
use playos_compositor.Compositor.{
  Compositor, Backend, Output, headless, wayland, drm, starting, ready, shutting_down, no_role,
  shell_foreground, no_output, no_frames, Os,
}
use playos_compositor.Foreground.{state_init}
use playos_compositor.Trusted.{trusted_init}
use playos_compositor.Ipc.{ipc_start, ipc_stop}

-- The backend that main takes from PLAYOS_BACKEND; NULL is `none`.
unfoldable pub backend_of : Option (List ℕ) → Backend
unfolding str_eq
backend_of none = headless
backend_of (some name) =
    if str_eq name (codes "wayland")
    then wayland
    else if str_eq name (codes "drm")
    then drm
    else headless

-- The struct after memset to 0: every enumeration has its first value. The descriptor of the socket
-- is 0 there, which playos_compositor_init then sets to -1; the model has -1 at once.
abbrev pub zeroed : Compositor
zeroed = record {
  backend_type = headless;
  state = starting;
  running = false;
  shell_client = none;
  overlay_client = none;
  overlay_resource = none;
  overlay_resources = [];
  pending_role = no_role;
  shell_client_destroy = none;
  overlay_client_destroy = none;
  fg_state = shell_foreground;
  expected_launch_token = [];
  expected_game_id = [];
  shell_tree = none;
  game_tree = none;
  overlay_tree = none;
  toplevels = [];
  game_surface_ready = false;
  overlay_visible = false;
  link = record { sock_fd = none; source = false; timer = false; delay_ms = 100 };
  frames = no_frames;
  output = no_output;
  calls = [];
}

-- playos_compositor_init.
unfoldable pub compositor_init : Backend → Compositor
unfolding state_init trusted_init
compositor_init backend = trusted_init (state_init (record zeroed { backend_type = backend }))

-- The end of playos_compositor_start, once the backend runs.
unfoldable pub mark_ready : Os → Compositor → Compositor
mark_ready os c = ipc_start os (record c { state = ready; running = true })

-- The state in which the event loop begins, with the output that playos_compositor_start has set.
unfoldable pub started : Os → Backend → Output → Compositor
unfolding compositor_init
started os backend o = mark_ready os (record (compositor_init backend) { output = o })

-- playos_compositor_destroy.
unfoldable pub compositor_destroy : Compositor → Compositor
compositor_destroy c = ipc_stop (record c { running = false; state = shutting_down })
