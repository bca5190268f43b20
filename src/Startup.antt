-- ===== src/Startup.antt =====
-- playos_compositor_start of src/compositor.c, with playos_drm_backend_start of src/drm_backend.c,
-- the globals of src/playos_manager.c and playos_system_button_init of src/system_button.c. wlroots,
-- libwayland and the system answer each request; the requests are kept, newest first.
pub mod Requests
pub mod Backends
pub mod Trace
pub mod Cleanup
pub mod Platform
pub mod Running
pub mod Faults
pub mod Handover
pub mod Order
use playos_compositor.Base.{
  [], ◌∷◌, String, ◌++◌, ℕ, Bool, true, false, not, Option, none, some, codes, if◌then◌else◌, List,
}
use playos_compositor.Compositor.{Compositor, Backend, headless, wayland, drm, Os}
use playos_compositor.Diagnostics.{Phase, init_phase, running_phase, backend_start_phase}
use playos_compositor.Lifecycle.{mark_ready, backend_of, compositor_init}
use playos_compositor.Startup.Requests.{
  World, Boot, Start, pure, in_order, ◌>>=◌, ◌>>◌, modify, attempt, perform, asked, fatal, give_up,
  required, Request, display_create, scene_create, output_layout_create, compositor_create,
  xdg_shell_create, screencopy_create, seat_create, calloc, manager_global, overlay_global,
  listen_new_output, listen_new_toplevel, listen_new_input, add_socket, chmod, backend_start,
  renderer_query, readiness_signal, logged_phase, boot_of,
}
use playos_compositor.Startup.Backends.{start_backend, apply_renderer_preference}

-- c->socket_name.
abbrev pub socket_name : List ℕ
socket_name = codes "playos-0"

abbrev pub begin : Request
begin = logged_phase init_phase "compositor starting"

module _ (w : World) where
  -- playos_manager_create and playos_overlay_create: no memory or no global is a failure.
  unfoldable pub register_global : Request → Bool → Start Bool
  register_global global true = attempt w global
  register_global global false = pure false

  unfoldable pub create_global : Request → Start Bool
  unfolding register_global
  create_global global = do memory ← attempt w calloc; register_global global memory

  -- A request of playos_compositor_start whose failure ends it.
  unfoldable pub needed : Request → String → Start (Unit {0})
  needed r message = do ok ← attempt w r; required ok init_phase message

  -- playos_system_button_init does nothing without a backend.
  unfoldable pub system_button_init : Start (Unit {0})
  system_button_init = modify λ b. if b.backend then asked listen_new_input b else b

  -- setenv of XDG_RUNTIME_DIR, which does not overwrite.
  unfoldable pub default_runtime_dir : Start (Unit {0})
  default_runtime_dir = modify λ b. record b {
    xdg_runtime_dir = elim b.xdg_runtime_dir [
      | none ↦ some (codes "/run/playos")
      | some d ↦ some d
    ];
  }

  unfoldable pub query_renderer : Start (Unit {0})
  query_renderer = modify λ b. if b.renderer then asked renderer_query b else b

  -- The scene graph, the output layout, the shell's protocol and the seat.
  unfoldable pub create_scene : Start (Unit {0})
  unfolding needed
  create_scene = do
    needed scene_create "failed to create scene"
    needed output_layout_create "failed to create output layout"
    perform compositor_create
    needed xdg_shell_create "failed to create xdg_shell"
    attempt w screencopy_create
    needed seat_create "failed to create seat"

  -- The two trusted globals.
  unfoldable pub create_globals : Start (Unit {0})
  unfolding create_global
  create_globals = do
    manager ← create_global manager_global
    required manager init_phase "failed to create playos_manager global"
    overlay ← create_global overlay_global
    required overlay init_phase "failed to create playos_overlay global"

  -- From the listeners to the start of the backend.
  unfoldable pub open_for_clients : Start (Unit {0})
  unfolding needed system_button_init default_runtime_dir
  open_for_clients = do
    perform listen_new_output
    perform listen_new_toplevel
    system_button_init
    default_runtime_dir
    needed (add_socket socket_name) "failed to add Wayland socket"
    needed (chmod (codes "/run/playos/" ++ socket_name)) "failed to chmod Wayland socket"
    started ← attempt w backend_start
    required started backend_start_phase "failed to start backend"

  -- What follows once the display exists.
  abbrev pub stages : Backend → List (Start (Unit {0}))
  stages backend =
      apply_renderer_preference w
      ∷ start_backend w backend
      ∷ query_renderer
      ∷ create_scene
      ∷ create_globals
      ∷ open_for_clients
      ∷ perform readiness_signal
      ∷ []

  unfoldable pub after_display : Backend → Bool → Start (Unit {0})
  unfolding query_renderer create_scene create_globals open_for_clients start_backend
      apply_renderer_preference
  after_display backend true = in_order (stages backend)
  after_display backend false = do fatal init_phase "failed to create wl_display"; λ b. (none, b)

  -- playos_compositor_start, up to the fields that it sets at its end.
  unfoldable pub start : Backend → Start (Unit {0})
  unfolding after_display
  start backend = do
    perform begin
    display ← attempt w display_create
    after_display backend display

-- playos_compositor_start: -1, or the compositor as the event loop gets it.
unfoldable pub compositor_start : World → Os → Compositor → Option Compositor
unfolding start mark_ready
compositor_start w os c =
    let (r, b) = start w c.backend_type (boot_of w c.output) in
    elim r [ none ↦ none | some _ ↦ some (mark_ready os (record c { output = b.output })) ]

-- main up to the event loop, by the value of PLAYOS_BACKEND; `none` is EXIT_FAILURE.
unfoldable pub main : World → Os → Option (List ℕ) → Option Compositor
unfolding compositor_start backend_of compositor_init
main w os backend_env = compositor_start w os (compositor_init (backend_of backend_env))
