-- ===== src/Startup/Requests.antt =====
-- What playos_compositor_start asks of wlroots, libwayland and the system, and a monad for code that
-- asks and may return -1. The state after a failure is kept, since what was asked stays asked.
-- A request that may fail is followed by its answer.
use playos_compositor.Base.{ℕ, Bool, true, false, Option, none, some, List, [], ◌∷◌, String}
use playos_compositor.Compositor.{Output}
use playos_compositor.Devices.{Drm}
use playos_compositor.Diagnostics.{Phase}

pub data Request : Type 0 where
  display_create display_destroy : Request
  backend_autocreate renderer_autocreate init_wl_display allocator_autocreate : Request
  renderer_query : Request
  scene_create output_layout_create compositor_create xdg_shell_create : Request
  screencopy_create seat_create calloc manager_global overlay_global : Request
  listen_new_output listen_new_toplevel listen_new_input : Request
  add_socket chmod : List ℕ → Request
  backend_start readiness_signal : Request
  logged_phase logged_fatal : Phase → String → Request
  logged_fallback : (name reason : String) → Request
  answer : Bool → Request → Request

-- The pointers of the compositor that are not NULL, the environment variables, the output's fields,
-- and the requests.
pub record Boot : Type 0 where
  pub backend : Bool
  pub renderer : Bool
  pub allocator : Bool
  pub wlr_backends : Option (List ℕ)
  pub wlr_renderer : Option (List ℕ)
  pub wlr_drm_devices : Option (List ℕ)
  pub xdg_runtime_dir : Option (List ℕ)
  pub output : Output
  pub requests : List Request

-- Whether a request succeeds, by all that went before it; what the machine answers about its
-- devices; and the variables that the process is started with.
pub record World : Type 0 where
  pub ok : Boot → Request → Bool
  pub devices : Drm
  pub playos_renderer : Option (List ℕ)
  pub runtime_dir : Option (List ℕ)

-- The state in which playos_compositor_start is called.
abbrev pub boot_of : World → Output → Boot
boot_of w o = record {
  backend = false;
  renderer = false;
  allocator = false;
  wlr_backends = none;
  wlr_renderer = none;
  wlr_drm_devices = none;
  xdg_runtime_dir = w.runtime_dir;
  output = o;
  requests = [];
}

-- `none` is a return of -1.
abbrev pub Start : Type 0 → Type 0
Start A = Boot → Option A × Boot

abbrev pub pure : {A : Type 0} → A → Start A
pure a b = (some a, b)

abbrev pub continue_with : {A B : Type 0} → (A → Start B) → Option A × Boot → Option B × Boot
continue_with f (none, b) = (none, b)
continue_with f (some a, b) = f a b

infixl 5 ◌>>=◌ ◌>>◌
abbrev pub ◌>>=◌ : {A B : Type 0} → Start A → (A → Start B) → Start B
◌>>=◌ m f b = continue_with f (m b)

abbrev pub ◌>>◌ : {A B : Type 0} → Start A → Start B → Start B
m >> k = m >>= λ _. k

abbrev pub modify : (Boot → Boot) → Start (Unit {0})
modify f b = (some tt, f b)

abbrev pub asked : Request → Boot → Boot
asked r b = record b { requests = r ∷ b.requests }

-- A request that cannot fail, or whose failure the code does not look at.
abbrev pub perform : Request → Start (Unit {0})
perform r b = (some tt, asked r b)

abbrev pub attempt : World → Request → Start Bool
attempt w r b = (some (w.ok b r), asked (answer (w.ok b r) r) (asked r b))

-- Parts that follow one another.
abbrev pub in_order : List (Start (Unit {0})) → Start (Unit {0})
in_order [] = pure tt
in_order (m ∷ ms) = m >> in_order ms

-- playos_diag_fatal, whose -1 the caller returns or drops.
abbrev pub fatal : Phase → String → Start (Unit {0})
fatal p message = perform (logged_fatal p message)

-- wl_display_destroy and return -1.
abbrev pub give_up : Start (Unit {0})
give_up b = (none, asked display_destroy b)

-- The check of a result: a failure is logged and ends the start.
abbrev pub required : Bool → Phase → String → Start (Unit {0})
required true p message = pure tt
required false p message = fatal p message >> give_up
