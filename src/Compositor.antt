-- ===== src/Compositor.antt =====
-- The compositor's state: include/compositor.h, the per-toplevel record of src/compositor.c, the
-- per-binding record of src/playos_manager.c, and the calls that the code makes of wlroots,
-- libwayland and the system. Pointers to objects of those libraries are numbers; NULL is `none`.
use playos_compositor.Base.{ℕ, Bool, true, false, Option, List}

pub data Backend : Type 0 where
  headless wayland drm : Backend

pub data LifecycleState : Type 0 where
  starting ready running shutting_down : LifecycleState

pub data ForegroundState : Type 0 where
  shell_foreground game_starting game_foreground : ForegroundState
  playos_ui_foreground_with_game_background terminating_game : ForegroundState

pub ForegroundState-discrete : Discrete ForegroundState
ForegroundState-discrete = hlevel

pub data Role : Type 0 where
  no_role shell overlay game : Role

abbrev pub role_is : Role → Role → Bool
role_is no_role no_role = true
role_is shell shell = true
role_is overlay overlay = true
role_is game game = true
role_is _ _ = false

-- `a == b` on two foreground states.
abbrev pub state_is : ForegroundState → ForegroundState → Bool
state_is shell_foreground shell_foreground = true
state_is game_starting game_starting = true
state_is game_foreground game_foreground = true
state_is playos_ui_foreground_with_game_background playos_ui_foreground_with_game_background = true
state_is terminating_game terminating_game = true
state_is _ _ = false

-- struct playos_toplevel_track: the scene tree, the client and the role of one xdg toplevel.
pub record Track : Type 0 where
  pub tree : ℕ
  pub client : ℕ
  pub role : Role

-- struct playos_overlay_bound: one binding of playos_overlay_v1.
pub record Bound : Type 0 where
  pub client : ℕ
  pub resource : ℕ

-- The output_* fields.
pub record Output : Type 0 where
  pub width : ℕ
  pub height : ℕ
  pub refresh_mhz : ℕ
  pub scale_100 : ℕ

-- The fps_* and present_* counters (unsigned); the window's start in nanoseconds.
pub record Frames : Type 0 where
  pub commits_shell : ℕ
  pub commits_game : ℕ
  pub window_start : ℕ
  pub zero_copy : ℕ
  pub copied : ℕ

-- The compositor.sock fields: the descriptor (`none` is -1), whether the event source and the
-- reconnect timer are set, and the delay.
pub record Link : Type 0 where
  pub sock_fd : Option ℕ
  pub source : Bool
  pub timer : Bool
  pub delay_ms : ℕ

-- A call of a library or of the system, as far as it has an effect outside the compositor.
-- `null_timer` is wl_event_source_timer_update of NULL, which libwayland does not allow; what follows
-- it is the code's, if it comes back.
pub data Call : Type 0 where
  set_enabled : ℕ → Bool → Call
  raise_to_top : ℕ → Call
  about_to_show about_to_hide : ℕ → Call
  output_info : ℕ → Output → Call
  sent : ℕ → List ℕ → Call
  received : ℕ → Call
  opened closed : ℕ → Call
  timer_update : ℕ → Call
  null_timer : Call
  role_already_taken : ℕ → Call
  set_size : ℕ → ℕ → ℕ → Call

-- What a call of send(2) answers: a number of bytes, -1 with EINTR, or -1 with another error.
pub data SendResult : Type 0 where
  count : ℕ → SendResult
  interrupted failed : SendResult

-- The system as the code sees it: each answer depends on all calls made before it, newest first.
-- `uninit` is the string that an uninitialised stack buffer of the given size happens to hold;
-- `adds_fd` and `adds_timer` are whether wl_event_loop_add_fd and wl_event_loop_add_timer give an
-- event source.
pub record Os : Type 0 where
  pub send : List Call → ℕ → List ℕ → SendResult
  pub socket : List Call → Option ℕ
  pub connect : List Call → ℕ → Bool
  pub read : List Call → ℕ → Option (List ℕ)
  pub uninit : List Call → ℕ → List ℕ
  pub adds_fd : List Call → ℕ → Bool
  pub adds_timer : List Call → Bool

-- struct playos_compositor. Strings are their bytes before the NUL. `calls` is the history of
-- the calls made outside, newest first; the C struct has no such field.
-- A destroy listener is given by the client whose destroy signal it is on.
pub record Compositor : Type 0 where
  pub backend_type : Backend
  pub state : LifecycleState
  pub running : Bool
  pub shell_client : Option ℕ
  pub overlay_client : Option ℕ
  pub overlay_resource : Option ℕ
  pub overlay_resources : List Bound
  pub pending_role : Role
  pub shell_client_destroy : Option ℕ
  pub overlay_client_destroy : Option ℕ
  pub fg_state : ForegroundState
  pub expected_launch_token : List ℕ
  pub expected_game_id : List ℕ
  pub shell_tree : Option ℕ
  pub game_tree : Option ℕ
  pub overlay_tree : Option ℕ
  pub toplevels : List Track
  pub game_surface_ready : Bool
  pub overlay_visible : Bool
  pub link : Link
  pub frames : Frames
  pub output : Output
  pub calls : List Call

-- Parts of the state that playos_compositor_init leaves: see Lifecycle for the whole.
abbrev pub no_output : Output
no_output = record { width = 0; height = 0; refresh_mhz = 0; scale_100 = 0 }

abbrev pub no_frames : Frames
no_frames = record {
  commits_shell = 0;
  commits_game = 0;
  window_start = 0;
  zero_copy = 0;
  copied = 0;
}
