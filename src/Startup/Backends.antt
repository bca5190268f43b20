-- ===== src/Startup/Backends.antt =====
-- The backend, the renderer and the allocator: the first half of playos_compositor_start, and
-- playos_drm_backend_start of src/drm_backend.c.
use playos_compositor.Base.{
  String, ℕ, Bool, true, false, ◌&&◌, none, some, List, [], codes, str_eq, if◌then◌else◌,
}
use playos_compositor.Compositor.{Output, Backend, headless, wayland, drm}
use playos_compositor.Devices.{Display, accelerated, software, headless_fallback, choose_display}
use playos_compositor.Diagnostics.{backend_start_phase, renderer_init_phase, fallback_phase}
use playos_compositor.Startup.Requests.{
  World, Start, pure, ◌>>=◌, ◌>>◌, modify, attempt, perform, fatal, give_up, required, Request,
  backend_autocreate, renderer_autocreate, init_wl_display, allocator_autocreate, logged_phase,
  logged_fallback,
}

-- setenv of one variable, overwriting.
abbrev pub set_backends : List ℕ → Start (Unit {0})
set_backends v = modify λ b. record b { wlr_backends = some v }

abbrev pub set_renderer : List ℕ → Start (Unit {0})
set_renderer v = modify λ b. record b { wlr_renderer = some v }

abbrev pub set_drm_devices : List ℕ → Start (Unit {0})
set_drm_devices v = modify λ b. record b { wlr_drm_devices = some v }

-- compositor_apply_renderer_preference.
unfoldable pub apply_renderer_preference : World → Start (Unit {0})
unfolding str_eq
apply_renderer_preference w = elim w.playos_renderer [
  | none ↦ pure tt
  | some pref ↦
      if str_eq pref []
      then pure tt
      else if str_eq pref (codes "auto")
      then pure tt
      else set_renderer pref
]

-- The log lines of the DRM branch.
abbrev pub native : Request
native = logged_phase backend_start_phase "using native DRM/KMS backend"

abbrev pub no_gpu : Request
no_gpu = logged_fallback "simpledrm" "GPU discovery failed after 5s, using the software path"

module _ (w : World) where
  -- The assignments of wlr_*_autocreate to the compositor's pointers.
  unfoldable pub create_backend : Start Bool
  create_backend = do
    ok ← attempt w backend_autocreate
    modify λ b. record b { backend = ok }
    pure ok

  unfoldable pub create_renderer : Start Bool
  create_renderer = do
    ok ← attempt w renderer_autocreate
    modify λ b. record b { renderer = ok }
    pure ok

  unfoldable pub create_allocator : Start Bool
  create_allocator = do
    ok ← attempt w allocator_autocreate
    modify λ b. record b { allocator = ok }
    pure ok

  -- The renderer of playos_drm_backend_start: the automatic one, or pixman where that fails.
  unfoldable pub or_pixman : Bool → Start Bool
  unfolding create_renderer
  or_pixman true = pure true
  or_pixman false = set_renderer (codes "pixman") >> create_renderer

  -- The three results that playos_drm_backend_start looks at, last first; `false` is its -1.
  unfoldable pub after_allocator : Bool → Start Bool
  after_allocator true = do
    perform (logged_phase renderer_init_phase "DRM/KMS backend initialized successfully")
    pure true
  after_allocator false = fatal backend_start_phase "failed to create allocator" >> pure false

  unfoldable pub after_renderer : Bool → Start Bool
  unfolding create_allocator after_allocator
  after_renderer true = do
    perform init_wl_display
    allocator ← create_allocator
    after_allocator allocator
  after_renderer false = do
    fatal backend_start_phase "failed to create renderer (gles2 and pixman)"
    pure false

  unfoldable pub after_backend : Bool → Start Bool
  unfolding create_renderer or_pixman after_renderer
  after_backend true = do
    perform (logged_phase backend_start_phase "DRM backend created")
    automatic ← create_renderer
    renderer ← or_pixman automatic
    after_renderer renderer
  after_backend false = do
    perform (logged_fallback "simpledrm" "DRM backend autocreate failed")
    fatal backend_start_phase "failed to create DRM backend"
    pure false

  -- playos_drm_backend_start.
  unfoldable pub drm_backend_start : Start Bool
  unfolding create_backend after_backend
  drm_backend_start = do
    perform (logged_phase backend_start_phase "initializing native DRM/KMS backend")
    set_backends (codes "drm")
    backend ← create_backend
    after_backend backend

  -- wlr_renderer_init_wl_display, where the renderer is not NULL.
  unfoldable pub init_display_if : Bool → Start (Unit {0})
  init_display_if renderer = if renderer then perform init_wl_display else pure tt

  -- No DRM device has an output: the headless backend with the pixman renderer.
  unfoldable pub start_headless_fallback : Start (Unit {0})
  unfolding create_backend create_renderer create_allocator init_display_if
  start_headless_fallback = do
    perform (logged_fallback "headless" "no DRM device with an output, falling back to headless")
    set_backends (codes "headless")
    backend ← create_backend
    required backend fallback_phase "headless fallback also failed"
    set_renderer (codes "pixman")
    renderer ← create_renderer
    init_display_if renderer
    allocator ← create_allocator
    required (renderer && allocator) fallback_phase "headless renderer/allocator creation failed"

  -- A device without an accelerated GPU.
  unfoldable pub start_software : List ℕ → Start (Unit {0})
  unfolding drm_backend_start
  start_software path = do
    set_drm_devices path
    ok ← drm_backend_start
    required ok fallback_phase "software display path failed"

  -- The headless backend after a DRM backend on the discovered GPU that did not start: what is made
  -- of it is not looked at.
  unfoldable pub fall_back_on : Bool → Start (Unit {0})
  unfolding create_renderer create_allocator init_display_if
  fall_back_on true = do
    renderer ← create_renderer
    init_display_if renderer
    create_allocator
    pure tt
  fall_back_on false = give_up

  unfoldable pub fall_back : Start (Unit {0})
  unfolding create_backend fall_back_on
  fall_back = do
    perform (logged_fallback "headless" "DRM backend start failed")
    set_backends (codes "headless")
    backend ← create_backend
    fall_back_on backend

  unfoldable pub unless_started : Bool → Start (Unit {0})
  unfolding fall_back
  unless_started true = pure tt
  unless_started false = fall_back

  unfoldable pub start_accelerated : List ℕ → Start (Unit {0})
  unfolding drm_backend_start unless_started
  start_accelerated path = do set_drm_devices path; ok ← drm_backend_start; unless_started ok

  -- The headless and the nested Wayland backend.
  unfoldable pub start_plain : List ℕ → String → Start (Unit {0})
  unfolding create_backend create_renderer create_allocator
  start_plain name message = do
    set_backends name
    perform (logged_phase backend_start_phase message)
    backend ← create_backend
    required backend backend_start_phase "failed to create backend"
    renderer ← create_renderer
    required renderer backend_start_phase "failed to create renderer"
    perform init_wl_display
    allocator ← create_allocator
    required allocator backend_start_phase "failed to create allocator"

  abbrev set_output : Output → Start (Unit {0})
  set_output o = modify λ b. record b { output = o }

  -- What the choice of the device leads to.
  unfoldable pub start_display : Display → Start (Unit {0})
  unfolding start_accelerated start_software start_headless_fallback
  start_display (accelerated path o) = set_output o >> start_accelerated path
  start_display (software path o) = do perform no_gpu; set_output o; start_software path
  start_display headless_fallback = do perform no_gpu; start_headless_fallback

  -- The branches of playos_compositor_start on the kind of backend.
  unfoldable pub start_backend : Backend → Start (Unit {0})
  unfolding start_display start_plain choose_display
  start_backend drm = do perform native; λ b. start_display (choose_display w.devices b.output) b
  start_backend headless = start_plain (codes "headless") "using headless backend"
  start_backend wayland = start_plain (codes "wayland") "using nested Wayland backend"
