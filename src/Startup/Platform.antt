-- ===== src/Startup/Platform.antt =====
-- What a start that succeeds runs on.
use playos_compositor.Base.{
  String, ℕ, ◌≡◌, refl, Bool, true, false, Option, none, some, List, arith, codes,
}
use playos_compositor.Compositor.{Output, Backend, headless, wayland, drm}
use playos_compositor.Devices.{Display, accelerated, software, headless_fallback, choose_display}
use playos_compositor.Startup.Requests.{World, Boot, asked, continue_with}
use playos_compositor.Startup.Trace.{Any, inits, Ends}
use playos_compositor.Startup.Backends.{
  fall_back, unless_started, drm_backend_start, start_accelerated, start_software,
  start_headless_fallback, start_plain, start_display, start_backend, no_gpu, native,
}

-- A backend, a renderer and an allocator, and the renderer's globals put on the display once.
pub record IsWhole (b : Boot) : Type 0 where
  pub has_backend : b.backend ≡ true
  pub has_renderer : b.renderer ≡ true
  pub has_allocator : b.allocator ≡ true
  pub once : inits b.requests ≡ 1

-- What the compositor runs on: a DRM device; the headless backend with the software renderer, where
-- there is no device; the headless backend after the discovered GPU did not start, where nothing is
-- said of the renderer and the allocator; or the backend that was asked for.
pub data Platform (w : World) (o : Output) (k : Backend) (b : Boot) : Type 0 where
  on_gpu :
      (path : List ℕ) (o' : Output)
      → k ≡ drm
      → choose_display w.devices o ≡ accelerated path o'
      → b.wlr_backends ≡ some (codes "drm")
      → b.wlr_drm_devices ≡ some path
      → IsWhole b
      → Platform w o k b
  on_card :
      (path : List ℕ) (o' : Output)
      → k ≡ drm
      → choose_display w.devices o ≡ software path o'
      → b.wlr_backends ≡ some (codes "drm")
      → b.wlr_drm_devices ≡ some path
      → IsWhole b
      → Platform w o k b
  on_no_device :
      k ≡ drm
      → choose_display w.devices o ≡ headless_fallback
      → b.wlr_backends ≡ some (codes "headless")
      → b.wlr_renderer ≡ some (codes "pixman")
      → IsWhole b
      → Platform w o k b
  gpu_lost :
      (path : List ℕ) (o' : Output)
      → k ≡ drm
      → choose_display w.devices o ≡ accelerated path o'
      → b.wlr_backends ≡ some (codes "headless")
      → b.backend ≡ true
      → Platform w o k b
  on_headless :
      k ≡ headless → b.wlr_backends ≡ some (codes "headless") → IsWhole b → Platform w o k b
  on_wayland : k ≡ wayland → b.wlr_backends ≡ some (codes "wayland") → IsWhole b → Platform w o k b

abbrev pub Fresh : Boot → Type 0
Fresh b = inits b.requests ≡ 0

abbrev Lost : Boot → Type 0
Lost b = (b.backend ≡ true) × (b.wlr_backends ≡ some (codes "headless"))

-- What playos_drm_backend_start returns.
abbrev DrmEnds : Option (List ℕ) → Option Bool × Boot → Type 0
DrmEnds path (none, b) = Unit {0}
DrmEnds path (some true, b) =
    IsWhole b × (b.wlr_backends ≡ some (codes "drm")) × (b.wlr_drm_devices ≡ path)
DrmEnds path (some false, b) = Unit {0}

data OnGpu (path : Option (List ℕ)) (b : Boot) : Type 0 where
  started :
      IsWhole b → b.wlr_backends ≡ some (codes "drm") → b.wlr_drm_devices ≡ path → OnGpu path b
  lost : b.backend ≡ true → b.wlr_backends ≡ some (codes "headless") → OnGpu path b

pub Ends-map :
    (I J : Boot → Type 0) (r : Option (Unit {0}) × Boot)
    → Ends I Any r
    → ((b : Boot) → I b → J b)
    → Ends J Any r
Ends-map I J (none, b) h f = tt
Ends-map I J (some a, b) h f = f b h

module _ (w : World) where
  start_plain-IsWhole :
      (name : List ℕ) (m : String) (b : Boot)
      → Fresh b
      → Ends (λ b'. IsWhole b' × (b'.wlr_backends ≡ some name)) Any (start_plain w name m b)
  unfolding start_plain inits
  start_plain-IsWhole name m b h = ground arith

  start_headless_fallback-IsWhole :
      (b : Boot)
      → Fresh b
      → Ends
          (λ b'.
            IsWhole b'
            × (b'.wlr_backends ≡ some (codes "headless"))
            × (b'.wlr_renderer ≡ some (codes "pixman")))
          Any
          (start_headless_fallback w b)
  unfolding start_headless_fallback inits
  start_headless_fallback-IsWhole b h = ground arith

  start_software-IsWhole :
      (path : List ℕ) (b : Boot)
      → Fresh b
      → Ends
          (λ b'.
            IsWhole b' × (b'.wlr_backends ≡ some (codes "drm")) × (b'.wlr_drm_devices ≡ some path))
          Any
          (start_software w path b)
  unfolding start_software inits
  start_software-IsWhole path b h = ground arith

  drm_backend_start-DrmEnds :
      (b : Boot) → Fresh b → DrmEnds b.wlr_drm_devices (drm_backend_start w b)
  unfolding drm_backend_start inits
  drm_backend_start-DrmEnds b h = ground arith

  fall_back-Lost : (b : Boot) → Ends Lost Any (fall_back w b)
  unfolding fall_back
  fall_back-Lost b = ground arith

  unless_started-OnGpu :
      (path : Option (List ℕ)) (r : Option Bool × Boot)
      → DrmEnds path r
      → Ends (OnGpu path) Any (continue_with (unless_started w) r)
  unfolding unless_started
  unless_started-OnGpu path (none, b) h = tt
  unless_started-OnGpu path (some true, b) h = started h.0 h.1 h.2
  unless_started-OnGpu path (some false, b) h =
      Ends-map Lost (OnGpu path) (fall_back w b) (fall_back-Lost b) (λ b' l. lost l.0 l.1)

  start_display-Platform :
      (d : Display) (o : Output) (b : Boot)
      → Fresh b
      → choose_display w.devices o ≡ d
      → Ends (Platform w o drm) Any (start_display w d b)
  unfolding start_display inits start_accelerated
  start_display-Platform (accelerated path o') o b h e =
      Ends-map (OnGpu (some path)) (Platform w o drm)
        (start_accelerated w path (record b { output = o' }))
        (unless_started-OnGpu (some path) _
          (drm_backend_start-DrmEnds (record b { output = o'; wlr_drm_devices = some path }) h))
        (λ b' g. elim g [
          | started whole backends devices ↦ on_gpu path o' refl e backends devices whole
          | lost backend backends ↦ gpu_lost path o' refl e backends backend
        ])
  start_display-Platform (software path o') o b h e =
      Ends-map _ (Platform w o drm)
        (start_software w path (record (asked no_gpu b) { output = o' }))
        (start_software-IsWhole path (record (asked no_gpu b) { output = o' }) h)
        (λ b' g. on_card path o' refl e g.1 g.2 g.0)
  start_display-Platform headless_fallback o b h e =
      Ends-map _ (Platform w o drm) (start_headless_fallback w (asked no_gpu b))
        (start_headless_fallback-IsWhole (asked no_gpu b) h)
        (λ b' g. on_no_device refl e g.1 g.2 g.0)

  pub start_backend-Platform :
      (k : Backend) (b : Boot) → Fresh b → Ends (Platform w b.output k) Any (start_backend w k b)
  unfolding start_backend inits
  start_backend-Platform drm b h =
      start_display-Platform (choose_display w.devices b.output) b.output (asked native b) h refl
  start_backend-Platform headless b h =
      Ends-map _ (Platform w b.output headless) (start_plain w (codes "headless") _ b)
        (start_plain-IsWhole (codes "headless") _ b h) (λ b' g. on_headless refl g.1 g.0)
  start_backend-Platform wayland b h =
      Ends-map _ (Platform w b.output wayland) (start_plain w (codes "wayland") _ b)
        (start_plain-IsWhole (codes "wayland") _ b h) (λ b' g. on_wayland refl g.1 g.0)
