-- ===== src/Startup/Cleanup.antt =====
-- What a start that fails leaves behind.
use playos_compositor.Base.{
  Bool-cases, inl, inr, String, Bool, false, ℕ, ◌≡◌, refl, true, Option, none, some, List, ◌∷◌,
  arith,
}
use playos_compositor.Compositor.{Output, Backend, headless, wayland, drm}
use playos_compositor.Devices.{Display, accelerated, software, headless_fallback, choose_display}
use playos_compositor.Startup.Requests.{
  World, Boot, Request, asked, display_destroy, display_create, boot_of,
}
use playos_compositor.Startup.Trace.{destroys, has_fatal, torn_down, Ends, Keep, in_order-Keep}
use playos_compositor.Startup.Backends.{
  start_accelerated, start_software, start_headless_fallback, start_plain, start_display,
  start_backend, apply_renderer_preference, no_gpu, native,
}
use playos_compositor.Startup.{
  query_renderer, create_scene, create_globals, open_for_clients, stages, after_display, begin,
  start,
}

abbrev Open : Boot → Type 0
Open b = destroys b.requests ≡ 0

abbrev Torn : Boot → Type 0
Torn b = torn_down b.requests ≡ true

module _ (w : World) where
  start_plain-Open : (name : List ℕ) (m : String) → Keep Open Torn (start_plain w name m)
  unfolding start_plain torn_down
  start_plain-Open name m b h = ground arith

  start_headless_fallback-Open : Keep Open Torn (start_headless_fallback w)
  unfolding start_headless_fallback torn_down
  start_headless_fallback-Open b h = ground arith

  start_software-Open : (path : List ℕ) → Keep Open Torn (start_software w path)
  unfolding start_software torn_down
  start_software-Open path b h = ground arith

  start_accelerated-Open : (path : List ℕ) → Keep Open Torn (start_accelerated w path)
  unfolding start_accelerated torn_down
  start_accelerated-Open path b h = ground arith

  create_scene-Open : Keep Open Torn (create_scene w)
  unfolding create_scene torn_down
  create_scene-Open b h = ground arith

  create_globals-Open : Keep Open Torn (create_globals w)
  unfolding create_globals torn_down
  create_globals-Open b h = ground arith

  open_for_clients-Open : Keep Open Torn (open_for_clients w)
  unfolding open_for_clients torn_down
  open_for_clients-Open b h = ground arith

  start_display-Open : (d : Display) → Keep Open Torn (start_display w d)
  unfolding start_display destroys
  start_display-Open (accelerated path o) b h =
      start_accelerated-Open path (record b { output = o }) h
  start_display-Open (software path o) b h =
      start_software-Open path (record (asked no_gpu b) { output = o }) h
  start_display-Open headless_fallback b h = start_headless_fallback-Open (asked no_gpu b) h

  start_backend-Open : (k : Backend) → Keep Open Torn (start_backend w k)
  unfolding start_backend destroys
  start_backend-Open drm b h =
      start_display-Open (choose_display w.devices b.output) (asked native b) h
  start_backend-Open headless b h = start_plain-Open _ _ b h
  start_backend-Open wayland b h = start_plain-Open _ _ b h

  apply_renderer_preference-Open : Keep Open Torn (apply_renderer_preference w)
  unfolding apply_renderer_preference
  apply_renderer_preference-Open b h = ground arith

  query_renderer-Open : Keep Open Torn (query_renderer w)
  unfolding query_renderer destroys
  query_renderer-Open b h = ground arith

  -- After the display was created.
  after_display-Open : (k : Backend) → Keep Open Torn (after_display w k true)
  unfolding after_display destroys
  after_display-Open k = in_order-Keep Open Torn (stages w k) (
    apply_renderer_preference-Open,
    (
      start_backend-Open k,
      (
        query_renderer-Open,
        (create_scene-Open, (create_globals-Open, (open_for_clients-Open, (λ b h. h, tt)))),
      ),
    ),
  )

-- How a start ends, where `created` says whether the display could be created: with the display,
-- which was never destroyed; without one, since it could not be created; or with the display
-- destroyed by the last request of all, and never before.
pub data Ended (created : Bool) (r : Option (Unit {0})) (b : Boot) : Type 0 where
  running : created ≡ true → r ≡ some tt → destroys b.requests ≡ 0 → Ended created r b
  no_display :
      created ≡ false
      → r ≡ none
      → destroys b.requests ≡ 0
      → has_fatal b.requests ≡ true
      → Ended created r b
  torn :
      (before : List Request)
      → created ≡ true
      → r ≡ none
      → b.requests ≡ display_destroy ∷ before
      → destroys before ≡ 0
      → has_fatal before ≡ true
      → Ended created r b

torn_down-Ended :
    (b : Boot) (rs : List Request) → b.requests ≡ rs → torn_down rs ≡ true → Ended true none b
unfolding torn_down
torn_down-Ended b (display_destroy ∷ rs) e h = torn rs refl refl e (ground arith) (ground arith)
torn_down-Ended b _ e h = cc

Ends-Ended : (r : Option (Unit {0}) × Boot) → Ends Open Torn r → Ended true r.0 r.1
Ends-Ended (none, b) h = torn_down-Ended b b.requests refl h
Ends-Ended (some tt, b) h = running refl refl h

-- If the display could be created, a start either succeeds and never destroys it, or fails, and then
-- a failure was logged and the display is destroyed once, by the last request of all. If the display
-- could not be created, the start fails, a failure was logged, and nothing is destroyed.
pub start-Ended :
    (w : World) (k : Backend) (o : Output)
    → Ended
        (w.ok (asked begin (boot_of w o)) display_create)
        (start w k (boot_of w o)).0
        (start w k (boot_of w o)).1
unfolding start after_display destroys has_fatal
start-Ended w k o = elim (Bool-cases (w.ok (asked begin (boot_of w o)) display_create)) [
  | inl e ↦ rw (e, start) (Ends-Ended _ (after_display-Open w k _ refl))
  | inr e ↦ rw (e, start) (no_display refl refl refl refl)
]
