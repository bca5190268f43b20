-- ===== src/Startup/Running.antt =====
-- What the rest of a start leaves as it is, and what a start that succeeds runs on.
use playos_compositor.Base.{
  Bool-cases, inl, inr, ◌≡◌, refl, subst, drop, ◌∙◌, true, Option, none, some, arith,
}
use playos_compositor.Compositor.{Output, Backend}
use playos_compositor.Startup.Requests.{
  World, perform, readiness_signal, Boot, Start, asked, boot_of, in_order, display_create,
}
use playos_compositor.Startup.Trace.{Any, inits, Ends, Keep, in_order-Keep, continue_with-Ends}
use playos_compositor.Startup.Backends.{apply_renderer_preference, start_backend}
use playos_compositor.Startup.Platform.{
  Platform, on_gpu, on_card, on_no_device, gpu_lost, on_headless, on_wayland, IsWhole, Fresh,
  Ends-map, start_backend-Platform,
}
use playos_compositor.Startup.{
  query_renderer, create_scene, create_globals, open_for_clients, stages, after_display, begin,
  start,
}

-- The pointers, the variables of wlroots and the count of the renderer's globals are the same.
record Same (b b' : Boot) : Type 0 where
  same_backend : b'.backend ≡ b.backend
  same_renderer : b'.renderer ≡ b.renderer
  same_allocator : b'.allocator ≡ b.allocator
  same_backends : b'.wlr_backends ≡ b.wlr_backends
  same_wlr_renderer : b'.wlr_renderer ≡ b.wlr_renderer
  same_devices : b'.wlr_drm_devices ≡ b.wlr_drm_devices
  same_inits : inits b'.requests ≡ inits b.requests

Same-IsWhole : {b b' : Boot} → Same b b' → IsWhole b → IsWhole b'
Same-IsWhole s h = ground arith

Same-Platform :
    (w : World) (o : Output) (k : Backend) (b b' : Boot)
    → Same b b'
    → Platform w o k b
    → Platform w o k b'
Same-Platform w o k b b' s (on_gpu path o' e c n d h) =
    on_gpu path o' e c (s.same_backends ∙ n) (s.same_devices ∙ d) (Same-IsWhole s h)
Same-Platform w o k b b' s (on_card path o' e c n d h) =
    on_card path o' e c (s.same_backends ∙ n) (s.same_devices ∙ d) (Same-IsWhole s h)
Same-Platform w o k b b' s (on_no_device e c n r h) =
    on_no_device e c (s.same_backends ∙ n) (s.same_wlr_renderer ∙ r) (Same-IsWhole s h)
Same-Platform w o k b b' s (gpu_lost path o' e c n g) =
    gpu_lost path o' e c (s.same_backends ∙ n) (s.same_backend ∙ g)
Same-Platform w o k b b' s (on_headless e n h) =
    on_headless e (s.same_backends ∙ n) (Same-IsWhole s h)
Same-Platform w o k b b' s (on_wayland e n h) =
    on_wayland e (s.same_backends ∙ n) (Same-IsWhole s h)

module _ (w : World) (b : Boot) where
  query_renderer-Same : Keep (Same b) Any (query_renderer w)
  unfolding query_renderer inits
  query_renderer-Same b' h = ground arith

  create_scene-Same : Keep (Same b) Any (create_scene w)
  unfolding create_scene inits
  create_scene-Same b' h = ground arith

  create_globals-Same : Keep (Same b) Any (create_globals w)
  unfolding create_globals inits
  create_globals-Same b' h = ground arith

  open_for_clients-Same : Keep (Same b) Any (open_for_clients w)
  unfolding open_for_clients inits
  open_for_clients-Same b' h = ground arith

Same-refl : (b : Boot) → Same b b
Same-refl b = ground arith

-- The stages that follow the backend.
module _ (w : World) (o : Output) (k : Backend) where
  Keep-Platform :
      (m : Start (Unit {0})) → ((b : Boot) → Keep (Same b) Any m) → Keep (Platform w o k) Any m
  Keep-Platform m h b p =
      Ends-map (Same b) (Platform w o k) (m b) (h b b (Same-refl b))
        (λ b' s. Same-Platform w o k b b' s p)

  after_backend-Platform :
      (b : Boot) → Platform w o k b → Ends (Platform w o k) Any (in_order (drop 2 (stages w k)) b)
  unfolding inits
  after_backend-Platform = in_order-Keep (Platform w o k) Any (drop 2 (stages w k)) (
    Keep-Platform _ (query_renderer-Same w),
    (
      Keep-Platform _ (create_scene-Same w),
      (
        Keep-Platform _ (create_globals-Same w),
        (
          Keep-Platform _ (open_for_clients-Same w),
          (Keep-Platform (perform readiness_signal) (λ b b' h. ground arith), tt),
        ),
      ),
    ),
  )

  apply_renderer_preference-Fresh :
      (b : Boot)
      → Fresh b
      → Ends (λ b'. Fresh b' × (b'.output ≡ b.output)) Any (apply_renderer_preference w b)
  unfolding apply_renderer_preference
  apply_renderer_preference-Fresh b h = ground arith

  after_display-Platform :
      (b : Boot) → Fresh b → b.output ≡ o → Ends (Platform w o k) Any (after_display w k true b)
  unfolding after_display
  after_display-Platform b h e =
      continue_with-Ends _ (Platform w o k) Any _ (apply_renderer_preference w b)
        (apply_renderer_preference-Fresh b h)
        (λ _ b1 h1.
          continue_with-Ends (Platform w o k) (Platform w o k) Any _ (start_backend w k b1)
            (subst (λ o1. Ends (Platform w o1 k) Any (start_backend w k b1)) (h1.1 ∙ e)
              (start_backend-Platform w k b1 h1.0))
            (λ _ b2 h2. after_backend-Platform b2 h2))

Ends-some :
    (I : Boot → Type 0) (r : Option (Unit {0}) × Boot) → Ends I Any r → r.0 ≡ some tt → I r.1
Ends-some I (none, b) h e = cc
Ends-some I (some a, b) h e = h

-- A start that succeeds has a backend; unless it lost the discovered GPU, it has a renderer and an
-- allocator too, put the renderer's globals on the display exactly once, and runs on the device or
-- the backend that the choice of the display and the environment say, with the software renderer
-- where there is no device.
pub start-Platform :
    (w : World) (k : Backend) (o : Output)
    → (start w k (boot_of w o)).0 ≡ some tt
    → Platform w o k (start w k (boot_of w o)).1
unfolding start after_display inits
start-Platform w k o = elim (Bool-cases (w.ok (asked begin (boot_of w o)) display_create)) [
  | inl e ↦
      rw (e, start) (λ h. Ends-some (Platform w o k) _ (after_display-Platform w o k _ refl refl) h)
  | inr e ↦ rw (e, start) (λ h. cc h)
]
