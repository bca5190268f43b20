-- ===== src/Startup/Order.antt =====
-- The order of the requests of a start.
use playos_compositor.Base.{◌≡◌, Bool, true, false, List, [], ◌∷◌, ◌&&◌, ◌||◌}
use playos_compositor.Startup.Requests.{
  Boot, Request, display_create, backend_autocreate, renderer_autocreate, init_wl_display,
  allocator_autocreate, xdg_shell_create, manager_global, overlay_global, listen_new_output,
  listen_new_toplevel, listen_new_input, add_socket, chmod, backend_start, readiness_signal, answer,
  scene_create, output_layout_create, compositor_create, screencopy_create, seat_create,
}

-- The objects and steps on which others wait.
pub data Milestone : Type 0 where
  display backend renderer xdg_shell manager overlay socket permission running : Milestone
  outputs toplevels inputs : Milestone

-- Whether a request that may fail is for a milestone.
abbrev reaches : Milestone → Request → Bool
reaches display display_create = true
reaches backend backend_autocreate = true
reaches renderer renderer_autocreate = true
reaches xdg_shell xdg_shell_create = true
reaches manager manager_global = true
reaches overlay overlay_global = true
reaches socket (add_socket name) = true
reaches permission (chmod path) = true
reaches running backend_start = true
reaches _ _ = false

-- Whether a milestone is reached here, by an answer or by a listener that is added, which cannot fail.
abbrev grants : Milestone → Request → Bool
grants m (answer ok r) = ok && reaches m r
grants outputs listen_new_output = true
grants toplevels listen_new_toplevel = true
grants inputs listen_new_input = true
grants m _ = false

-- Whether a milestone was reached.
unfoldable pub reached : Milestone → List Request → Bool
reached m [] = false
reached m (r ∷ rs) = grants m r || reached m rs

-- Whether all three listeners were added.
abbrev has_listeners : List Request → Bool
has_listeners rs = reached outputs rs && reached toplevels rs && reached inputs rs

-- What has to have succeeded before a request, by what wlroots and the clients need of it.
abbrev pub is_due : Request → List Request → Bool
is_due backend_autocreate rs = reached display rs
is_due renderer_autocreate rs = reached backend rs
is_due init_wl_display rs = reached renderer rs
is_due allocator_autocreate rs = reached backend rs
is_due scene_create rs = reached backend rs
is_due output_layout_create rs = reached display rs
is_due compositor_create rs = reached display rs
is_due xdg_shell_create rs = reached display rs
is_due screencopy_create rs = reached display rs
is_due seat_create rs = reached display rs
is_due manager_global rs = reached display rs
is_due overlay_global rs = reached display rs && reached manager rs
is_due listen_new_output rs = reached backend rs
is_due listen_new_toplevel rs = reached xdg_shell rs
is_due listen_new_input rs = reached backend rs
is_due (add_socket name) rs =
    reached display rs && reached manager rs && reached overlay rs && has_listeners rs
is_due (chmod path) rs = reached socket rs
is_due backend_start rs = reached backend rs && has_listeners rs && reached permission rs
is_due readiness_signal rs = reached running rs
is_due _ rs = true

-- Every request of the list came when it was due.
unfoldable pub is_orderly : List Request → Bool
unfolding reached
is_orderly [] = true
is_orderly (r ∷ rs) = is_due r rs && is_orderly rs

-- Whether readiness was signalled.
unfoldable pub is_signalled : List Request → Bool
is_signalled [] = false
is_signalled (readiness_signal ∷ rs) = true
is_signalled (_ ∷ rs) = is_signalled rs

-- The states between the stages.
abbrev Orderly : Boot → Type 0
Orderly b = (is_orderly b.requests ≡ true) × (is_signalled b.requests ≡ false)

abbrev Begun : Boot → Type 0
Begun b = Orderly b × (reached display b.requests ≡ true)

abbrev Backed : Boot → Type 0
Backed b = Begun b × (reached backend b.requests ≡ true) × (b.backend ≡ true)

abbrev Staged : Boot → Type 0
Staged b = Backed b × (reached xdg_shell b.requests ≡ true)

abbrev Announced : Boot → Type 0
Announced b = Staged b × (reached manager b.requests ≡ true) × (reached overlay b.requests ≡ true)

abbrev Opened : Boot → Type 0
Opened b = Orderly b × (reached running b.requests ≡ true)

abbrev Signalled : Boot → Type 0
Signalled b = (is_orderly b.requests ≡ true) × (is_signalled b.requests ≡ true)
