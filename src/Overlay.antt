-- ===== src/Overlay.antt =====
-- The overlay: its visibility (src/overlay_manager.c) and the playos_overlay_v1 bindings of
-- src/playos_manager.c.
pub mod Toggle
pub mod Told
use playos_compositor.Base.{
  ℕ, true, false, Option, none, some, List, [], ◌∷◌, ◌==◌, if◌then◌else◌, is_some, points_to,
}
use playos_compositor.Compositor.{
  Compositor, Bound, game_foreground, shell_foreground, playos_ui_foreground_with_game_background,
  state_is, Os,
}
use playos_compositor.Foreground.{
  refresh, transition, send_output_info, send_about_to_show, send_about_to_hide,
}

-- playos_overlay_manager_show.
unfoldable pub manager_show : Os → Compositor → Compositor
manager_show os c =
    let c' = send_about_to_show (send_output_info (record c { overlay_visible = true })) in
    if c.overlay_visible
    then c
    else if state_is c.fg_state game_foreground
    then transition os c' playos_ui_foreground_with_game_background
    else refresh c'

-- playos_overlay_manager_hide.
unfoldable pub manager_hide : Os → Compositor → Compositor
manager_hide os c =
    let c' = send_about_to_hide (record c { overlay_visible = false }) in
    if c.overlay_visible
    then if state_is c.fg_state playos_ui_foreground_with_game_background
      then transition os c' (if is_some c.game_tree then game_foreground else shell_foreground)
      else refresh c'
    else c

-- The first binding of the client in the list, which is its newest.
unfoldable pub find_bound : ℕ → List Bound → Option ℕ
find_bound client [] = none
find_bound client (b ∷ bs) = if b.client == client then some b.resource else find_bound client bs

unfoldable pub use_resource : Compositor → Option ℕ → Compositor
unfolding send_output_info
use_resource c none = c
use_resource c (some r) = send_output_info (record c { overlay_resource = some r })

-- playos_overlay_resolve_resource.
unfoldable pub resolve_resource : Compositor → ℕ → Compositor
resolve_resource c client = use_resource c (find_bound client c.overlay_resources)

unfoldable pub remove_bound : ℕ → List Bound → List Bound
remove_bound r [] = []
remove_bound r (b ∷ bs) = if b.resource == r then bs else b ∷ remove_bound r bs

-- playos_overlay_resource_destroy, for a resource whose user data is its entry of the list.
unfoldable pub resource_destroy : Compositor → ℕ → Compositor
unfolding remove_bound
resource_destroy c r = record c {
  overlay_resource = if points_to c.overlay_resource r then none else c.overlay_resource;
  overlay_resources = remove_bound r c.overlay_resources;
}

-- playos_overlay_bind; the resource is `none` where an allocation fails.
unfoldable pub bind : Compositor → ℕ → Option ℕ → Compositor
bind c client none = c
bind c client (some r) =
    let c' = record c {
      overlay_resources = record { client = client; resource = r } ∷ c.overlay_resources;
    } in
    if points_to c.overlay_client client then resolve_resource c' client else c'

-- playos_overlay_request_dismiss; set_surface and surface_ready only write to the log.
unfoldable pub request_dismiss : Os → Compositor → ℕ → Compositor
request_dismiss os c client = if points_to c.overlay_client client then manager_hide os c else c
