-- ===== src/Trusted.antt =====
-- Trusted clients: src/trusted_client.c, and the requests of playos_manager_v1 in
-- src/playos_manager.c.
use playos_compositor.Base.{
  ℕ, Bool, true, false, ◌&&◌, ◌||◌, none, some, ◌∷◌, if◌then◌else◌, is_some, points_to,
}
use playos_compositor.Compositor.{
  Compositor, Role, no_role, shell, overlay, role_is, role_already_taken,
}
use playos_compositor.Toplevels.{reclassify}
use playos_compositor.Overlay.{resolve_resource}

-- playos_trusted_client_init.
unfoldable pub trusted_init : Compositor → Compositor
trusted_init c = record c { shell_client = none; overlay_client = none; pending_role = no_role }

-- playos_trusted_shell_client_gone and playos_trusted_overlay_client_gone.
unfoldable pub shell_client_gone : Compositor → Compositor
shell_client_gone c = record c { shell_client = none; shell_client_destroy = none }

unfoldable pub overlay_client_gone : Compositor → Compositor
overlay_client_gone c = record c { overlay_client = none; overlay_client_destroy = none }

-- The two tests at the head of playos_trusted_client_claim.
abbrev pub is_taken : Compositor → Role → Bool
is_taken c role =
    (role_is role shell && is_some c.shell_client)
    || (role_is role overlay && is_some c.overlay_client)

unfoldable pub assign_role : Compositor → ℕ → Role → Compositor
assign_role c client shell = record c {
  shell_client = some client;
  shell_client_destroy = some client;
}
assign_role c client overlay = record c {
  overlay_client = some client;
  overlay_client_destroy = some client;
}
assign_role c client _ = c

-- playos_trusted_client_claim.
unfoldable pub claim : Compositor → ℕ → Role → Bool × Compositor
claim c client role =
    if is_taken c role then (false, c) else (true, reclassify (assign_role c client role))

-- playos_trusted_client_is_trusted.
unfoldable pub is_trusted : Compositor → ℕ → Bool
is_trusted c client = points_to c.shell_client client || points_to c.overlay_client client

-- playos_manager_register_shell: a refused claim is answered with a protocol error.
unfoldable pub register_shell : Compositor → ℕ → ℕ → Compositor
register_shell c client resource =
    let (granted, c') = claim c client shell in
    if granted then c' else record c { calls = role_already_taken resource ∷ c.calls }

-- playos_manager_register_overlay.
unfoldable pub register_overlay : Compositor → ℕ → ℕ → Compositor
register_overlay c client resource =
    let (granted, c') = claim c client overlay in
    if granted
    then resolve_resource c' client
    else record c { calls = role_already_taken resource ∷ c.calls }

-- What libwayland does when a client goes: it calls the destroy listeners that are on it.
unfoldable pub client_destroyed : Compositor → ℕ → Compositor
client_destroyed c client =
    let c' = if points_to c.shell_client_destroy client then shell_client_gone c else c in
    if points_to c.overlay_client_destroy client then overlay_client_gone c' else c'
