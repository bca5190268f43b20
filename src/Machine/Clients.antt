-- ===== src/Machine/Clients.antt =====
-- The trusted clients and the overlay's resource in every reachable state.
use playos_compositor.Base.{
  ◌||◌, Option-cases, inl, inr, ℕ, ◌≡◌, refl, Bool, true, false, not, ◌&&◌, Option, none, some,
  List, [], ◌∷◌, arith, is_some, ◌==◌, if◌then◌else◌, points_to,
}
use playos_compositor.Compositor.{Compositor, Bound, Track, Os, shell, overlay, ForegroundState}
use playos_compositor.Foreground.{
  set_expected_game, handle_clear_expected, force_terminate, surface_ready, game_exited, transition,
  announce_ready, refresh, send_output_info, send_about_to_show, send_about_to_hide,
}
use playos_compositor.Overlay.{
  manager_show, manager_hide, bind, resource_destroy, resolve_resource, use_resource, find_bound,
  remove_bound,
}
use playos_compositor.Toplevels.{
  new_xdg_toplevel, destroy_track, configure_or_count, untrack, reclassify, drop_tree, restack,
}
use playos_compositor.Trusted.{
  register_shell, register_overlay, client_destroyed, claim, assign_role, shell_client_gone,
  overlay_client_gone, is_trusted,
}
use playos_compositor.Ipc.{drop_link, reconnect_handler, ipc_connect, connected, retry_later}
use playos_compositor.Render.{output_present, frame}
use playos_compositor.Machine.{Legal, Reach}
use playos_compositor.Machine.Rule.{register_overlay_cases, if-keeps, Keeps, Runs-keeps}
use playos_compositor.Button.{Keycodes}

-- Whether a binding of the list has the resource.
unfoldable pub has_resource : ℕ → List Bound → Bool
has_resource r [] = false
has_resource r (b ∷ bs) = if b.resource == r then true else has_resource r bs

abbrev pub IsBound : Option ℕ → List Bound → Type 0
IsBound none bs = Unit {0}
IsBound (some r) bs = has_resource r bs ≡ true

-- Each role's destroy listener is on the client that holds the role, and the overlay's resource
-- is NULL or a live binding.
pub record ClientsInv (c : Compositor) : Type 0 where
  pub shell_watched : c.shell_client_destroy ≡ c.shell_client
  pub overlay_watched : c.overlay_client_destroy ≡ c.overlay_client
  pub live : IsBound c.overlay_resource c.overlay_resources

has_resource-find_bound :
    (client r : ℕ) (bs : List Bound) → find_bound client bs ≡ some r → has_resource r bs ≡ true
unfolding find_bound has_resource
has_resource-find_bound client r [] e = cc
has_resource-find_bound client r (b ∷ bs) e = ground (arith, has_resource-find_bound client r bs)

has_resource-remove_bound_ne :
    (r u : ℕ) (bs : List Bound)
    → (r == u) ≡ false
    → has_resource r (remove_bound u bs) ≡ has_resource r bs
unfolding remove_bound has_resource
has_resource-remove_bound_ne r u [] h = refl
has_resource-remove_bound_ne r u (b ∷ bs) h = ground (arith, has_resource-remove_bound_ne r u bs)

module _ (os : Os) where
  transition-ClientsInv :
      (c : Compositor) (s : ForegroundState) → ClientsInv c → ClientsInv (transition os c s)
  unfolding transition
  transition-ClientsInv c s h = ground arith

  clear_expected-ClientsInv :
      (c : Compositor) → ClientsInv c → ClientsInv (handle_clear_expected os c)
  unfolding handle_clear_expected transition
  clear_expected-ClientsInv c h = ground arith

  set_expected-ClientsInv :
      (c : Compositor) (token id : List ℕ)
      → ClientsInv c
      → ClientsInv (set_expected_game os c token id)
  unfolding set_expected_game transition
  set_expected-ClientsInv c token id h = ground arith

  terminate-ClientsInv : (c : Compositor) → ClientsInv c → ClientsInv (force_terminate os c)
  unfolding force_terminate transition
  terminate-ClientsInv c h = ground arith

  show-ClientsInv : (c : Compositor) → ClientsInv c → ClientsInv (manager_show os c)
  unfolding manager_show transition refresh send_output_info send_about_to_show
  show-ClientsInv c h = ground arith

  hide-ClientsInv : (c : Compositor) → ClientsInv c → ClientsInv (manager_hide os c)
  unfolding manager_hide transition refresh send_about_to_hide
  hide-ClientsInv c h = ground arith

  ready-ClientsInv : (c : Compositor) → ClientsInv c → ClientsInv (surface_ready os c)
  unfolding surface_ready transition announce_ready
  ready-ClientsInv c h = ground arith

  destroy-ClientsInv :
      (c : Compositor) (x : Track) → ClientsInv c → ClientsInv (destroy_track os c x)
  unfolding destroy_track untrack drop_tree refresh restack game_exited transition
  destroy-ClientsInv c x h = ground arith

  reconnect-ClientsInv : (c : Compositor) → ClientsInv c → ClientsInv (reconnect_handler os c)
  unfolding reconnect_handler ipc_connect connected retry_later
  reconnect-ClientsInv c h = ground arith

reclassify-ClientsInv : (c : Compositor) → ClientsInv c → ClientsInv (reclassify c)
unfolding reclassify
reclassify-ClientsInv c h = ground arith

count-ClientsInv :
    (c : Compositor) (x : Track) (b : Bool) → ClientsInv c → ClientsInv (configure_or_count c x b)
unfolding configure_or_count
count-ClientsInv c x b h = ground arith

resolve-ClientsInv :
    (c : Compositor) (client : ℕ) → ClientsInv c → ClientsInv (resolve_resource c client)
unfolding resolve_resource use_resource
resolve-ClientsInv c client h = elim (Option-cases (find_bound client c.overlay_resources)) [
  | inl e ↦ rw (e, resolve_resource) h
  | inr (r, e) ↦
      rw (e, resolve_resource)
        (record {
          shell_watched = h.shell_watched;
          overlay_watched = h.overlay_watched;
          live = has_resource-find_bound client r c.overlay_resources e;
        })
]

drop-ClientsInv : (os : Os) (c : Compositor) → ClientsInv c → ClientsInv (drop_link os c)
unfolding drop_link
drop-ClientsInv os c h = ground arith

register_shell-ClientsInv :
    (c : Compositor) (client resource : ℕ)
    → ClientsInv c
    → ClientsInv (register_shell c client resource)
unfolding register_shell claim assign_role reclassify
register_shell-ClientsInv c client resource h = ground arith

register_overlay-ClientsInv :
    (c : Compositor) (client resource : ℕ)
    → ClientsInv c
    → ClientsInv (register_overlay c client resource)
unfolding assign_role
register_overlay-ClientsInv c client resource h =
    register_overlay_cases ClientsInv c client resource (ground arith)
      (resolve-ClientsInv _ client (reclassify-ClientsInv _ (ground arith)))

gone-ClientsInv :
    (c : Compositor) (client : ℕ) → ClientsInv c → ClientsInv (client_destroyed c client)
unfolding client_destroyed shell_client_gone overlay_client_gone
gone-ClientsInv c client h = ground arith

cons-ClientsInv :
    (c : Compositor) (client resource : ℕ)
    → ClientsInv c
    → ClientsInv (record c {
      overlay_resources = record { client = client; resource = resource } ∷ c.overlay_resources;
    })
unfolding has_resource
cons-ClientsInv c client resource h = ground arith

bind-ClientsInv :
    (c : Compositor) (client resource : ℕ)
    → ClientsInv c
    → ClientsInv (bind c client (some resource))
unfolding bind
bind-ClientsInv c client resource h =
    let h' : ClientsInv (record c {
      overlay_resources = record { client = client; resource = resource } ∷ c.overlay_resources;
    }) =
      cons-ClientsInv c client resource h in
    if-keeps ClientsInv (points_to c.overlay_client client) (resolve-ClientsInv _ client h') h'

unbind-IsBound :
    (slot : Option ℕ) (u : ℕ) (bs : List Bound)
    → IsBound slot bs
    → IsBound (if points_to slot u then none else slot) (remove_bound u bs)
unbind-IsBound none u bs h = tt
unbind-IsBound (some r) u bs h = ground (arith, has_resource-remove_bound_ne r u bs)

unbind-ClientsInv :
    (c : Compositor) (resource : ℕ) → ClientsInv c → ClientsInv (resource_destroy c resource)
unfolding resource_destroy
unbind-ClientsInv c resource h =
    ground (arith, unbind-IsBound c.overlay_resource resource c.overlay_resources)

present-ClientsInv :
    (c : Compositor) (p z : Bool) → ClientsInv c → ClientsInv (output_present c p z)
unfolding output_present
present-ClientsInv c p z h = ground arith

ClientsInv-Keeps : (os : Os) → Keeps os Legal ClientsInv
unfolding new_xdg_toplevel frame
ClientsInv-Keeps os = record {
  sets_expected = set_expected-ClientsInv os;
  clears_expected = clear_expected-ClientsInv os;
  terminates = terminate-ClientsInv os;
  shows = show-ClientsInv os;
  hides = hide-ClientsInv os;
  readies = ready-ClientsInv os;
  receives = λ c fd h. ground arith;
  drops_link = drop-ClientsInv os;
  reconnects = λ c l h. reconnect-ClientsInv os c h;
  maps = λ c client tree l h. reclassify-ClientsInv _ (ground arith);
  counts = count-ClientsInv;
  destroys = λ c x e h. destroy-ClientsInv os c x h;
  claims_shell = register_shell-ClientsInv;
  claims_overlay = λ c client resource l h. register_overlay-ClientsInv c client resource h;
  loses_client = gone-ClientsInv;
  binds = λ c client resource l h. bind-ClientsInv c client resource h;
  unbinds = unbind-ClientsInv;
  presents = present-ClientsInv;
  draws = λ c now h. ground arith;
  runs = λ c h. ground arith;
}

pub Reach-ClientsInv :
    (k : Keycodes) (os : Os) (c : Compositor) {t : Compositor}
    → Reach k os c t
    → ClientsInv c
    → ClientsInv t
Reach-ClientsInv k os c r h = Runs-keeps (ClientsInv-Keeps os) r h

-- Where each role's destroy listener is on the role's client, a client that is destroyed is trusted
-- no more, and every other client is trusted as before; and each role can be claimed afterwards
-- exactly if it was free or held by that client.
client_destroyed-releases :
    (c : Compositor) (client other next : ℕ)
    → ClientsInv c
    → let c' = client_destroyed c client in
      (is_trusted c' other ≡ (not (other == client) && is_trusted c other))
      × ((claim c' next shell).0
          ≡ (not (is_some c.shell_client) || points_to c.shell_client client))
      × ((claim c' next overlay).0
          ≡ (not (is_some c.overlay_client) || points_to c.overlay_client client))
unfolding client_destroyed shell_client_gone overlay_client_gone is_trusted claim
client_destroyed-releases c client other next h = (ground arith, ground arith, ground arith)
