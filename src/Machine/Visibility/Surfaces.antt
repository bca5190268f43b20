-- ===== src/Machine/Visibility/Surfaces.antt =====
-- The scene invariant over the handlers of surfaces and clients, and over every run.
use playos_compositor.Base.{ℕ, ◌≡◌, refl, Bool, false, Option, none, some, List, ◌∷◌, arith}
use playos_compositor.Compositor.{
  role_already_taken, received, Compositor, Track, Role, shell, overlay, game, Os, role_is,
}
use playos_compositor.Scene.{raised, is_enabled}
use playos_compositor.Overlay.{bind, resource_destroy, resolve_resource, use_resource}
use playos_compositor.Toplevels.{
  assign_trees, classify, role_for_client, no_trees, new_xdg_toplevel, destroy_track,
  configure_or_count, untrack, reclassify, drop_tree, restack, remove_track, find_track,
  unless_tree,
}
use playos_compositor.Toplevels.Stacking.{IsStacked, restack-IsStacked}
use playos_compositor.Toplevels.Classify.{
  Distinct, Owned, reclassify-Owned, reclassify-Distinct, append-Distinct, remove_track-Distinct,
  role_of, role_of_untracked, role_of-find_track, role_of-remove_track_ne,
}
use playos_compositor.Trusted.{
  register_shell, register_overlay, client_destroyed, assign_role, shell_client_gone,
  overlay_client_gone,
}
use playos_compositor.Ipc.{drop_link, reconnect_handler, ipc_connect, connected, retry_later}
use playos_compositor.Render.{output_present, frame}
use playos_compositor.Button.{Keycodes}
use playos_compositor.Machine.{Legal, Reach}
use playos_compositor.Machine.Rule.{
  register_shell_cases, register_overlay_cases, Keeps, Runs-keeps, if-keeps,
}
use playos_compositor.Machine.Visibility.{
  same-Tracked, Tracked, Visible, SceneInv, same-SceneInv, refresh-Visible, refresh-SceneInv,
  set_expected-SceneInv, clear_expected-SceneInv, terminate-SceneInv, show-SceneInv, hide-SceneInv,
  ready-SceneInv, exited-SceneInv,
}

reclassify-SceneInv : (c : Compositor) → Distinct c.toplevels → SceneInv (reclassify c)
unfolding reclassify
reclassify-SceneInv c d =
    let o = reclassify-Owned c d in
    let t : Tracked (reclassify c) = record {
      distinct = reclassify-Distinct c d;
      own_shell = o.0;
      own_game = o.1;
      own_overlay = o.2;
    } in
    record {
      tracked = t;
      visible =
          refresh-Visible
            (restack (assign_trees c (classify (role_for_client c) c.toplevels no_trees)))
            (same-Tracked t refl refl refl refl);
    }

-- A pointer that the destroyed track leaves alone still has its owner.
drop-Owned :
    (slot : Option ℕ) (r s : Role) (u : ℕ) (xs : List Track)
    → role_of u xs ≡ some s
    → Owned slot r xs
    → role_is s r ≡ false
    → Owned slot r (remove_track u xs)
drop-Owned none r s u xs e h n = tt
drop-Owned (some t) r s u xs e h n = ground (arith, role_of-remove_track_ne t u xs)

-- A pointer of the destroyed track's role is reset if it was its own.
reset-Owned :
    (slot : Option ℕ) (r : Role) (u : ℕ) (xs : List Track)
    → Owned slot r xs
    → Owned (unless_tree slot u) r (remove_track u xs)
reset-Owned none r u xs h = tt
reset-Owned (some t) r u xs h = ground (arith, role_of-remove_track_ne t u xs)

untrack-Tracked :
    (c : Compositor) (x : Track)
    → find_track x.tree c.toplevels ≡ some x
    → Tracked c
    → Tracked (untrack c x)
unfolding untrack drop_tree
untrack-Tracked c x e h = ground (
  arith,
  role_of-find_track x.tree c.toplevels x,
  remove_track-Distinct x.tree c.toplevels,
  drop-Owned c.shell_tree shell x.role x.tree c.toplevels,
  drop-Owned c.game_tree game x.role x.tree c.toplevels,
  drop-Owned c.overlay_tree overlay x.role x.tree c.toplevels,
  reset-Owned c.shell_tree shell x.tree c.toplevels,
  reset-Owned c.game_tree game x.tree c.toplevels,
  reset-Owned c.overlay_tree overlay x.tree c.toplevels,
)

untrack-Visible : (c : Compositor) (x : Track) → Visible c → Visible (untrack c x)
unfolding untrack drop_tree
untrack-Visible c x h = ground arith

restack-SceneInv : (c : Compositor) → SceneInv c → SceneInv (restack c)
unfolding restack is_enabled
restack-SceneInv c h = ground arith

destroy-SceneInv :
    (os : Os) (c : Compositor) (x : Track)
    → find_track x.tree c.toplevels ≡ some x
    → SceneInv c
    → SceneInv (destroy_track os c x)
unfolding destroy_track
destroy-SceneInv os c x e h =
    let t = untrack-Tracked c x e h.tracked in
    let h' : SceneInv (untrack c x) = record {
      tracked = t;
      visible = untrack-Visible c x h.visible;
    } in
    restack-SceneInv _
      (if-keeps SceneInv (role_is x.role game) (exited-SceneInv os _ h') (refresh-SceneInv os _ t))

map-SceneInv :
    (c : Compositor) (client tree : ℕ)
    → find_track tree c.toplevels ≡ none
    → SceneInv c
    → SceneInv (new_xdg_toplevel c client (some tree))
unfolding new_xdg_toplevel
map-SceneInv c client tree l h =
    reclassify-SceneInv _
      (append-Distinct c.toplevels _ (role_of_untracked tree c.toplevels l) h.tracked.distinct)

count-SceneInv :
    (c : Compositor) (x : Track) (initial : Bool)
    → SceneInv c
    → SceneInv (configure_or_count c x initial)
unfolding configure_or_count is_enabled
count-SceneInv c x initial h = ground arith

refused-SceneInv :
    (c : Compositor) (resource : ℕ)
    → SceneInv c
    → SceneInv (record c { calls = role_already_taken resource ∷ c.calls })
unfolding is_enabled
refused-SceneInv c resource h = ground arith

register_shell-SceneInv :
    (c : Compositor) (client resource : ℕ)
    → SceneInv c
    → SceneInv (register_shell c client resource)
unfolding assign_role
register_shell-SceneInv c client resource h =
    register_shell_cases SceneInv c client resource (refused-SceneInv c resource h)
      (reclassify-SceneInv _ h.tracked.distinct)

resolve-SceneInv : (c : Compositor) (client : ℕ) → SceneInv c → SceneInv (resolve_resource c client)
unfolding resolve_resource use_resource is_enabled
resolve-SceneInv c client h = ground arith

register_overlay-SceneInv :
    (c : Compositor) (client resource : ℕ)
    → SceneInv c
    → SceneInv (register_overlay c client resource)
unfolding assign_role
register_overlay-SceneInv c client resource h =
    register_overlay_cases SceneInv c client resource (refused-SceneInv c resource h)
      (resolve-SceneInv _ client (reclassify-SceneInv _ h.tracked.distinct))

gone-SceneInv : (c : Compositor) (client : ℕ) → SceneInv c → SceneInv (client_destroyed c client)
unfolding client_destroyed shell_client_gone overlay_client_gone
gone-SceneInv c client h = ground arith

bind-SceneInv :
    (c : Compositor) (client resource : ℕ) → SceneInv c → SceneInv (bind c client (some resource))
unfolding bind
bind-SceneInv c client resource h =
    let h' : SceneInv (record c {
      overlay_resources = record { client = client; resource = resource } ∷ c.overlay_resources;
    }) =
      same-SceneInv h refl refl refl refl refl refl refl in
    if-keeps SceneInv _ (resolve-SceneInv _ client h') h'

reconnect-SceneInv : (os : Os) (c : Compositor) → SceneInv c → SceneInv (reconnect_handler os c)
unfolding reconnect_handler ipc_connect connected retry_later is_enabled
reconnect-SceneInv os c h = ground arith

drop-SceneInv : (os : Os) (c : Compositor) → SceneInv c → SceneInv (drop_link os c)
unfolding drop_link is_enabled
drop-SceneInv os c h = ground arith

present-SceneInv : (c : Compositor) (p z : Bool) → SceneInv c → SceneInv (output_present c p z)
unfolding output_present
present-SceneInv c p z h = ground arith

receive-SceneInv :
    (c : Compositor) (fd : ℕ) → SceneInv c → SceneInv (record c { calls = received fd ∷ c.calls })
unfolding is_enabled
receive-SceneInv c fd h = ground arith

SceneInv-Keeps : (os : Os) → Keeps os Legal SceneInv
unfolding resource_destroy frame
SceneInv-Keeps os = record {
  sets_expected = set_expected-SceneInv os;
  clears_expected = clear_expected-SceneInv os;
  terminates = terminate-SceneInv os;
  shows = show-SceneInv os;
  hides = hide-SceneInv os;
  readies = ready-SceneInv os;
  receives = receive-SceneInv;
  drops_link = drop-SceneInv os;
  reconnects = λ c l h. reconnect-SceneInv os c h;
  maps = map-SceneInv;
  counts = count-SceneInv;
  destroys = destroy-SceneInv os;
  claims_shell = register_shell-SceneInv;
  claims_overlay = λ c client resource l h. register_overlay-SceneInv c client resource h;
  loses_client = gone-SceneInv;
  binds = λ c client resource l h. bind-SceneInv c client resource h;
  unbinds = λ c resource h. same-SceneInv h refl refl refl refl refl refl refl;
  presents = present-SceneInv;
  draws = λ c now h. same-SceneInv h refl refl refl refl refl refl refl;
  runs = λ c h. same-SceneInv h refl refl refl refl refl refl refl;
}

pub Reach-SceneInv :
    (k : Keycodes) (os : Os) (c : Compositor) {t : Compositor}
    → Reach k os c t
    → SceneInv c
    → SceneInv t
Reach-SceneInv k os c r h = Runs-keeps (SceneInv-Keeps os) r h

-- After a tracked surface is destroyed, the topmost trees are again the overlay's, the game's and
-- the shell's, in this order, as far as there are such surfaces, whatever the destruction did to
-- the foreground state.
destroy_track-IsStacked :
    (os : Os) (c : Compositor) (x : Track)
    → find_track x.tree c.toplevels ≡ some x
    → SceneInv c
    → IsStacked (destroy_track os c x) (raised (destroy_track os c x).calls)
unfolding destroy_track
destroy_track-IsStacked os c x e h =
    let t = untrack-Tracked c x e h.tracked in
    let h' : SceneInv (untrack c x) = record {
      tracked = t;
      visible = untrack-Visible c x h.visible;
    } in
    let done =
      if-keeps SceneInv (role_is x.role game) (exited-SceneInv os _ h') (refresh-SceneInv os _ t) in
    let owned = done.tracked in
    restack-IsStacked _ (owned.own_shell, owned.own_game, owned.own_overlay)
