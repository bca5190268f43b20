-- ===== src/Machine/Told.antt =====
-- What the overlay's client was told, after every step of the event loop.
use playos_compositor.Base.{
  Bool-cases, inl, inr, ℕ, Bool, Option, none, some, ◌∷◌, arith, if◌then◌else◌, is_some, points_to,
}
use playos_compositor.Compositor.{
  Backend, Output, Compositor, Track, Os, role_already_taken, received, game_starting,
  terminating_game, shell, overlay, role_is, game,
}
use playos_compositor.Foreground.{set_expected_game, force_terminate, send_output_info, refresh}
use playos_compositor.Overlay.{bind, resource_destroy, resolve_resource, use_resource, find_bound}
use playos_compositor.Overlay.Told.{
  is_told, Agree, Agrees, transition-Agrees, refresh-Agrees, clear-Agrees, exited-Agrees,
  show-Agrees, hide-Agrees, ready-Agrees,
}
use playos_compositor.Toplevels.{
  role_for_client, new_xdg_toplevel, configure_or_count, reclassify, assign_trees, count_commit,
  restack, destroy_track, untrack, drop_tree,
}
use playos_compositor.Trusted.{
  register_shell, register_overlay, client_destroyed, assign_role, shell_client_gone,
  overlay_client_gone, claim,
}
use playos_compositor.Ipc.{
  ipc_start, drop_link, reconnect_handler, ipc_connect, connected, retry_later, schedule_reconnect,
  ipc_disconnect,
}
use playos_compositor.Render.{output_present, frame}
use playos_compositor.Button.{Keycodes}
use playos_compositor.Lifecycle.{started, mark_ready}
use playos_compositor.Machine.{Runs, Event, binds_overlay, registers_overlay}
use playos_compositor.Machine.Rule.{register_shell_cases, Keeps, Runs-keeps, if-keeps}

-- The resource that an event makes the overlay's: a binding by the overlay's client, or the newest
-- binding of the client that registers as the overlay.
abbrev pub promoted : Compositor → Event → Option ℕ
promoted c (binds_overlay client (some r)) =
    if points_to c.overlay_client client then some r else none
promoted c (registers_overlay client resource) =
    if is_some c.overlay_client then none else find_bound client c.overlay_resources
promoted c _ = none

-- The promoted resource was last told what overlay_visible says.
abbrev pub Told : Compositor → Event → Type 0
Told c e = Agree (promoted c e) c.overlay_visible c.calls

restack-Agrees : (c : Compositor) → Agrees c → Agrees (restack c)
unfolding restack is_told
restack-Agrees c h = ground arith

reclassify-Agrees : (c : Compositor) → Agrees c → Agrees (reclassify c)
unfolding reclassify assign_trees
reclassify-Agrees c h =
    refresh-Agrees _ (restack-Agrees (assign_trees c _) (record { agree = h.agree }))

counts-Agrees :
    (c : Compositor) (x : Track) (b : Bool) → Agrees c → Agrees (configure_or_count c x b)
unfolding configure_or_count count_commit is_told
counts-Agrees c x b h = ground arith

untrack-Agrees : (c : Compositor) (x : Track) → Agrees c → Agrees (untrack c x)
unfolding untrack drop_tree
untrack-Agrees c x h = ground arith

destroys-Agrees : (os : Os) (c : Compositor) (x : Track) → Agrees c → Agrees (destroy_track os c x)
unfolding destroy_track
destroys-Agrees os c x h =
    let h' = untrack-Agrees c x h in
    restack-Agrees _
      (if-keeps Agrees (role_is x.role game) (exited-Agrees os _ h') (refresh-Agrees _ h'))

refused-Agrees :
    (c : Compositor) (resource : ℕ)
    → Agrees c
    → Agrees (record c { calls = role_already_taken resource ∷ c.calls })
unfolding is_told
refused-Agrees c resource h = ground arith

claims_shell-Agrees :
    (c : Compositor) (client resource : ℕ) → Agrees c → Agrees (register_shell c client resource)
unfolding assign_role
claims_shell-Agrees c client resource h =
    register_shell_cases Agrees c client resource (refused-Agrees c resource h)
      (reclassify-Agrees (assign_role c client shell) (record { agree = h.agree }))

gone-Agrees : (c : Compositor) (client : ℕ) → Agrees c → Agrees (client_destroyed c client)
unfolding client_destroyed shell_client_gone overlay_client_gone
gone-Agrees c client h = ground arith

unbinds-Agrees : (c : Compositor) (r : ℕ) → Agrees c → Agrees (resource_destroy c r)
unfolding resource_destroy
unbinds-Agrees c r h = ground arith

drops-Agrees : (os : Os) (c : Compositor) → Agrees c → Agrees (drop_link os c)
unfolding drop_link ipc_disconnect schedule_reconnect is_told
drops-Agrees os c h = ground arith

reconnects-Agrees : (os : Os) (c : Compositor) → Agrees c → Agrees (reconnect_handler os c)
unfolding reconnect_handler ipc_connect connected retry_later is_told
reconnects-Agrees os c h = ground arith

presents-Agrees : (c : Compositor) (p z : Bool) → Agrees c → Agrees (output_present c p z)
unfolding output_present
presents-Agrees c p z h = ground arith

-- A client that becomes the overlay's: its resource, if it has one, counts from now on.
use_resource-Agrees :
    (c : Compositor) (r : Option ℕ)
    → Agree r c.overlay_visible c.calls
    → Agrees c
    → Agrees (use_resource c r)
unfolding use_resource send_output_info is_told
use_resource-Agrees c none t h = h
use_resource-Agrees c (some r) t h = record { agree = t }

binds-Agrees :
    (c : Compositor) (client r : ℕ)
    → Told c (binds_overlay client (some r))
    → Agrees c
    → Agrees (bind c client (some r))
unfolding bind resolve_resource find_bound use_resource send_output_info is_told
binds-Agrees c client r t h = ground arith

claimed-Agrees :
    (c : Compositor) (client : ℕ)
    → Agree (find_bound client c.overlay_resources) c.overlay_visible c.calls
    → Agrees c
    → Agrees (resolve_resource (reclassify (assign_role c client overlay)) client)
unfolding resolve_resource assign_role reclassify assign_trees restack refresh is_told find_bound
    role_for_client
claimed-Agrees c client t h =
    let bound = record (assign_role c client overlay) {
      overlay_resource = find_bound client c.overlay_resources;
    } in
    use_resource-Agrees (reclassify (assign_role c client overlay)) _
      (reclassify-Agrees bound (record { agree = t })).agree
      (reclassify-Agrees (assign_role c client overlay) (record { agree = h.agree }))

claims_overlay-Agrees :
    (c : Compositor) (client resource : ℕ)
    → Told c (registers_overlay client resource)
    → Agrees c
    → Agrees (register_overlay c client resource)
unfolding register_overlay claim
claims_overlay-Agrees c client resource t h = elim (Bool-cases (is_some c.overlay_client)) [
  | inl e ↦ rw (e, register_overlay, claim) (refused-Agrees c resource h)
  | inr e ↦ rw (e, register_overlay, claim) (claimed-Agrees c client (rw e at t) h)
]

receives-Agrees :
    (c : Compositor) (fd : ℕ) → Agrees c → Agrees (record c { calls = received fd ∷ c.calls })
unfolding is_told
receives-Agrees c fd h = ground arith

module _ (os : Os) where
  Agrees-Keeps : Keeps os Told Agrees
  unfolding set_expected_game force_terminate new_xdg_toplevel frame
  Agrees-Keeps = record {
    sets_expected =
        λ c token id h. transition-Agrees os _ game_starting (record { agree = h.agree });
    clears_expected = clear-Agrees os;
    terminates = λ c h. record { agree = (transition-Agrees os c terminating_game h).agree };
    shows = show-Agrees os;
    hides = hide-Agrees os;
    readies = ready-Agrees os;
    receives = receives-Agrees;
    drops_link = drops-Agrees os;
    reconnects = λ c t h. reconnects-Agrees os c h;
    maps = λ c client tree t h. reclassify-Agrees _ (record { agree = h.agree });
    counts = counts-Agrees;
    destroys = λ c x e h. destroys-Agrees os c x h;
    claims_shell = claims_shell-Agrees;
    claims_overlay = claims_overlay-Agrees;
    loses_client = gone-Agrees;
    binds = binds-Agrees;
    unbinds = unbinds-Agrees;
    presents = presents-Agrees;
    draws = λ c now h. record { agree = h.agree };
    runs = λ c h. record { agree = h.agree };
  }

started-Agrees : (os : Os) (backend : Backend) (o : Output) → Agrees (started os backend o)
unfolding started mark_ready ipc_start ipc_connect schedule_reconnect
started-Agrees os backend o = ground arith

-- In every state that the event loop reaches, the overlay's resource is NULL or was last told, by
-- about_to_show or about_to_hide, what the compositor has in overlay_visible, also where a step
-- hides the overlay on its own or ends the game. The condition is that no event of the run makes a
-- resource the overlay's that was told otherwise: a new binding was told nothing, so the overlay has
-- to be hidden when its client binds again or registers.
pub reachable-Agrees :
    (k : Keycodes) (os : Os) (backend : Backend) (o : Output) {t : Compositor}
    → Runs k os Told (started os backend o) t
    → Agrees t
reachable-Agrees k os backend o r = Runs-keeps (Agrees-Keeps os) r (started-Agrees os backend o)
