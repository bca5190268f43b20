-- ===== src/Machine/Announced/Reached.antt =====
-- What playos-init knows in every state that the event loop reaches.
use playos_compositor.Base.{ℕ, ◌≡◌, Bool, some, arith}
use playos_compositor.Compositor.{
  Compositor, Track, Os, game_starting, terminating_game, shell, overlay, Backend, Output,
}
use playos_compositor.Foreground.{set_expected_game, force_terminate, send_output_info}
use playos_compositor.Overlay.{bind, resource_destroy, resolve_resource, use_resource}
use playos_compositor.Toplevels.{
  new_xdg_toplevel, configure_or_count, reclassify, assign_trees, classify, role_for_client,
  no_trees, count_commit,
}
use playos_compositor.Trusted.{
  register_shell, register_overlay, client_destroyed, assign_role, shell_client_gone,
  overlay_client_gone,
}
use playos_compositor.Ipc.{
  drop_link, reconnect_handler, ipc_connect, connected, retry_later, ipc_start, schedule_reconnect,
  ipc_disconnect,
}
use playos_compositor.Render.{output_present, frame}
use playos_compositor.Lifecycle.{started, mark_ready}
use playos_compositor.Machine.{Legal, Reach}
use playos_compositor.Machine.Rule.{register_shell_cases, register_overlay_cases, Keeps, Runs-keeps}
use playos_compositor.Button.{Keycodes}
use playos_compositor.Machine.Announced.{
  told_frame, Announced, transition-Announced, refresh-Announced, shows-Announced, hides-Announced,
  readies-Announced, clears-Announced, restack-Announced, destroys-Announced,
}

reclassify-Announced : (os : Os) (c : Compositor) → Announced c → Announced (reclassify c)
unfolding reclassify assign_trees
reclassify-Announced os c h =
    let c' = assign_trees c (classify (role_for_client c) c.toplevels no_trees) in
    let h' : Announced c' = record { tells = h.tells } in
    refresh-Announced os _ (restack-Announced os c' h')

-- What the other handlers do: the link, the state and the last frame stay.
Announced-same :
    (c c' : Compositor)
    → c'.link.sock_fd ≡ c.link.sock_fd
    → told_frame c'.calls ≡ told_frame c.calls
    → c'.fg_state ≡ c.fg_state
    → Announced c
    → Announced c'
Announced-same c c' l t s h = record { tells = rw (l, t, s) h.tells }

module _ (os : Os) where
  claims_shell-Announced :
      (c : Compositor) (client resource : ℕ)
      → Announced c
      → Announced (register_shell c client resource)
  unfolding told_frame assign_role
  claims_shell-Announced c client resource h =
      register_shell_cases Announced c client resource (record { tells = h.tells })
        (reclassify-Announced os (assign_role c client shell) (record { tells = h.tells }))

  resolve-Announced :
      (c : Compositor) (client : ℕ) → Announced c → Announced (resolve_resource c client)
  unfolding resolve_resource use_resource send_output_info told_frame
  resolve-Announced c client h = ground arith

  claims_overlay-Announced :
      (c : Compositor) (client resource : ℕ)
      → Announced c
      → Announced (register_overlay c client resource)
  unfolding told_frame assign_role
  claims_overlay-Announced c client resource h =
      register_overlay_cases Announced c client resource (record { tells = h.tells })
        (resolve-Announced _ client
          (reclassify-Announced os (assign_role c client overlay) (record { tells = h.tells })))

  counts-Announced :
      (c : Compositor) (x : Track) (b : Bool) → Announced c → Announced (configure_or_count c x b)
  unfolding configure_or_count count_commit told_frame
  counts-Announced c x b h = ground arith

  gone-Announced :
      (c : Compositor) (client : ℕ) → Announced c → Announced (client_destroyed c client)
  unfolding client_destroyed shell_client_gone overlay_client_gone
  gone-Announced c client h = ground arith

  binds-Announced :
      (c : Compositor) (client resource : ℕ)
      → Announced c
      → Announced (bind c client (some resource))
  unfolding bind resolve_resource use_resource send_output_info told_frame
  binds-Announced c client resource h = ground arith

  drops-Announced : (c : Compositor) → Announced (drop_link os c)
  unfolding drop_link ipc_disconnect schedule_reconnect
  drops-Announced c = ground arith

  reconnects-Announced : (c : Compositor) → Announced c → Announced (reconnect_handler os c)
  unfolding reconnect_handler ipc_connect connected retry_later told_frame
  reconnects-Announced c h = ground arith

  presents-Announced :
      (c : Compositor) (p z : Bool) → Announced c → Announced (output_present c p z)
  unfolding output_present
  presents-Announced c p z h = ground arith

  Announced-Keeps : Keeps os Legal Announced
  unfolding set_expected_game force_terminate new_xdg_toplevel resource_destroy frame told_frame
  Announced-Keeps = record {
    sets_expected =
        λ c token id h. transition-Announced os _ game_starting (record { tells = h.tells });
    clears_expected = clears-Announced os;
    terminates = λ c h. record { tells = (transition-Announced os c terminating_game h).tells };
    shows = shows-Announced os;
    hides = hides-Announced os;
    readies = readies-Announced os;
    receives = λ c fd h. record { tells = h.tells };
    drops_link = λ c h. drops-Announced c;
    reconnects = λ c l h. reconnects-Announced c h;
    maps = λ c client tree l h. reclassify-Announced os _ (record { tells = h.tells });
    counts = counts-Announced;
    destroys = λ c x e h. destroys-Announced os c x h;
    claims_shell = claims_shell-Announced;
    claims_overlay = λ c client resource l h. claims_overlay-Announced c client resource h;
    loses_client = gone-Announced;
    binds = λ c client resource l h. binds-Announced c client resource h;
    unbinds = λ c resource h. record { tells = h.tells };
    presents = presents-Announced;
    draws = λ c now h. record { tells = h.tells };
    runs = λ c h. record { tells = h.tells };
  }

started-Announced : (os : Os) (backend : Backend) (o : Output) → Announced (started os backend o)
unfolding started mark_ready ipc_start ipc_connect schedule_reconnect told_frame
started-Announced os backend o = ground arith

-- In every state that the event loop reaches: if the connection to playos-init is up and something
-- was sent on it, the last frame sent is the CompositorStateChanged that names the foreground state
-- which the compositor is in, whatever was sent before it and whatever send(2) answered. Over a
-- connection that has just been made nothing was sent, also if the state changed while none was up.
pub reachable-Announced :
    (k : Keycodes) (os : Os) (backend : Backend) (o : Output) {t : Compositor}
    → Reach k os (started os backend o) t
    → Announced t
reachable-Announced k os backend o r =
    Runs-keeps (Announced-Keeps os) r (started-Announced os backend o)
