-- ===== src/Machine/Session.antt =====
-- What holds of the foreground state and the expected launch in every reachable state.
use playos_compositor.Base.{
  some, ℕ, ◌≡◌, ◌≤◌, Bool, true, false, List, [], arith, length, length-take-le,
}
use playos_compositor.Compositor.{
  Compositor, Track, Os, game_starting, playos_ui_foreground_with_game_background, terminating_game,
}
use playos_compositor.Foreground.{
  transition, announce_ready, send_output_info, send_about_to_show, send_about_to_hide, refresh,
  set_expected_game, handle_clear_expected, force_terminate, surface_ready, game_exited,
}
use playos_compositor.Overlay.{
  manager_show, manager_hide, bind, resource_destroy, resolve_resource, use_resource,
}
use playos_compositor.Toplevels.{
  restack, new_xdg_toplevel, destroy_track, configure_or_count, untrack, reclassify, drop_tree,
}
use playos_compositor.Trusted.{
  shell_client_gone, overlay_client_gone, register_shell, register_overlay, client_destroyed, claim,
  assign_role,
}
use playos_compositor.Ipc.{connected, retry_later, drop_link, reconnect_handler, ipc_connect}
use playos_compositor.Render.{output_present, frame}
use playos_compositor.Machine.{Legal, Reach}
use playos_compositor.Machine.Rule.{Keeps, Runs-keeps}
use playos_compositor.Button.{Keycodes}

pub record SessionInv (c : Compositor) : Type 0 where
  pub starting_unready : c.fg_state ≡ game_starting → c.game_surface_ready ≡ false
  pub terminating_unready : c.fg_state ≡ terminating_game → c.game_surface_ready ≡ false
  pub terminating_token : c.fg_state ≡ terminating_game → c.expected_launch_token ≡ []
  pub terminating_id : c.fg_state ≡ terminating_game → c.expected_game_id ≡ []
  pub ui_requested :
      c.fg_state ≡ playos_ui_foreground_with_game_background → c.overlay_visible ≡ true
  pub token_fits : length c.expected_launch_token ≤ 63
  pub id_fits : length c.expected_game_id ≤ 255

module _ (os : Os) where
  set_expected-SessionInv :
      (c : Compositor) (token id : List ℕ)
      → SessionInv c
      → SessionInv (set_expected_game os c token id)
  unfolding set_expected_game transition
  set_expected-SessionInv c token id h =
      ground (arith, length-take-le 63 token, length-take-le 255 id)

  clear_expected-SessionInv :
      (c : Compositor) → SessionInv c → SessionInv (handle_clear_expected os c)
  unfolding handle_clear_expected transition
  clear_expected-SessionInv c h = ground arith

  terminate-SessionInv : (c : Compositor) → SessionInv c → SessionInv (force_terminate os c)
  unfolding force_terminate transition
  terminate-SessionInv c h = ground arith

  show-SessionInv : (c : Compositor) → SessionInv c → SessionInv (manager_show os c)
  unfolding manager_show transition refresh send_output_info send_about_to_show
  show-SessionInv c h = ground arith

  hide-SessionInv : (c : Compositor) → SessionInv c → SessionInv (manager_hide os c)
  unfolding manager_hide transition refresh send_about_to_hide
  hide-SessionInv c h = ground arith

  ready-SessionInv : (c : Compositor) → SessionInv c → SessionInv (surface_ready os c)
  unfolding surface_ready transition announce_ready
  ready-SessionInv c h = ground arith

  exited-SessionInv : (c : Compositor) → SessionInv c → SessionInv (game_exited os c)
  unfolding game_exited transition
  exited-SessionInv c h = ground arith

  reclassify-SessionInv : (c : Compositor) → SessionInv c → SessionInv (reclassify c)
  unfolding reclassify
  reclassify-SessionInv c h = ground arith

  destroy-SessionInv :
      (c : Compositor) (x : Track) → SessionInv c → SessionInv (destroy_track os c x)
  unfolding destroy_track untrack drop_tree refresh restack game_exited transition
  destroy-SessionInv c x h = ground arith

  count-SessionInv :
      (c : Compositor) (x : Track) (initial : Bool)
      → SessionInv c
      → SessionInv (configure_or_count c x initial)
  unfolding configure_or_count
  count-SessionInv c x initial h = ground arith

  shell-SessionInv :
      (c : Compositor) (client resource : ℕ)
      → SessionInv c
      → SessionInv (register_shell c client resource)
  unfolding register_shell claim assign_role reclassify
  shell-SessionInv c client resource h = ground arith

  resolve-SessionInv :
      (c : Compositor) (client : ℕ) → SessionInv c → SessionInv (resolve_resource c client)
  unfolding resolve_resource use_resource
  resolve-SessionInv c client h = ground arith

  overlay-SessionInv :
      (c : Compositor) (client resource : ℕ)
      → SessionInv c
      → SessionInv (register_overlay c client resource)
  unfolding register_overlay claim assign_role reclassify resolve_resource use_resource
  overlay-SessionInv c client resource h = ground arith

  gone-SessionInv :
      (c : Compositor) (client : ℕ) → SessionInv c → SessionInv (client_destroyed c client)
  unfolding client_destroyed shell_client_gone overlay_client_gone
  gone-SessionInv c client h = ground arith

  bind-SessionInv :
      (c : Compositor) (client resource : ℕ)
      → SessionInv c
      → SessionInv (bind c client (some resource))
  unfolding bind resolve_resource use_resource
  bind-SessionInv c client resource h = ground arith

  reconnect-SessionInv : (c : Compositor) → SessionInv c → SessionInv (reconnect_handler os c)
  unfolding reconnect_handler ipc_connect connected retry_later
  reconnect-SessionInv c h = ground arith

  drop-SessionInv : (c : Compositor) → SessionInv c → SessionInv (drop_link os c)
  unfolding drop_link
  drop-SessionInv c h = ground arith

  present-SessionInv :
      (c : Compositor) (p z : Bool) → SessionInv c → SessionInv (output_present c p z)
  unfolding output_present
  present-SessionInv c p z h = ground arith

  SessionInv-Keeps : Keeps os Legal SessionInv
  unfolding new_xdg_toplevel resource_destroy frame
  SessionInv-Keeps = record {
    sets_expected = set_expected-SessionInv;
    clears_expected = clear_expected-SessionInv;
    terminates = terminate-SessionInv;
    shows = show-SessionInv;
    hides = hide-SessionInv;
    readies = ready-SessionInv;
    receives = λ c fd h. ground arith;
    drops_link = drop-SessionInv;
    reconnects = λ c l h. reconnect-SessionInv c h;
    maps = λ c client tree l h. reclassify-SessionInv _ (ground arith);
    counts = count-SessionInv;
    destroys = λ c x e h. destroy-SessionInv c x h;
    claims_shell = shell-SessionInv;
    claims_overlay = λ c client resource l h. overlay-SessionInv c client resource h;
    loses_client = gone-SessionInv;
    binds = λ c client resource l h. bind-SessionInv c client resource h;
    unbinds = λ c resource h. ground arith;
    presents = present-SessionInv;
    draws = λ c now h. ground arith;
    runs = λ c h. ground arith;
  }

-- In every state that a run of legal events reaches from one in which the session invariant holds,
-- it holds: while a game is starting it is not yet marked ready, while one is terminating no launch
-- is expected any more, the overlay's own state is entered only while the overlay is requested, and
-- the token and the identifier leave room for the terminator in their buffers.
pub Reach-SessionInv :
    (k : Keycodes) (os : Os) (c : Compositor) {t : Compositor}
    → Reach k os c t
    → SessionInv c
    → SessionInv t
Reach-SessionInv k os c r h = Runs-keeps (SessionInv-Keeps os) r h
