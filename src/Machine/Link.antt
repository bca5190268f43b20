-- ===== src/Machine/Link.antt =====
-- The connection to playos-init: its event source, its reconnect timer and its delay.
use playos_compositor.Base.{
  ℕ, ◌≡◌, ◌≤◌, Bool, true, false, not, Option, none, some, List, arith, is_some, refl,
}
use playos_compositor.Compositor.{ForegroundState, Compositor, Track, Os, Link, Call}
use playos_compositor.Foreground.{
  set_expected_game, handle_clear_expected, force_terminate, surface_ready, game_exited, transition,
  announce_ready, refresh, send_output_info, send_about_to_show, send_about_to_hide,
}
use playos_compositor.Overlay.{
  manager_show, manager_hide, bind, resource_destroy, resolve_resource, use_resource,
}
use playos_compositor.Toplevels.{
  new_xdg_toplevel, destroy_track, configure_or_count, untrack, reclassify, drop_tree, restack,
}
use playos_compositor.Trusted.{
  register_shell, register_overlay, client_destroyed, claim, assign_role, shell_client_gone,
  overlay_client_gone,
}
use playos_compositor.Ipc.{
  drop_link, reconnect_handler, ipc_connect, connected, retry_later, ipc_start, schedule_reconnect,
  ipc_disconnect, next_delay,
}
use playos_compositor.Render.{output_present, frame}
use playos_compositor.Machine.{Legal, Reach}
use playos_compositor.Machine.Rule.{Keeps, Runs-keeps}
use playos_compositor.Button.{Keycodes}

-- The event source is set only for a link that is connected, the reconnect timer only for one that is
-- not; a connected link starts again from the first delay, and no delay is above five seconds.
pub record LinkInv (l : Link) : Type 0 where
  pub sourced : l.source ≡ true → is_some l.sock_fd ≡ true
  pub timed : l.timer ≡ true → is_some l.sock_fd ≡ false
  pub fresh : is_some l.sock_fd ≡ true → l.delay_ms ≡ 100
  pub at_least : 100 ≤ l.delay_ms
  pub at_most : l.delay_ms ≤ 5000

-- A connected link has its event source, a broken one the reconnect timer, and never both.
pub record Served (l : Link) : Type 0 where
  pub served : l.source ≡ is_some l.sock_fd
  pub retried : l.timer ≡ not (is_some l.sock_fd)

link-transition :
    (os : Os) (c : Compositor) (s : ForegroundState) → (transition os c s).link ≡ c.link
unfolding transition
link-transition os c s = ground arith

link-show : (os : Os) (c : Compositor) → (manager_show os c).link ≡ c.link
unfolding manager_show transition refresh send_output_info send_about_to_show
link-show os c = ground arith

link-hide : (os : Os) (c : Compositor) → (manager_hide os c).link ≡ c.link
unfolding manager_hide transition refresh send_about_to_hide
link-hide os c = ground arith

link-ready : (os : Os) (c : Compositor) → (surface_ready os c).link ≡ c.link
unfolding surface_ready transition announce_ready
link-ready os c = ground arith

link-clear : (os : Os) (c : Compositor) → (handle_clear_expected os c).link ≡ c.link
unfolding handle_clear_expected transition
link-clear os c = ground arith

link-destroy : (os : Os) (c : Compositor) (x : Track) → (destroy_track os c x).link ≡ c.link
unfolding destroy_track untrack drop_tree refresh restack game_exited transition
link-destroy os c x = ground arith

link-count : (c : Compositor) (x : Track) (b : Bool) → (configure_or_count c x b).link ≡ c.link
unfolding configure_or_count
link-count c x b = ground arith

link-shell :
    (c : Compositor) (client resource : ℕ) → (register_shell c client resource).link ≡ c.link
unfolding register_shell claim assign_role reclassify
link-shell c client resource = ground arith

link-overlay :
    (c : Compositor) (client resource : ℕ) → (register_overlay c client resource).link ≡ c.link
unfolding register_overlay claim assign_role reclassify resolve_resource use_resource
link-overlay c client resource = ground arith

link-gone : (c : Compositor) (client : ℕ) → (client_destroyed c client).link ≡ c.link
unfolding client_destroyed shell_client_gone overlay_client_gone
link-gone c client = ground arith

link-bind : (c : Compositor) (client resource : ℕ) → (bind c client (some resource)).link ≡ c.link
unfolding bind resolve_resource use_resource
link-bind c client resource = ground arith

link-present : (c : Compositor) (p z : Bool) → (output_present c p z).link ≡ c.link
unfolding output_present
link-present c p z = ground arith

drop-LinkInv : (os : Os) (c : Compositor) → LinkInv c.link → LinkInv (drop_link os c).link
unfolding drop_link ipc_disconnect schedule_reconnect
drop-LinkInv os c h = ground arith

reconnect-LinkInv :
    (os : Os) (c : Compositor)
    → c.link.timer ≡ true
    → LinkInv c.link
    → LinkInv (reconnect_handler os c).link
unfolding reconnect_handler ipc_connect connected retry_later next_delay
reconnect-LinkInv os c l h = ground arith

-- What the handlers outside the connection do: the link stays as it is.
link-Keeps :
    (os : Os) (P : Link → Type 0)
    → ((c : Compositor) → P c.link → P (drop_link os c).link)
    → ((c : Compositor) → c.link.timer ≡ true → P c.link → P (reconnect_handler os c).link)
    → Keeps os Legal (λ c. P c.link)
unfolding set_expected_game force_terminate new_xdg_toplevel reclassify resource_destroy frame
link-Keeps os P drops reconnects = record {
  sets_expected = λ c token id h. rw (link-transition os) h;
  clears_expected = λ c h. rw (link-clear os c) h;
  terminates = λ c h. rw (link-transition os) h;
  shows = λ c h. rw (link-show os c) h;
  hides = λ c h. rw (link-hide os c) h;
  readies = λ c h. rw (link-ready os c) h;
  receives = λ c fd h. h;
  drops_link = drops;
  reconnects = reconnects;
  maps = λ c client tree l h. h;
  counts = λ c x b h. rw (link-count c x b) h;
  destroys = λ c x e h. rw (link-destroy os c x) h;
  claims_shell = λ c client resource h. rw (link-shell c client resource) h;
  claims_overlay = λ c client resource l h. rw (link-overlay c client resource) h;
  loses_client = λ c client h. rw (link-gone c client) h;
  binds = λ c client resource l h. rw (link-bind c client resource) h;
  unbinds = λ c resource h. h;
  presents = λ c p z h. rw (link-present c p z) h;
  draws = λ c now h. h;
  runs = λ c h. h;
}

pub ipc_start-LinkInv : (os : Os) (c : Compositor) → LinkInv (ipc_start os c).link
unfolding ipc_start ipc_connect schedule_reconnect
ipc_start-LinkInv os c = ground arith

pub Reach-LinkInv :
    (k : Keycodes) (os : Os) (c : Compositor) {t : Compositor}
    → Reach k os c t
    → LinkInv c.link
    → LinkInv t.link
Reach-LinkInv k os c r h =
    Runs-keeps (link-Keeps os LinkInv (drop-LinkInv os) (reconnect-LinkInv os)) r h

-- What holds of both outcomes of an attempt to connect.
attempt-keeps :
    (P : Compositor → Type 0) (fd : Option ℕ) {up : ℕ → Compositor} {down : Compositor}
    → ((n : ℕ) → P (up n))
    → P down
    → P (elim fd [ some n ↦ up n | none ↦ down ])
attempt-keeps P (some n) hu hd = hu n
attempt-keeps P none hu hd = hd

-- Where libwayland refuses no event source and no timer.
module _ (os : Os) (fds_granted : (calls : List Call) (fd : ℕ) → os.adds_fd calls fd ≡ true)
    (timers_granted : (calls : List Call) → os.adds_timer calls ≡ true) where
  schedule-Served :
      (c : Compositor)
      → c.link.sock_fd ≡ none
      → c.link.source ≡ false
      → Served (schedule_reconnect os c).link
  unfolding schedule_reconnect
  schedule-Served c d s = ground (arith, timers_granted c.calls)

  drop-Served : (c : Compositor) → Served c.link → Served (drop_link os c).link
  unfolding drop_link ipc_disconnect
  drop-Served c h = schedule-Served (ipc_disconnect c) refl refl

  connected-Served : (c : Compositor) (fd : ℕ) → Served (connected os c fd).link
  unfolding connected
  connected-Served c fd = record { served = fds_granted c.calls fd; retried = refl }

  reconnect-Served :
      (c : Compositor) → c.link.timer ≡ true → Served c.link → Served (reconnect_handler os c).link
  unfolding reconnect_handler retry_later
  reconnect-Served c t h =
      let tried = record c { calls = (ipc_connect os c.calls).1 } in
      attempt-keeps (λ (c' : Compositor). Served c'.link) (ipc_connect os c.calls).0
        (λ n. connected-Served tried n) (record { served = h.served; retried = h.retried })

  pub ipc_start-Served : (c : Compositor) → Served (ipc_start os c).link
  unfolding ipc_start
  ipc_start-Served c =
      let calls = (ipc_connect os c.calls).1 in
      let c' : Compositor = record c {
        link = record { sock_fd = none; source = false; timer = false; delay_ms = 100 };
        calls = calls;
      } in
      attempt-keeps (λ (c1 : Compositor). Served c1.link) (ipc_connect os c.calls).0
        (λ n. record { served = fds_granted calls n; retried = refl })
        (schedule-Served c' refl refl)

  pub Reach-Served :
      (k : Keycodes) (c : Compositor) {t : Compositor}
      → Reach k os c t
      → Served c.link
      → Served t.link
  Reach-Served k c r h = Runs-keeps (link-Keeps os Served drop-Served reconnect-Served) r h
