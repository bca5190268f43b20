-- ===== src/Machine/Descriptors/Handlers.antt =====
-- The descriptors stay as they should over every handler.
use playos_compositor.Base.{◌≡◌, true, false, ◌||◌, none, arith}
use playos_compositor.Compositor.{
  Compositor, Track, Os, Link, Backend, Output, ForegroundState, game_starting, game_foreground,
  shell_foreground, terminating_game, playos_ui_foreground_with_game_background, state_is, role_is,
  game,
}
use playos_compositor.Foreground.{
  ipc_send, announce, transition, reset_overlay, set_expected_game, handle_clear_expected,
  force_terminate, surface_ready, announce_ready, game_exited, has_game, send_output_info,
  send_about_to_show, send_about_to_hide, clear_expected,
}
use playos_compositor.Overlay.{manager_show, manager_hide, resource_destroy}
use playos_compositor.Toplevels.{new_xdg_toplevel, destroy_track, untrack, drop_tree}
use playos_compositor.Ipc.{ipc_connect, ipc_start, schedule_reconnect}
use playos_compositor.Render.{frame}
use playos_compositor.Machine.Started.{reachable-LinkInv}
use playos_compositor.Machine.{Reach, here, next, Event, Legal, step}
use playos_compositor.Button.{Keycodes}
use playos_compositor.Lifecycle.{started, mark_ready}
use playos_compositor.Machine.Link.{LinkInv}
use playos_compositor.Machine.Rule.{if-keeps, Keeps, step-keeps}
use playos_compositor.Machine.Descriptors.{
  open_fds, is_careful, drop_fd, Descriptors, calls-Holds, refresh-Descriptors, reset-Descriptors,
  restack-Descriptors, reclassify-Descriptors, claims_shell-Descriptors, claims_overlay-Descriptors,
  counts-Descriptors, gone-Descriptors, binds-Descriptors, receives-Descriptors,
  presents-Descriptors, drops-Descriptors, reconnects-Descriptors,
}

module _ (os : Os) where
  transition-Descriptors :
      (c : Compositor) (s : ForegroundState) → Descriptors c → Descriptors (transition os c s)
  unfolding transition announce ipc_send
  transition-Descriptors c s h =
      let c' : Compositor = record (reset_overlay c s) { fg_state = s } in
      let h' : Descriptors c' = record { holds = (reset-Descriptors c s h).holds } in
      if-keeps Descriptors (state_is c.fg_state s) h
        (record { holds = calls-Holds os _ _ _ _ (refresh-Descriptors c' h').holds })

  clears-Descriptors : (c : Compositor) → Descriptors c → Descriptors (handle_clear_expected os c)
  unfolding handle_clear_expected
  clears-Descriptors c h =
      let h' : Descriptors (clear_expected c) = record { holds = h.holds } in
      if-keeps Descriptors (has_game c.fg_state) (transition-Descriptors _ shell_foreground h') h'

  exits-Descriptors : (c : Compositor) → Descriptors c → Descriptors (game_exited os c)
  unfolding game_exited
  exits-Descriptors c h = record {
    holds =
        (if-keeps Descriptors (has_game c.fg_state || state_is c.fg_state terminating_game)
          (transition-Descriptors c shell_foreground h) h).holds;
  }

  shows-Descriptors : (c : Compositor) → Descriptors c → Descriptors (manager_show os c)
  unfolding manager_show send_output_info send_about_to_show open_fds is_careful
  shows-Descriptors c h =
      let c' = send_about_to_show (send_output_info (record c { overlay_visible = true })) in
      let h' : Descriptors c' = ground arith in
      if-keeps Descriptors c.overlay_visible h (
        if-keeps Descriptors (state_is c.fg_state game_foreground) (transition-Descriptors c' _ h')
          (refresh-Descriptors c' h'))

  hides-Descriptors : (c : Compositor) → Descriptors c → Descriptors (manager_hide os c)
  unfolding manager_hide send_about_to_hide open_fds is_careful
  hides-Descriptors c h =
      let c' = send_about_to_hide (record c { overlay_visible = false }) in
      let h' : Descriptors c' = ground arith in
      if-keeps Descriptors c.overlay_visible
        (if-keeps Descriptors (state_is c.fg_state playos_ui_foreground_with_game_background)
          (transition-Descriptors c' _ h') (refresh-Descriptors c' h'))
        h

  readies-Descriptors : (c : Compositor) → Descriptors c → Descriptors (surface_ready os c)
  unfolding surface_ready announce_ready ipc_send
  readies-Descriptors c h = if-keeps Descriptors c.game_surface_ready h (
      if-keeps Descriptors (state_is c.fg_state game_starting)
        (transition-Descriptors _ game_foreground
          (record { holds = calls-Holds os c.link.sock_fd _ _ c.calls h.holds }))
        h)

  untrack-Descriptors : (c : Compositor) (x : Track) → Descriptors c → Descriptors (untrack c x)
  unfolding untrack drop_tree
  untrack-Descriptors c x h = ground arith

  destroys-Descriptors :
      (c : Compositor) (x : Track) → Descriptors c → Descriptors (destroy_track os c x)
  unfolding destroy_track
  destroys-Descriptors c x h =
      let h' = untrack-Descriptors c x h in
      restack-Descriptors _ (
        if-keeps Descriptors (role_is x.role game) (exits-Descriptors (untrack c x) h')
          (refresh-Descriptors (untrack c x) h'))

-- A legal event, where the reconnect timer is set only for a connection that is down.
abbrev pub Connected : Compositor → Event → Type 0
Connected c e = Legal c e × LinkInv c.link

no_link : (l : Link) → LinkInv l → l.timer ≡ true → l.sock_fd ≡ none
no_link l h t = ground arith

Descriptors-Keeps : (os : Os) → Keeps os Connected Descriptors
unfolding set_expected_game force_terminate new_xdg_toplevel resource_destroy frame
Descriptors-Keeps os = record {
  sets_expected =
      λ c token id h. transition-Descriptors os _ game_starting (record { holds = h.holds });
  clears_expected = clears-Descriptors os;
  terminates = λ c h. record { holds = (transition-Descriptors os c terminating_game h).holds };
  shows = shows-Descriptors os;
  hides = hides-Descriptors os;
  readies = readies-Descriptors os;
  receives = receives-Descriptors;
  drops_link = drops-Descriptors os;
  reconnects = λ c l h. reconnects-Descriptors os c (no_link c.link l.1 l.0) h;
  maps = λ c client tree l h. reclassify-Descriptors _ (record { holds = h.holds });
  counts = counts-Descriptors;
  destroys = λ c x e h. destroys-Descriptors os c x h;
  claims_shell = claims_shell-Descriptors;
  claims_overlay = λ c client resource l h. claims_overlay-Descriptors c client resource h;
  loses_client = gone-Descriptors;
  binds = λ c client r l h. binds-Descriptors c client r h;
  unbinds = λ c r h. record { holds = h.holds };
  presents = presents-Descriptors;
  draws = λ c now h. record { holds = h.holds };
  runs = λ c h. record { holds = h.holds };
}

pub step-Descriptors :
    (k : Keycodes) (os : Os) (c : Compositor) (e : Event)
    → Legal c e
    → LinkInv c.link
    → Descriptors c
    → Descriptors (step k os c e)
step-Descriptors k os c e l i h = step-keeps (Descriptors-Keeps os) k c e (l, i) h

pub started-Descriptors :
    (os : Os) (backend : Backend) (o : Output) → Descriptors (started os backend o)
unfolding started mark_ready ipc_start ipc_connect schedule_reconnect open_fds is_careful drop_fd
started-Descriptors os backend o = ground arith

-- In every state that the event loop reaches, exactly the descriptor of the link to playos-init is
-- open, of all that socket(2) has given over all attempts to connect, and none where the link is
-- down; and no descriptor was ever sent on or closed while it was not open.
pub reachable-Descriptors :
    (k : Keycodes) (os : Os) (backend : Backend) (o : Output) {t : Compositor}
    → Reach k os (started os backend o) t
    → Descriptors t
reachable-Descriptors k os backend o here = started-Descriptors os backend o
reachable-Descriptors k os backend o (next {t = t} e r l) =
    step-Descriptors k os t e l (reachable-LinkInv k os backend o r)
      (reachable-Descriptors k os backend o r)
