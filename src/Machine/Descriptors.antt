-- ===== src/Machine/Descriptors.antt =====
-- The descriptors of the connection to playos-init: which are open, by the recorded calls of
-- src/compositor_ipc.c, and when they are sent on and closed.
pub mod Handlers
use playos_compositor.Base.{
  ℕ, ◌≡◌, refl, Bool, true, false, not, ◌&&◌, ◌||◌, Option, none, some, List, [], ◌∷◌, ◌==◌, arith,
  if◌then◌else◌, is_some,
}
use playos_compositor.Compositor.{
  Compositor, Track, Os, Link, Backend, Output, ForegroundState, Call, sent, opened, closed,
  received, role_already_taken, game_starting, game_foreground, shell_foreground, terminating_game,
  playos_ui_foreground_with_game_background, state_is, role_is, game, shell, overlay,
}
use playos_compositor.Foreground.{
  ipc_calls, ipc_send, announce, transition, reset_overlay, refresh, set_expected_game,
  handle_clear_expected, force_terminate, surface_ready, announce_ready, game_exited, has_game,
  send_output_info, send_about_to_show, send_about_to_hide, clear_expected,
}
use playos_compositor.Foreground.Sends.{ipc_calls-keeps}
use playos_compositor.Overlay.{
  manager_show, manager_hide, bind, resource_destroy, resolve_resource, use_resource,
}
use playos_compositor.Toplevels.{
  new_xdg_toplevel, destroy_track, configure_or_count, untrack, reclassify, drop_tree, restack,
  assign_trees, count_commit,
}
use playos_compositor.Trusted.{
  register_shell, register_overlay, client_destroyed, assign_role, shell_client_gone,
  overlay_client_gone,
}
use playos_compositor.Ipc.{
  drop_link, reconnect_handler, ipc_connect, connected, retry_later, ipc_start, schedule_reconnect,
  ipc_disconnect, ipc_stop,
}
use playos_compositor.Render.{output_present, frame}
use playos_compositor.Machine.{Event, Legal, reconnect_timer, step}
use playos_compositor.Button.{Keycodes}
use playos_compositor.Lifecycle.{started, mark_ready}
use playos_compositor.Machine.Link.{LinkInv}
use playos_compositor.Machine.Rule.{
  register_shell_cases, register_overlay_cases, if-keeps, Keeps, step-keeps,
}

unfoldable pub drop_fd : ℕ → List ℕ → List ℕ
drop_fd fd [] = []
drop_fd fd (x ∷ fds) = if x == fd then fds else x ∷ drop_fd fd fds

-- The descriptors that are open after the calls, the latest first.
unfoldable pub open_fds : List Call → List ℕ
unfolding drop_fd
open_fds [] = []
open_fds (opened fd ∷ calls) = fd ∷ open_fds calls
open_fds (closed fd ∷ calls) = drop_fd fd (open_fds calls)
open_fds (_ ∷ calls) = open_fds calls

abbrev pub is_open : List ℕ → ℕ → Bool
is_open [] fd = false
is_open (x ∷ fds) fd = x == fd || is_open fds fd

-- Whether every send(2) and every close(2) was of a descriptor that was open.
unfoldable pub is_careful : List Call → Bool
unfolding open_fds
is_careful [] = true
is_careful (sent fd buf ∷ calls) = is_open (open_fds calls) fd && is_careful calls
is_careful (closed fd ∷ calls) = is_open (open_fds calls) fd && is_careful calls
is_careful (_ ∷ calls) = is_careful calls

abbrev pub held : Option ℕ → List ℕ
held none = []
held (some fd) = fd ∷ []

-- Exactly the descriptor of the link is open.
pub record Holds (fd : Option ℕ) (calls : List Call) : Type 0 where
  pub owned : open_fds calls ≡ held fd
  pub careful : is_careful calls ≡ true

pub record Descriptors (c : Compositor) : Type 0 where
  pub holds : Holds c.link.sock_fd c.calls

sent-Holds :
    (link : Option ℕ) (fd : ℕ) (calls : List Call) (buf : List ℕ)
    → link ≡ some fd
    → Holds link calls
    → Holds link (sent fd buf ∷ calls)
unfolding open_fds is_careful
sent-Holds link fd calls buf e h = ground arith

pub calls-Holds :
    (os : Os) (link : Option ℕ) (type extra : List ℕ) (calls : List Call)
    → Holds link calls
    → Holds link (ipc_calls os link type extra calls)
calls-Holds os link type extra calls h =
    ipc_calls-keeps (Holds link) os link (sent-Holds link) type extra calls h

pub refresh-Descriptors : (c : Compositor) → Descriptors c → Descriptors (refresh c)
unfolding refresh open_fds is_careful
refresh-Descriptors c h = ground arith

pub reset-Descriptors :
    (c : Compositor) (s : ForegroundState) → Descriptors c → Descriptors (reset_overlay c s)
unfolding reset_overlay open_fds is_careful
reset-Descriptors c s h = ground arith

pub restack-Descriptors : (c : Compositor) → Descriptors c → Descriptors (restack c)
unfolding restack open_fds is_careful
restack-Descriptors c h = ground arith

pub reclassify-Descriptors : (c : Compositor) → Descriptors c → Descriptors (reclassify c)
unfolding reclassify assign_trees
reclassify-Descriptors c h =
    refresh-Descriptors _ (restack-Descriptors (assign_trees c _) (record { holds = h.holds }))

pub refused-Descriptors :
    (c : Compositor) (resource : ℕ)
    → Descriptors c
    → Descriptors (record c { calls = role_already_taken resource ∷ c.calls })
unfolding open_fds is_careful
refused-Descriptors c resource h = ground arith

pub resolve-Descriptors :
    (c : Compositor) (client : ℕ) → Descriptors c → Descriptors (resolve_resource c client)
unfolding resolve_resource use_resource send_output_info open_fds is_careful
resolve-Descriptors c client h = ground arith

pub claims_shell-Descriptors :
    (c : Compositor) (client resource : ℕ)
    → Descriptors c
    → Descriptors (register_shell c client resource)
unfolding assign_role
claims_shell-Descriptors c client resource h =
    register_shell_cases Descriptors c client resource (refused-Descriptors c resource h)
      (reclassify-Descriptors (assign_role c client shell) (record { holds = h.holds }))

pub claims_overlay-Descriptors :
    (c : Compositor) (client resource : ℕ)
    → Descriptors c
    → Descriptors (register_overlay c client resource)
unfolding assign_role
claims_overlay-Descriptors c client resource h =
    register_overlay_cases Descriptors c client resource (refused-Descriptors c resource h) (
      resolve-Descriptors _ client
        (reclassify-Descriptors (assign_role c client overlay) (record { holds = h.holds })))

pub counts-Descriptors :
    (c : Compositor) (x : Track) (b : Bool) → Descriptors c → Descriptors (configure_or_count c x b)
unfolding configure_or_count count_commit open_fds is_careful
counts-Descriptors c x b h = ground arith

pub gone-Descriptors :
    (c : Compositor) (client : ℕ) → Descriptors c → Descriptors (client_destroyed c client)
unfolding client_destroyed shell_client_gone overlay_client_gone
gone-Descriptors c client h = ground arith

pub binds-Descriptors :
    (c : Compositor) (client r : ℕ) → Descriptors c → Descriptors (bind c client (some r))
unfolding bind resolve_resource use_resource send_output_info open_fds is_careful
binds-Descriptors c client r h = ground arith

pub receives-Descriptors :
    (c : Compositor) (fd : ℕ)
    → Descriptors c
    → Descriptors (record c { calls = received fd ∷ c.calls })
unfolding open_fds is_careful
receives-Descriptors c fd h = ground arith

pub presents-Descriptors :
    (c : Compositor) (p z : Bool) → Descriptors c → Descriptors (output_present c p z)
unfolding output_present
presents-Descriptors c p z h = ground arith

pub disconnects-Descriptors : (c : Compositor) → Descriptors c → Descriptors (ipc_disconnect c)
unfolding ipc_disconnect open_fds is_careful drop_fd
disconnects-Descriptors c h = ground arith

pub schedules-Descriptors :
    (os : Os) (c : Compositor) → Descriptors c → Descriptors (schedule_reconnect os c)
unfolding schedule_reconnect open_fds is_careful
schedules-Descriptors os c h = ground arith

pub drops-Descriptors : (os : Os) (c : Compositor) → Descriptors c → Descriptors (drop_link os c)
unfolding drop_link
drops-Descriptors os c h = schedules-Descriptors os (ipc_disconnect c) (disconnects-Descriptors c h)

-- A failed attempt closes the socket that it opened.
pub reconnects-Descriptors :
    (os : Os) (c : Compositor)
    → c.link.sock_fd ≡ none
    → Descriptors c
    → Descriptors (reconnect_handler os c)
unfolding reconnect_handler ipc_connect connected retry_later open_fds is_careful drop_fd
reconnects-Descriptors os c e h = ground arith
