-- ===== src/Machine.antt =====
-- The compositor as one machine: a step is a handler run to its end by the event loop, and the
-- environment chooses which.
pub mod Rule
pub mod Session
pub mod Visibility
pub mod Started
pub mod Clients
pub mod Link
pub mod Launches
pub mod Automaton
pub mod Announced
pub mod Messages
pub mod Told
pub mod Descriptors
use playos_compositor.Base.{◌≡◌, true, none, some, ℕ, Bool, Option}
use playos_compositor.Compositor.{Compositor, Os}
use playos_compositor.Toplevels.{
  Commit, new_xdg_toplevel, toplevel_commit, toplevel_destroy, find_track,
}
use playos_compositor.Trusted.{register_shell, register_overlay, client_destroyed}
use playos_compositor.Overlay.{bind, resource_destroy, request_dismiss}
use playos_compositor.Button.{Keycodes, keyboard_key}
use playos_compositor.Ipc.{Mask, fd_handler, reconnect_handler}
use playos_compositor.Render.{output_present, frame}
use playos_compositor.Screen.{NewOutput, new_output}

pub data Event : Type 0 where
  new_toplevel : (client : ℕ) (tree : Option ℕ) → Event
  commit : (tree : ℕ) → Commit → Event
  destroy : (tree : ℕ) → Event
  registers_shell registers_overlay : (client resource : ℕ) → Event
  client_gone : (client : ℕ) → Event
  binds_overlay : (client : ℕ) (resource : Option ℕ) → Event
  unbinds_overlay : (resource : ℕ) → Event
  dismisses : (client : ℕ) → Event
  key : (code : ℕ) (pressed : Bool) → Event
  ipc_ready : (fd : ℕ) → Mask → Event
  reconnect_timer : Event
  output_added : NewOutput → Event
  presented : (presented zero_copy : Bool) → Event
  frame_due : (now : ℕ) → Event

unfoldable pub step : Keycodes → Os → Compositor → Event → Compositor
step k os c (new_toplevel client tree) = new_xdg_toplevel c client tree
step k os c (commit tree e) = toplevel_commit os c tree e
step k os c (destroy tree) = toplevel_destroy os c tree
step k os c (registers_shell client resource) = register_shell c client resource
step k os c (registers_overlay client resource) = register_overlay c client resource
step k os c (client_gone client) = client_destroyed c client
step k os c (binds_overlay client resource) = bind c client resource
step k os c (unbinds_overlay resource) = resource_destroy c resource
step k os c (dismisses client) = request_dismiss os c client
step k os c (key code pressed) = keyboard_key k os c code pressed
step k os c (ipc_ready fd mask) = fd_handler os c fd mask
step k os c reconnect_timer = reconnect_handler os c
step k os c (output_added a) = new_output c a
step k os c (presented p z) = output_present c p z
step k os c (frame_due now) = frame c now

-- What libwayland guarantees of an event: a new tree is none of those tracked, and the reconnect
-- timer fires only while it is set.
abbrev pub Legal : Compositor → Event → Type 0
Legal c (new_toplevel client (some tree)) = find_track tree c.toplevels ≡ none
Legal c reconnect_timer = c.link.timer ≡ true
Legal c _ = Unit {0}

-- The states that runs of allowed events lead to.
pub data Runs (k : Keycodes) (os : Os) (Allowed : Compositor → Event → Type 0) (c : Compositor)
    : Compositor → Type 0 where
  here : Runs k os Allowed c c
  next :
      {t : Compositor} (e : Event)
      → Runs k os Allowed c t
      → Allowed t e
      → Runs k os Allowed c (step k os t e)

-- The states that runs of legal events lead to.
abbrev pub Reach : Keycodes → Os → Compositor → Compositor → Type 0
Reach k os c t = Runs k os Legal c t
