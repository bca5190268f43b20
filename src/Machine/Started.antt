-- ===== src/Machine/Started.antt =====
-- The invariants of the machine from its start: they hold when the event loop begins, and so in
-- every state that it reaches.
use playos_compositor.Base.{ℕ, ◌≡◌, true, List, arith}
use playos_compositor.Compositor.{Backend, Compositor, Os, Output, Call}
use playos_compositor.Lifecycle.{started, mark_ready}
use playos_compositor.Ipc.{ipc_start, schedule_reconnect, ipc_connect}
use playos_compositor.Button.{Keycodes}
use playos_compositor.Machine.{Reach}
use playos_compositor.Machine.Session.{SessionInv, Reach-SessionInv}
use playos_compositor.Machine.Visibility.{SceneInv}
use playos_compositor.Machine.Visibility.Surfaces.{Reach-SceneInv}
use playos_compositor.Machine.Link.{
  LinkInv, Reach-LinkInv, ipc_start-LinkInv, Served, Reach-Served, ipc_start-Served,
}
use playos_compositor.Machine.Clients.{ClientsInv, Reach-ClientsInv}

module _ (k : Keycodes) (os : Os) (backend : Backend) (o : Output) where
  started-SessionInv : SessionInv (started os backend o)
  unfolding started mark_ready ipc_start ipc_connect schedule_reconnect
  started-SessionInv = ground arith

  started-SceneInv : SceneInv (started os backend o)
  unfolding started mark_ready ipc_start ipc_connect schedule_reconnect
  started-SceneInv = ground arith

  started-ClientsInv : ClientsInv (started os backend o)
  unfolding started mark_ready ipc_start ipc_connect schedule_reconnect
  started-ClientsInv = ground arith

  started-LinkInv : LinkInv (started os backend o).link
  unfolding started mark_ready
  started-LinkInv = ipc_start-LinkInv os _

  -- In every state that the event loop reaches: a game that is starting is not marked ready; while
  -- a game is terminating none is marked ready and no launch is expected; the overlay's own
  -- foreground state is held only while the overlay is requested; and the expected token and game
  -- identifier have at most 63 and 255 bytes, so that they fit their buffers with the terminator.
  pub reachable-SessionInv : {t : Compositor} → Reach k os (started os backend o) t → SessionInv t
  reachable-SessionInv r = Reach-SessionInv k os _ r started-SessionInv

  -- In every state that the event loop reaches: no two tracked surfaces share a scene tree; each of
  -- the shell's, the game's and the overlay's pointers is NULL or the tree of a tracked surface of
  -- that role, so that none dangles; and that tree is enabled in the scene exactly as the foreground
  -- state says: the shell's in the shell's states, the game's in the game's and the overlay's
  -- states, and the overlay's in its own state while it is requested.
  pub reachable-SceneInv : {t : Compositor} → Reach k os (started os backend o) t → SceneInv t
  reachable-SceneInv r = Reach-SceneInv k os _ r started-SceneInv

  -- In every state that the event loop reaches, the listener for the loss of each trusted role is on
  -- the client that holds the role, and the overlay's resource is NULL or one of the live bindings.
  pub reachable-ClientsInv : {t : Compositor} → Reach k os (started os backend o) t → ClientsInv t
  reachable-ClientsInv r = Reach-ClientsInv k os _ r started-ClientsInv

  -- In every state that the event loop reaches, whatever libwayland and the system answer: an event
  -- source for playos-init is set only while the connection is up, the reconnect timer only while it
  -- is down; the delay is back at 100 ms where it is up, and lies between 100 ms and 5000 ms always.
  pub reachable-LinkInv : {t : Compositor} → Reach k os (started os backend o) t → LinkInv t.link
  reachable-LinkInv r = Reach-LinkInv k os _ r started-LinkInv

  -- In every state that the event loop reaches, if wl_event_loop_add_fd and wl_event_loop_add_timer
  -- never fail: the connection to playos-init is up, with its event source and without the reconnect
  -- timer, or it is down, without an event source, and the reconnect timer is set.
  pub reachable-Served :
      (fds_granted : (calls : List Call) (fd : ℕ) → os.adds_fd calls fd ≡ true)
      (timers_granted : (calls : List Call) → os.adds_timer calls ≡ true) {t : Compositor}
      → Reach k os (started os backend o) t
      → Served t.link
  unfolding started mark_ready
  reachable-Served fds timers r =
      Reach-Served os fds timers k _ r (ipc_start-Served os fds timers _)
