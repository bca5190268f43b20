-- ===== src/TestClient/Session.antt =====
-- main of tools/test-client/src/main.c: the set-up, the render loop and the clean-up. A clock is in
-- microseconds.
use playos_compositor.Base.{
  ℕ, zero, suc, ◌+◌, ◌-◌, Bool, true, false, ◌&&◌, Option, none, some, List, [], leb, if◌then◌else◌,
}
use playos_compositor.TestClient.{
  Client, Driver, Event, made, freed, drew, committed, counted, act, create, free_if, init_egl,
  handle_globals, handle_all, fresh, display, registry, compositor, wm_base, surface, xdg_surface,
  xdg_toplevel, egl_display, egl_context, window, egl_surface,
}

-- One round of the render loop: the events that drawing brings, and the time after the frame is
-- drawn. wl_display_dispatch_pending and wl_display_flush read nothing from the socket;
-- eglSwapBuffers does, and what it reads is there for the next round.
pub record Round : Type 0 where
  pub events : List Event
  pub now : ℕ

-- The variables of the loop, and the events that were read and not yet handled.
pub record Rendering : Type 0 where
  pub client : Client
  pub queued : List Event
  pub frame_count : ℕ
  pub last_fps_time : ℕ

-- The counter of five seconds.
unfoldable pub count_frame : ℕ → Rendering → Rendering
count_frame now r =
    let frames = r.frame_count + 1 in
    if leb 5_000_000 (now - r.last_fps_time)
    then record r { client = act (counted frames) r.client; frame_count = 0; last_fps_time = now }
    else record r { frame_count = frames }

-- The surface, its roles and the first commit.
unfoldable pub create_surface : Client → Client
create_surface c =
    act committed (act (made xdg_toplevel) (act (made xdg_surface) (act (made surface) c)))

module _ (d : Driver) where
  -- The body of the loop.
  unfoldable pub render_round : Round → Rendering → Rendering
  unfolding handle_all count_frame
  render_round round r =
      let c = handle_all d r.queued r.client in
      if c.has_surface
      then count_frame round.now (record r { client = act drew c; queued = round.events })
      else record r { client = c; queued = [] }

  -- The loop, with the rounds that come and at most as many of them as the fuel; `none` is a loop
  -- that is still running.
  unfoldable pub render_loop : (fuel : ℕ) → (ℕ → Round) → ℕ → Rendering → Option Rendering
  render_loop zero rounds i r = none
  render_loop (suc fuel) rounds i r = elim r.client.running [
    | true ↦ render_loop fuel rounds (i + 1) (render_round (rounds i) r)
    | false ↦ some r
  ]

  -- main up to the loop; `none` is EXIT_FAILURE. The two round trips bring the globals and the first
  -- events.
  unfoldable pub set_up : List (List ℕ) → List Event → Option Client
  unfolding init_egl handle_globals handle_all create_surface
  set_up globals events =
      let (connected, c0) = create d display fresh in
      let c1 = handle_globals d globals (act (made registry) c0) in
      let (ready, c2) = init_egl d c1 in
      if connected && (c1.has_compositor && c1.has_wm_base) && ready
      then some (handle_all d events (create_surface c2))
      else none

-- The clean-up at the end of main: what hangs on the EGL display, then the rest.
unfoldable pub clean_egl : Bool → Client → Client
clean_egl true c =
    act (freed egl_display)
      (free_if c.has_context egl_context (free_if c.has_surface egl_surface c))
clean_egl false c = c

unfoldable pub clean_up : Client → Client
clean_up c =
    let c1 = free_if c.has_window window (clean_egl c.has_display c) in
    let c2 = act (freed surface) (act (freed xdg_surface) (act (freed xdg_toplevel) c1)) in
    let c3 = free_if c.has_compositor compositor (free_if c.has_wm_base wm_base c2) in
    act (freed display) (act (freed registry) c3)
