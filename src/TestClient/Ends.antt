-- ===== src/TestClient/Ends.antt =====
-- The render loop of the test client, once the compositor asks it to close.
use playos_compositor.Base.{
  ℕ, zero, suc, ◌+◌, ◌≡◌, ◌≤◌, ◌-◌, leb, Bool, true, false, none, some, List, [], ◌∷◌, arith, refl,
  ◌∙◌, Bool-cases, inl, inr,
}
use playos_compositor.TestClient.{
  Client, Driver, Event, configures, configures_toplevel, closes, act, acked, compile_shader,
  link_program, link_or_free, init_shaders, window_surface, create_egl_window, start_drawing,
  surface_configure, toplevel_configure, handle, handle_all,
}
use playos_compositor.Machine.Rule.{if-keeps, if-split}
use playos_compositor.TestClient.Session.{Round, Rendering, count_frame, render_round, render_loop}

-- Whether one of the events asks the client to close.
unfoldable pub has_close : List Event → Bool
has_close [] = false
has_close (closes ∷ es) = true
has_close (_ ∷ es) = has_close es

module _ (d : Driver) where
  init_shaders-running : (c : Client) → (init_shaders d c).running ≡ c.running
  unfolding init_shaders compile_shader link_program link_or_free
  init_shaders-running c = ground arith

  start_drawing-running : (c : Client) → (start_drawing d c).running ≡ c.running
  unfolding start_drawing
  start_drawing-running c = init_shaders-running _

  create_egl_window-running : (c : Client) → (create_egl_window d c).running ≡ c.running
  unfolding create_egl_window window_surface
  create_egl_window-running c = ground arith

  surface_configure-running :
      (serial : ℕ) (c : Client) → (surface_configure d serial c).running ≡ c.running
  unfolding surface_configure
  surface_configure-running serial c =
      let c2 = create_egl_window d (act (acked serial) c) in
      ground (arith, create_egl_window-running (act (acked serial) c), start_drawing-running c2)

  handle-stopped : (e : Event) (c : Client) → c.running ≡ false → (handle d e c).running ≡ false
  unfolding handle toplevel_configure
  handle-stopped (configures serial) c h = surface_configure-running serial c ∙ h
  handle-stopped (configures_toplevel w h) c s = ground arith
  handle-stopped closes c h = refl

  handle_all-stopped :
      (es : List Event) (c : Client) → c.running ≡ false → (handle_all d es c).running ≡ false
  unfolding handle_all
  handle_all-stopped [] c h = h
  handle_all-stopped (e ∷ es) c h = handle_all-stopped es _ (handle-stopped e c h)

  handle_all-closes :
      (es : List Event) (c : Client) → has_close es ≡ true → (handle_all d es c).running ≡ false
  unfolding has_close handle_all handle
  handle_all-closes [] c h = cc
  handle_all-closes (closes ∷ es) c h = handle_all-stopped es _ refl
  handle_all-closes (configures serial ∷ es) c h = handle_all-closes es _ h
  handle_all-closes (configures_toplevel x y ∷ es) c h = handle_all-closes es _ h

  handle-surface :
      (e : Event) (c : Client) → c.has_surface ≡ true → (handle d e c).has_surface ≡ true
  unfolding handle surface_configure toplevel_configure
  handle-surface (configures serial) c h = ground arith
  handle-surface (configures_toplevel x y) c h = ground arith
  handle-surface closes c h = h

  handle_all-surface :
      (es : List Event) (c : Client) → c.has_surface ≡ true → (handle_all d es c).has_surface ≡ true
  unfolding handle_all
  handle_all-surface [] c h = h
  handle_all-surface (e ∷ es) c h = handle_all-surface es _ (handle-surface e c h)

  render_round-closes :
      (round : Round) (r : Rendering)
      → has_close r.queued ≡ true
      → (render_round d round r).client.running ≡ false
  unfolding render_round count_frame
  render_round-closes round r h = ground (arith, handle_all-closes r.queued r.client h)

  -- A round with an EGL surface keeps it, and queues what drawing brings.
  render_round-draws :
      (round : Round) (r : Rendering)
      → r.client.has_surface ≡ true
      → ((render_round d round r).client.has_surface ≡ true)
        × ((render_round d round r).queued ≡ round.events)
  unfolding render_round count_frame
  render_round-draws round r h =
      let shown = handle_all-surface r.queued r.client h in
      if-split (λ (r' : Rendering). (r'.client.has_surface ≡ true) × (r'.queued ≡ round.events))
        (handle_all d r.queued r.client).has_surface
        (λ _.
          if-keeps (λ (r' : Rendering). (r'.client.has_surface ≡ true) × (r'.queued ≡ round.events))
            (leb 5_000_000 (round.now - r.last_fps_time)) (shown, refl) (shown, refl))
        (λ hidden. cc)

  pub render_loop-stopped :
      (fuel : ℕ) (rounds : ℕ → Round) (i : ℕ) (r : Rendering)
      → r.client.running ≡ false
      → render_loop d (suc fuel) rounds i r ≡ some r
  unfolding render_loop
  render_loop-stopped fuel rounds i r h = ground arith

  pub render_loop-goes :
      (fuel : ℕ) (rounds : ℕ → Round) (i : ℕ) (r : Rendering)
      → r.client.running ≡ true
      → render_loop d (suc fuel) rounds i r
        ≡ render_loop d fuel rounds (i + 1) (render_round d (rounds i) r)
  unfolding render_loop
  render_loop-goes fuel rounds i r h = ground arith

  -- A round without a surface and without events does nothing.
  render_round-idle :
      (round : Round) (r : Rendering)
      → r.client.has_surface ≡ false
      → r.queued ≡ []
      → render_round d round r ≡ r
  unfolding render_round handle_all
  render_round-idle round r s q = ground arith

  -- What was read is handled in the round that follows.
  queued_close-ends :
      (fuel : ℕ) (rounds : ℕ → Round) (i : ℕ) (r : Rendering)
      → has_close r.queued ≡ true
      → 2 ≤ fuel
      → (r' : Rendering) × (render_loop d fuel rounds i r ≡ some r') × (r'.client.running ≡ false)
  queued_close-ends zero rounds i r h f = absurd (omega arith)
  queued_close-ends (suc zero) rounds i r h f = absurd (omega arith)
  queued_close-ends (suc (suc fuel)) rounds i r h f = elim (Bool-cases r.client.running) [
    | inl e ↦
        let r1 = render_round d (rounds i) r in
        let stops = render_round-closes (rounds i) r h in
        (
          r1,
          render_loop-goes (suc fuel) rounds i r e
              ∙ render_loop-stopped fuel rounds (i + 1) r1 stops,
          stops,
        )
    | inr e ↦ (r, render_loop-stopped (suc fuel) rounds i r e, e)
  ]

  -- Whatever EGL and OpenGL answer to a client that has its EGL surface: if drawing reads the
  -- compositor's request to close in the n-th round from now, the render loop ends within n + 2
  -- rounds, with the client stopped.
  pub render_loop-ends :
      (n fuel : ℕ) (rounds : ℕ → Round) (i : ℕ) (r : Rendering)
      → r.client.has_surface ≡ true
      → has_close (rounds (i + n)).events ≡ true
      → n + 3 ≤ fuel
      → (r' : Rendering) × (render_loop d fuel rounds i r ≡ some r') × (r'.client.running ≡ false)
  render_loop-ends n zero rounds i r s h f = absurd (omega arith)
  render_loop-ends zero (suc fuel) rounds i r s h f = elim (Bool-cases r.client.running) [
    | inr e ↦ (r, render_loop-stopped fuel rounds i r e, e)
    | inl e ↦
        let r1 = render_round d (rounds i) r in
        let draws = render_round-draws (rounds i) r s in
        let (r', ends, stops) =
          queued_close-ends fuel rounds (i + 1) r1 (ground (arith, draws.1)) (omega arith) in
        (r', render_loop-goes fuel rounds i r e ∙ ends, stops)
  ]
  render_loop-ends (suc n) (suc fuel) rounds i r s h f = elim (Bool-cases r.client.running) [
    | inr e ↦ (r, render_loop-stopped fuel rounds i r e, e)
    | inl e ↦
        let r1 = render_round d (rounds i) r in
        let draws = render_round-draws (rounds i) r s in
        let (r', ends, stops) =
          render_loop-ends n fuel rounds (i + 1) r1 draws.0 (ground arith) (omega arith) in
        (r', render_loop-goes fuel rounds i r e ∙ ends, stops)
  ]

  -- Without an EGL surface nothing is drawn, and then nothing is read from the socket: once what was
  -- read is handled, a client without a surface that is not stopped stays in its render loop for
  -- ever, whatever the compositor sends.
  pub render_loop-stuck :
      (fuel : ℕ) (rounds : ℕ → Round) (i : ℕ) (r : Rendering)
      → r.client.running ≡ true
      → r.client.has_surface ≡ false
      → r.queued ≡ []
      → render_loop d fuel rounds i r ≡ none
  unfolding render_loop render_round handle_all
  render_loop-stuck zero rounds i r g s q = refl
  render_loop-stuck (suc fuel) rounds i r g s q =
      let same : render_round d (rounds i) r ≡ r = render_round-idle (rounds i) r s q in
      render_loop-goes fuel rounds i r g ∙ rw same (render_loop-stuck fuel rounds (i + 1) r g s q)
