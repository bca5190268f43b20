-- ===== src/TestClient/Sizes.antt =====
-- The size of the test client's window, and the compositor's part in it.
use playos_compositor.Base.{
  ℕ, ◌≡◌, ◌<◌, true, false, Option, none, some, List, [], ◌∷◌, arith, refl, ◌∙◌,
}
use playos_compositor.Compositor.{Compositor, Track, Os, set_size}
use playos_compositor.Toplevels.{
  Commit, find_track, toplevel_commit, commit_track, configure_or_count,
}
use playos_compositor.TestClient.{
  Client, Driver, Event, Act, configures, configures_toplevel, closes, sized, act, acked, fresh,
  compile_shader, link_program, link_or_free, init_shaders, window_surface, create_egl_window,
  start_drawing, surface_configure, toplevel_configure, handle, handle_all, init_egl, initialize,
  bind_api, choose_config, create_context, handle_global, handle_globals, create, display, made,
  registry,
}
use playos_compositor.Machine.Rule.{if-keeps}
use playos_compositor.TestClient.Session.{set_up, create_surface}

-- The size that the window was last given.
unfoldable pub window_size : List Act → Option (ℕ × ℕ)
window_size [] = none
window_size (sized w h ∷ acts) = some (w, h)
window_size (_ ∷ acts) = window_size acts

-- A window has the size that the client keeps.
pub record SizeInv (c : Client) : Type 0 where
  pub same_size : c.has_window ≡ true → window_size c.acts ≡ some (c.width, c.height)

-- What leaves the window alone.
record Same (c c' : Client) : Type 0 where
  window_kept : c'.has_window ≡ c.has_window
  size_kept : window_size c'.acts ≡ window_size c.acts
  width_kept : c'.width ≡ c.width
  height_kept : c'.height ≡ c.height

Same-SizeInv : {c c' : Client} → Same c c' → SizeInv c → SizeInv c'
Same-SizeInv s h = ground (arith, h.same_size)

module _ (d : Driver) where
  init_shaders-Same : (c : Client) → Same c (init_shaders d c)
  unfolding init_shaders compile_shader link_program link_or_free window_size
  init_shaders-Same c = ground arith

  start_drawing-SizeInv : (c : Client) → SizeInv c → SizeInv (start_drawing d c)
  unfolding start_drawing window_size init_shaders compile_shader link_program link_or_free
  start_drawing-SizeInv c h = ground arith

  create_egl_window-SizeInv : (c : Client) → SizeInv (create_egl_window d c)
  unfolding create_egl_window window_surface window_size
  create_egl_window-SizeInv c = ground arith

  surface_configure-SizeInv :
      (serial : ℕ) (c : Client) → SizeInv c → SizeInv (surface_configure d serial c)
  unfolding surface_configure window_size
  surface_configure-SizeInv serial c h =
      let c1 = act (acked serial) c in
      let made_window = create_egl_window-SizeInv c1 in
      if-keeps SizeInv c.has_surface (record { same_size = h.same_size })
        (if-keeps SizeInv (create_egl_window d c1).has_surface
          (start_drawing-SizeInv (create_egl_window d c1) made_window) made_window)

  handle-SizeInv : (e : Event) (c : Client) → SizeInv c → SizeInv (handle d e c)
  unfolding handle toplevel_configure window_size
  handle-SizeInv (configures serial) c h = surface_configure-SizeInv serial c h
  handle-SizeInv (configures_toplevel x y) c h = ground (arith, h.same_size)
  handle-SizeInv closes c h = record { same_size = h.same_size }

  handle_all-SizeInv : (es : List Event) (c : Client) → SizeInv c → SizeInv (handle_all d es c)
  unfolding handle_all
  handle_all-SizeInv [] c h = h
  handle_all-SizeInv (e ∷ es) c h = handle_all-SizeInv es _ (handle-SizeInv e c h)

  handle_globals-window :
      (is : List (List ℕ)) (c : Client) → (handle_globals d is c).has_window ≡ c.has_window
  unfolding handle_globals handle_global
  handle_globals-window [] c = refl
  handle_globals-window (i ∷ is) c = handle_globals-window is (handle_global d i c) ∙ ground arith

  init_egl-window : (c : Client) → (init_egl d c).1.has_window ≡ c.has_window
  unfolding init_egl initialize bind_api choose_config create_context
  init_egl-window c = ground arith

  set_up-SizeInv :
      (globals : List (List ℕ)) (es : List Event) (c : Client)
      → set_up d globals es ≡ some c
      → SizeInv c
  unfolding set_up create_surface
  set_up-SizeInv globals es c h =
      let c1 = handle_globals d globals (act (made registry) (create d display fresh).1) in
      let c2 = (init_egl d c1).1 in
      let no_window : c2.has_window ≡ false =
        init_egl-window c1 ∙ handle_globals-window globals _ in
      let started : SizeInv (create_surface c2) = record { same_size = λ w. ground arith } in
      let all = handle_all-SizeInv es (create_surface c2) started in ground arith

toplevel_commit_initial :
    (os : Os) (c : Compositor) (tree : ℕ) (x : Track) (e : Commit)
    → find_track tree c.toplevels ≡ some x
    → e.is_toplevel ≡ true
    → e.initial_commit ≡ true
    → e.has_buffer ≡ false
    → toplevel_commit os c tree e
      ≡ record c { calls = set_size x.tree c.output.width c.output.height ∷ c.calls }
unfolding toplevel_commit commit_track configure_or_count
toplevel_commit_initial os c tree x e q t i b = ground arith

module _ (d : Driver) where
  surface_configure-sizes :
      (serial : ℕ) (c : Client)
      → ((surface_configure d serial c).width ≡ c.width)
        × ((surface_configure d serial c).height ≡ c.height)
  unfolding surface_configure create_egl_window window_surface start_drawing init_shaders
      compile_shader link_program link_or_free
  surface_configure-sizes serial c = (ground arith, ground arith)

  configured-sizes :
      (w h serial : ℕ) (c : Client)
      → 0 < w
      → 0 < h
      → let c' = handle_all d (configures_toplevel w h ∷ configures serial ∷ []) c in
        (c'.width ≡ w) × (c'.height ≡ h)
  unfolding handle_all handle toplevel_configure
  configured-sizes w h serial c p q =
      let s = surface_configure-sizes serial (toplevel_configure w h c) in
      (s.0 ∙ ground arith, s.1 ∙ ground arith)

  -- The test client fills the compositor's output. On the initial commit of a tracked toplevel, which
  -- has no buffer, the compositor sets the size of its output, and changes nothing of its state but
  -- the calls that were made. When a client
  -- that is set up, whatever came before and whatever EGL answered, is configured with that size,
  -- which is not empty, and has a window then, the window has the size of the output.
  pub window-fills_output :
      (os : Os) (c : Compositor) (tree : ℕ) (x : Track) (e : Commit) (globals : List (List ℕ))
      (es : List Event) (cl : Client) (serial : ℕ)
      → find_track tree c.toplevels ≡ some x
      → e.is_toplevel ≡ true
      → e.initial_commit ≡ true
      → e.has_buffer ≡ false
      → set_up d globals es ≡ some cl
      → 0 < c.output.width
      → 0 < c.output.height
      → (handle_all d
          (configures_toplevel c.output.width c.output.height ∷ configures serial ∷ [])
          cl).has_window
        ≡ true
      → (toplevel_commit os c tree e
          ≡ record c { calls = set_size x.tree c.output.width c.output.height ∷ c.calls })
        × (window_size
              (handle_all d
                (configures_toplevel c.output.width c.output.height ∷ configures serial ∷ [])
                cl).acts
            ≡ some (c.output.width, c.output.height))
  window-fills_output os c tree x e globals es cl serial q t i b ready p r win =
      let events = configures_toplevel c.output.width c.output.height ∷ configures serial ∷ [] in
      let inv = handle_all-SizeInv d events cl (set_up-SizeInv d globals es cl ready) in
      let sizes = configured-sizes c.output.width c.output.height serial cl p r in
      (toplevel_commit_initial os c tree x e q t i b, ground (arith, inv.same_size win))
