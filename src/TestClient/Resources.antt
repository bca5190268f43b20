-- ===== src/TestClient/Resources.antt =====
-- What the test client creates it gives back.
pub mod Exit
use playos_compositor.Base.{
  ℕ, zero, suc, ◌+◌, ◌≡◌, ◌≢◌, ◌≤◌, Bool, true, false, not, ◌&&◌, Option, none, some, List, [], ◌∷◌,
  arith, refl, sym, ap, subst, ◌∙◌, Bool-cases, inl, inr, if◌then◌else◌, ◌==◌, codes, str_eq, ltb,
  leb, ◌-◌,
}
use playos_compositor.TestClient.{
  Resource, display, registry, compositor, wm_base, surface, xdg_surface, xdg_toplevel, egl_display,
  egl_context, window, egl_surface, vertex_shader, fragment_shader, program, Act, made, refused,
  freed, Step, compiles, link, make_current, titled, sized, viewport, drew, act, acked, create, try,
  Client, Driver, Event, configures, configures_toplevel, closes, handle_global, handle_globals,
  init_egl, initialize, bind_api, choose_config, create_context, compile_shader, link_program,
  link_or_free, init_shaders, window_surface, create_egl_window, start_drawing, surface_configure,
  toplevel_configure, handle, handle_all, fresh, free_if,
}
use playos_compositor.TestClient.Session.{
  Round, Rendering, count_frame, render_round, render_loop, create_surface, set_up, clean_up,
}
use playos_compositor.Machine.Rule.{if-keeps, if-split}
use playos_compositor.TestClient.Ends.{render_loop-goes, render_loop-stopped}

-- A number for each kind of object.
abbrev pub tag : Resource → ℕ
tag display = 0
tag registry = 1
tag surface = 2
tag xdg_surface = 3
tag xdg_toplevel = 4
tag compositor = 5
tag wm_base = 6
tag egl_display = 7
tag egl_context = 8
tag window = 9
tag egl_surface = 10
tag vertex_shader = 11
tag fragment_shader = 12
tag program = 13

abbrev pub bit : Bool → ℕ
bit true = 1
bit false = 0

-- How many objects of a kind were made, and how many given back.
unfoldable pub made_count : ℕ → List Act → ℕ
made_count t [] = 0
made_count t (made r ∷ acts) = bit (tag r == t) + made_count t acts
made_count t (_ ∷ acts) = made_count t acts

unfoldable pub freed_count : ℕ → List Act → ℕ
freed_count t [] = 0
freed_count t (freed r ∷ acts) = bit (tag r == t) + freed_count t acts
freed_count t (_ ∷ acts) = freed_count t acts

-- The objects of a kind that the client's pointers hold while it draws.
unfoldable pub held : ℕ → Client → ℕ
held t c =
    bit (0 == t)
    + bit (1 == t)
    + bit (2 == t)
    + bit (3 == t)
    + bit (4 == t)
    + bit (5 == t && c.has_compositor)
    + bit (6 == t && c.has_wm_base)
    + bit (7 == t && c.has_display)
    + bit (8 == t && c.has_context)
    + bit (9 == t && c.has_window)
    + bit (10 == t && c.has_surface)
    + bit (13 == t && c.has_program)

-- Nothing is lost: each object that was made was given back or is held. A window has a surface, and
-- only a client with a surface has a program. EGL stays initialised.
pub record Tidy (t : ℕ) (c : Client) : Type 0 where
  pub balanced : made_count t c.acts ≡ freed_count t c.acts + held t c
  pub configured : (c.has_display && c.has_config) ≡ true
  pub surfaced : c.has_window ≡ c.has_surface
  pub programmed : c.has_program ≡ true → c.has_surface ≡ true

-- What it depends on.
abbrev view : ℕ → Client → ℕ × ℕ × ℕ × Bool × Bool × Bool × Bool
view t c = (
  made_count t c.acts,
  freed_count t c.acts,
  held t c,
  (c.has_display && c.has_config),
  c.has_window,
  c.has_surface,
  c.has_program,
)

Tidy-view : (t : ℕ) (c c' : Client) → view t c' ≡ view t c → Tidy t c → Tidy t c'
Tidy-view t c c' e h = ground (arith, h.balanced, h.configured, h.surfaced, h.programmed)

-- A compiled shader is one more object; one that does not compile is given back.
record Compiled (t : ℕ) (k : Resource) (c : Client) (r : Bool × Client) : Type 0 where
  made_more : made_count t r.1.acts ≡ made_count t c.acts + bit (tag k == t)
  freed_more : freed_count t r.1.acts ≡ freed_count t c.acts + (if r.0 then 0 else bit (tag k == t))
  held_same : held t r.1 ≡ held t c
  config_same : (r.1.has_display && r.1.has_config) ≡ (c.has_display && c.has_config)
  window_same : r.1.has_window ≡ c.has_window
  surface_same : r.1.has_surface ≡ c.has_surface
  program_same : r.1.has_program ≡ c.has_program

compile_shader-Compiled :
    (d : Driver) (t : ℕ) (k : Resource) (c : Client) → Compiled t k c (compile_shader d k c)
unfolding compile_shader made_count freed_count held
compile_shader-Compiled d t k c = elim (Bool-cases (d.allows (made k ∷ c.acts) (compiles k))) [
  | inl e ↦ rw (e, compile_shader) (ground arith)
  | inr e ↦ rw (e, compile_shader) (ground arith)
]

module _ (d : Driver) (granted : (acts : List Act) → d.grants acts egl_surface ≡ true)
    (linked : (acts : List Act) → d.allows acts link ≡ true) where
  create_egl_window-Tidy :
      (t : ℕ) (c : Client) → c.has_surface ≡ false → Tidy t c → Tidy t (create_egl_window d c)
  unfolding create_egl_window window_surface made_count freed_count held
  create_egl_window-Tidy t c n h =
      ground
        (arith, granted (sized c.width c.height ∷ made window ∷ c.acts), h.balanced, h.configured)

  link_program-Tidy :
      (t : ℕ) (c : Client)
      → c.has_program ≡ false
      → c.has_surface ≡ true
      → made_count t c.acts ≡ freed_count t c.acts + held t c + bit (11 == t) + bit (12 == t)
      → (c.has_display && c.has_config) ≡ true
      → c.has_window ≡ c.has_surface
      → Tidy t (link_program d c)
  unfolding link_program made_count freed_count held
  link_program-Tidy t c n s b k w = ground (arith, linked (made program ∷ c.acts))

  link_or_free-Tidy :
      (t : ℕ) (vs fs : Bool) (c : Client)
      → c.has_program ≡ false
      → c.has_surface ≡ true
      → made_count t c.acts
        ≡ freed_count t c.acts
          + held t c
          + (if vs then bit (11 == t) else 0)
          + (if fs then bit (12 == t) else 0)
      → (c.has_display && c.has_config) ≡ true
      → c.has_window ≡ c.has_surface
      → Tidy t (link_or_free d vs fs c)
  unfolding link_or_free made_count freed_count held
  link_or_free-Tidy t true true c n s b k w = link_program-Tidy t c n s b k w
  link_or_free-Tidy t true false c n s b k w = ground arith
  link_or_free-Tidy t false true c n s b k w = ground arith
  link_or_free-Tidy t false false c n s b k w = ground arith

  init_shaders-Tidy :
      (t : ℕ) (c : Client)
      → c.has_program ≡ false
      → c.has_surface ≡ true
      → Tidy t c
      → Tidy t (init_shaders d c)
  unfolding init_shaders
  init_shaders-Tidy t c n s h =
      let (vs, c1) = compile_shader d vertex_shader c in
      let (fs, c2) = compile_shader d fragment_shader c1 in
      let f = compile_shader-Compiled d t vertex_shader c in
      let g = compile_shader-Compiled d t fragment_shader c1 in
      link_or_free-Tidy t vs fs c2 (g.program_same ∙ f.program_same ∙ n)
        (g.surface_same ∙ f.surface_same ∙ s)
        (ground (
          arith, f.made_more, f.freed_more, f.held_same, g.made_more, g.freed_more, g.held_same,
          h.balanced,
        ))
        (g.config_same ∙ f.config_same ∙ h.configured)
        (g.window_same ∙ f.window_same ∙ h.surfaced ∙ sym (g.surface_same ∙ f.surface_same))

  start_drawing-Tidy :
      (t : ℕ) (c : Client)
      → c.has_program ≡ false
      → c.has_surface ≡ true
      → Tidy t c
      → Tidy t (start_drawing d c)
  unfolding start_drawing made_count freed_count held
  start_drawing-Tidy t c n s h =
      let tried = (try d make_current c).1 in
      let h1 : Tidy t tried = ground (arith, h.balanced, h.configured, h.surfaced, h.programmed) in
      let h2 = init_shaders-Tidy t tried n s h1 in Tidy-view t _ _ refl h2

  create_egl_window-program : (c : Client) → (create_egl_window d c).has_program ≡ c.has_program
  unfolding create_egl_window window_surface
  create_egl_window-program c = ground arith

  surface_configure-Tidy :
      (t serial : ℕ) (c : Client) → Tidy t c → Tidy t (surface_configure d serial c)
  unfolding surface_configure made_count freed_count held
  surface_configure-Tidy t serial c h =
      let c1 = act (acked serial) c in
      let c2 = create_egl_window d c1 in
      let h1 : Tidy t c1 = Tidy-view t _ _ refl h in
      if-split (Tidy t) c.has_surface (λ s. h1)
        (λ s.
          let unprogrammed : c.has_program ≡ false = ground (arith, h.programmed) in
          let h2 = create_egl_window-Tidy t c1 s h1 in
          if-split (Tidy t) c2.has_surface
            (λ s'. start_drawing-Tidy t c2 (create_egl_window-program c1 ∙ unprogrammed) s' h2)
            (λ s'. h2))

  handle-Tidy : (t : ℕ) (e : Event) (c : Client) → Tidy t c → Tidy t (handle d e c)
  unfolding handle toplevel_configure made_count freed_count held
  handle-Tidy t (configures serial) c h = surface_configure-Tidy t serial c h
  handle-Tidy t (configures_toplevel x y) c h =
      let kept = Tidy-view t c (record c { width = x; height = y }) refl h in
      let resized =
        Tidy-view t c (act (viewport x y) (act (sized x y) (record c { width = x; height = y })))
          refl h in
      if-keeps (Tidy t) (ltb 0 x && ltb 0 y) (if-keeps (Tidy t) c.has_window resized kept) h
  handle-Tidy t closes c h = Tidy-view t _ _ refl h

  pub handle_all-Tidy :
      (t : ℕ) (es : List Event) (c : Client) → Tidy t c → Tidy t (handle_all d es c)
  unfolding handle_all
  handle_all-Tidy t [] c h = h
  handle_all-Tidy t (e ∷ es) c h = handle_all-Tidy t es _ (handle-Tidy t e c h)

  render_round-Tidy :
      (t : ℕ) (round : Round) (r : Rendering)
      → Tidy t r.client
      → Tidy t (render_round d round r).client
  unfolding render_round count_frame made_count freed_count held
  render_round-Tidy t round r h =
      let c = handle_all d r.queued r.client in
      let all = handle_all-Tidy t r.queued r.client h in
      let drawn = Tidy-view t c (act drew c) refl all in
      if-keeps (λ (r' : Rendering). Tidy t r'.client) c.has_surface
        (if-keeps (λ (r' : Rendering). Tidy t r'.client)
          (leb 5_000_000 (round.now - r.last_fps_time)) (Tidy-view t c _ refl all) drawn)
        all

  pub render_loop-Tidy :
      (t fuel : ℕ) (rounds : ℕ → Round) (i : ℕ) (r r' : Rendering)
      → render_loop d fuel rounds i r ≡ some r'
      → Tidy t r.client
      → Tidy t r'.client
  unfolding render_loop
  render_loop-Tidy t zero rounds i r r' e h = cc
  render_loop-Tidy t (suc fuel) rounds i r r' e h = elim (Bool-cases r.client.running) [
    | inl go ↦
        render_loop-Tidy t fuel rounds (i + 1) (render_round d (rounds i) r) r'
          (sym (render_loop-goes d fuel rounds i r go) ∙ e) (render_round-Tidy t (rounds i) r h)
    | inr stop ↦
        subst (Tidy t)
          (ap (λ (o : Option Rendering). elim o [ none ↦ r.client | some x ↦ x.client ])
            (sym (render_loop-stopped d fuel rounds i r stop) ∙ e))
          h
  ]
