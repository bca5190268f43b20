-- ===== src/TestClient/Resources/Exit.antt =====
-- The test client from its start to its exit.
use playos_compositor.Base.{
  ℕ, ◌+◌, ◌≡◌, ◌≢◌, ◌≤◌, Bool, true, false, ◌&&◌, some, List, [], ◌∷◌, arith, refl, subst, ◌==◌,
  codes, str_eq,
}
use playos_compositor.TestClient.{
  Resource, display, registry, compositor, wm_base, surface, xdg_surface, xdg_toplevel, egl_display,
  egl_context, window, egl_surface, program, Act, made, freed, Step, link, egl_choose_config,
  egl_bind_api, egl_initialize, act, create, try, Client, Driver, Event, handle_global,
  handle_globals, init_egl, initialize, bind_api, choose_config, create_context, handle_all, fresh,
  free_if,
}
use playos_compositor.TestClient.Session.{
  Round, Rendering, render_loop, create_surface, set_up, clean_egl, clean_up,
}
use playos_compositor.TestClient.Resources.{
  tag, bit, made_count, freed_count, held, Tidy, handle_all-Tidy, render_loop-Tidy,
}

-- How often an interface is announced.
unfoldable pub occurs : List ℕ → List (List ℕ) → ℕ
occurs name [] = 0
occurs name (i ∷ is) = bit (str_eq i name) + occurs name is

-- Before EGL: the connection, the registry and the globals that are bound.
record Early (t : ℕ) (c : Client) : Type 0 where
  early :
      made_count t c.acts
      ≡ freed_count t c.acts
        + bit (0 == t)
        + bit (1 == t)
        + bit (5 == t && c.has_compositor)
        + bit (6 == t && c.has_wm_base)
  no_window : c.has_window ≡ false
  no_surface : c.has_surface ≡ false
  no_program : c.has_program ≡ false

-- A client with a configuration and a context, that has made `n` more objects of a kind.
record Grown (t n : ℕ) (shown : Bool) (c : Client) (c' : Client) : Type 0 where
  made_more : made_count t c'.acts ≡ made_count t c.acts + n
  freed_same : freed_count t c'.acts ≡ freed_count t c.acts
  displayed : c'.has_display ≡ shown
  with_config : c'.has_config ≡ true
  with_context : c'.has_context ≡ true
  compositor_same : c'.has_compositor ≡ c.has_compositor
  wm_base_same : c'.has_wm_base ≡ c.has_wm_base
  window_same : c'.has_window ≡ c.has_window
  surface_same : c'.has_surface ≡ c.has_surface
  program_same : c'.has_program ≡ c.has_program

-- An answered step adds no object.
Grown-try :
    (d : Driver) (s : Step) (t n : ℕ) (shown : Bool) (c c' : Client)
    → Grown t n shown (try d s c).1 c'
    → Grown t n shown c c'
unfolding made_count freed_count
Grown-try d s t n shown c c' g = ground (arith, g.made_more, g.freed_same)

module _ (d : Driver) where
  handle_global-Early :
      (t : ℕ) (i : List ℕ) (c : Client)
      → bit (str_eq i (codes "wl_compositor")) + bit c.has_compositor ≤ 1
      → bit (str_eq i (codes "xdg_wm_base")) + bit c.has_wm_base ≤ 1
      → Early t c
      → Early t (handle_global d i c)
        × (bit (handle_global d i c).has_compositor
            ≤ bit (str_eq i (codes "wl_compositor")) + bit c.has_compositor)
        × (bit (handle_global d i c).has_wm_base
            ≤ bit (str_eq i (codes "xdg_wm_base")) + bit c.has_wm_base)
  unfolding handle_global made_count freed_count
  handle_global-Early t i c p q h =
      (ground (arith, h.early, h.no_window, h.no_surface, h.no_program), ground arith, ground arith)

  handle_globals-Early :
      (t : ℕ) (is : List (List ℕ)) (c : Client)
      → occurs (codes "wl_compositor") is + bit c.has_compositor ≤ 1
      → occurs (codes "xdg_wm_base") is + bit c.has_wm_base ≤ 1
      → Early t c
      → Early t (handle_globals d is c)
  unfolding handle_globals occurs
  handle_globals-Early t [] c p q h = h
  handle_globals-Early t (i ∷ is) c p q h =
      let (h', p', q') = handle_global-Early t i c (omega arith) (omega arith) h in
      handle_globals-Early t is (handle_global d i c) (omega arith) (omega arith) h'

  -- The steps of init_egl that succeed, the last first.
  create_context-Grown :
      (t : ℕ) (b : Bool) (c : Client)
      → (create_context d (b, c)).0 ≡ true
      → Grown t (bit (8 == t)) c.has_display c (create_context d (b, c)).1
  unfolding create_context made_count freed_count
  create_context-Grown t false c h = cc
  create_context-Grown t true c h = ground arith

  choose_config-Grown :
      (t : ℕ) (b : Bool) (c : Client)
      → (choose_config d (b, c)).0 ≡ true
      → Grown t (bit (8 == t)) c.has_display c (choose_config d (b, c)).1
  unfolding choose_config made_count freed_count
  choose_config-Grown t false c h = cc
  choose_config-Grown t true c h =
      Grown-try d egl_choose_config t _ _ c _
        (create_context-Grown t _ (try d egl_choose_config c).1 h)

  bind_api-Grown :
      (t : ℕ) (b : Bool) (c : Client)
      → (bind_api d (b, c)).0 ≡ true
      → Grown t (bit (8 == t)) c.has_display c (bind_api d (b, c)).1
  unfolding bind_api
  bind_api-Grown t false c h = cc
  bind_api-Grown t true c h =
      Grown-try d egl_bind_api t _ _ c _ (choose_config-Grown t _ (try d egl_bind_api c).1 h)

  initialize-Grown :
      (t : ℕ) (b : Bool) (c : Client)
      → (initialize d (b, c)).0 ≡ true
      → Grown t (bit (8 == t)) true (record c { has_display = true }) (initialize d (b, c)).1
  unfolding initialize
  initialize-Grown t false c h = cc
  initialize-Grown t true c h =
      let c1 : Client = record c { has_display = true } in
      Grown-try d egl_initialize t _ _ c1 _ (bind_api-Grown t _ (try d egl_initialize c1).1 h)

  initialize-granted : (b : Bool) (c : Client) → (initialize d (b, c)).0 ≡ true → b ≡ true
  unfolding initialize
  initialize-granted false c h = cc
  initialize-granted true c h = refl

  init_egl-Grown :
      (t : ℕ) (c : Client)
      → (init_egl d c).0 ≡ true
      → Grown t (bit (7 == t) + bit (8 == t)) true c (init_egl d c).1
  unfolding init_egl made_count freed_count
  init_egl-Grown t c e =
      let granted = initialize-granted _ _ e in
      let g = initialize-Grown t _ (create d egl_display c).1 e in
      ground (arith, granted, g.made_more, g.freed_same)

create_surface-Tidy :
    (t : ℕ) (c c' : Client)
    → Early t c
    → Grown t (bit (7 == t) + bit (8 == t)) true c c'
    → Tidy t (create_surface c')
unfolding create_surface made_count freed_count held
create_surface-Tidy t c c' h g =
    ground (arith, h.early, h.no_window, h.no_surface, h.no_program, g.made_more, g.freed_same)

free_if-freed :
    (t : ℕ) (b : Bool) (r : Resource) (c : Client)
    → freed_count t (free_if b r c).acts ≡ bit (tag r == t && b) + freed_count t c.acts
unfolding free_if freed_count
free_if-freed t b r c = ground arith

free_if-made :
    (t : ℕ) (b : Bool) (r : Resource) (c : Client)
    → made_count t (free_if b r c).acts ≡ made_count t c.acts
unfolding free_if made_count
free_if-made t b r c = ground arith

clean_egl-counts :
    (t : ℕ) (b : Bool) (c : Client)
    → b ≡ true
    → (freed_count t (clean_egl b c).acts
        ≡ bit (7 == t)
          + bit (8 == t && c.has_context)
          + bit (10 == t && c.has_surface)
          + freed_count t c.acts)
      × (made_count t (clean_egl b c).acts ≡ made_count t c.acts)
unfolding clean_egl freed_count made_count
clean_egl-counts t false c e = cc
clean_egl-counts t true c e =
    let c1 = free_if c.has_surface egl_surface c in
    (
      omega (
        arith,
        free_if-freed t c.has_surface egl_surface c,
        free_if-freed t c.has_context egl_context c1,
      ),
      omega (
        arith,
        free_if-made t c.has_surface egl_surface c,
        free_if-made t c.has_context egl_context c1,
      ),
    )

clean_up-counts :
    (t : ℕ) (c : Client)
    → c.has_display ≡ true
    → (13 == t) ≡ false
    → (freed_count t (clean_up c).acts ≡ held t c + freed_count t c.acts)
      × (made_count t (clean_up c).acts ≡ made_count t c.acts)
unfolding clean_up freed_count made_count held
clean_up-counts t c s n =
    let c0 = clean_egl c.has_display c in
    let c1 = free_if c.has_window window c0 in
    let c2 = act (freed surface) (act (freed xdg_surface) (act (freed xdg_toplevel) c1)) in
    let c3 = free_if c.has_wm_base wm_base c2 in
    let no_program : bit (13 == t && c.has_program) ≡ 0 = rw n refl in
    let shown : bit (7 == t && c.has_display) ≡ bit (7 == t) = ground arith in
    let egl = clean_egl-counts t c.has_display c s in
    (
      omega (
        arith,
        egl.0,
        free_if-freed t c.has_window window c0,
        free_if-freed t c.has_wm_base wm_base c2,
        free_if-freed t c.has_compositor compositor c3,
      ),
      omega (
        arith,
        egl.1,
        free_if-made t c.has_window window c0,
        free_if-made t c.has_wm_base wm_base c2,
        free_if-made t c.has_compositor compositor c3,
      ),
    )

connected-Early :
    (d : Driver) (t : ℕ)
    → d.grants [] display ≡ true
    → Early t (act (made registry) (create d display fresh).1)
unfolding made_count freed_count
connected-Early d t e = ground arith

set_up-Tidy :
    (d : Driver) (granted : (acts : List Act) → d.grants acts egl_surface ≡ true)
    (linked : (acts : List Act) → d.allows acts link ≡ true) (t : ℕ) (globals : List (List ℕ))
    (es : List Event) (c : Client)
    → occurs (codes "wl_compositor") globals ≤ 1
    → occurs (codes "xdg_wm_base") globals ≤ 1
    → set_up d globals es ≡ some c
    → Tidy t c
unfolding set_up
set_up-Tidy d granted linked t globals es c p q ready =
    let c0 = act (made registry) (create d display fresh).1 in
    let c1 = handle_globals d globals c0 in
    let connected : d.grants [] display ≡ true = ground arith in
    let initialised : (init_egl d c1).0 ≡ true = ground arith in
    let early =
      handle_globals-Early d t globals c0 (omega arith) (omega arith)
        (connected-Early d t connected) in
    let drawn =
      create_surface-Tidy t c1 (init_egl d c1).1 early (init_egl-Grown d t c1 initialised) in
    let all = handle_all-Tidy d granted linked t es (create_surface (init_egl d c1).1) drawn in
    let same : handle_all d es (create_surface (init_egl d c1).1) ≡ c = ground arith in
    subst (Tidy t) same all

tag-ne-program : (kind : Resource) → kind ≢ program → (13 == tag kind) ≡ false
tag-ne-program program h = absurd (h refl)
tag-ne-program _ h = refl

-- The test client loses nothing: where the window's EGL surface and the linked program are never
-- refused and each of the two globals is announced once at most, a client that comes to the end of
-- its render loop, after any rounds of events and whatever else EGL and OpenGL answered, has at its
-- exit given back as many objects of every kind as it has made. The program, which goes with its
-- context, is left out.
pub main-balanced :
    (d : Driver) (granted : (acts : List Act) → d.grants acts egl_surface ≡ true)
    (linked : (acts : List Act) → d.allows acts link ≡ true) (globals : List (List ℕ))
    (es queued : List Event) (c : Client) (fuel start : ℕ) (rounds : ℕ → Round) (r : Rendering)
    (kind : Resource)
    → occurs (codes "wl_compositor") globals ≤ 1
    → occurs (codes "xdg_wm_base") globals ≤ 1
    → set_up d globals es ≡ some c
    → render_loop d fuel rounds 0
        (record { client = c; queued = queued; frame_count = 0; last_fps_time = start })
      ≡ some r
    → kind ≢ program
    → made_count (tag kind) (clean_up r.client).acts
      ≡ freed_count (tag kind) (clean_up r.client).acts
main-balanced d granted linked globals es queued c fuel start rounds r kind p q ready ends other =
    let t = tag kind in
    let first : Rendering = record {
      client = c;
      queued = queued;
      frame_count = 0;
      last_fps_time = start;
    } in
    let tidy =
      render_loop-Tidy d granted linked t fuel rounds 0 first r ends
        (set_up-Tidy d granted linked t globals es c p q ready) in
    let shown : r.client.has_display ≡ true = ground (arith, tidy.configured) in
    let counts = clean_up-counts t r.client shown (tag-ne-program kind other) in
    omega (arith, counts.0, counts.1, tidy.balanced)
