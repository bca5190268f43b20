-- ===== src/TestClient.antt =====
-- The test client, tools/test-client/src/main.c: a Wayland client that draws with EGL. What the
-- compositor, EGL and OpenGL answer is a parameter; drawing a frame is one act here, and Drawing has
-- its calls.
pub mod Session
pub mod Drawing
pub mod Sizes
pub mod Ends
pub mod Resources
use playos_compositor.Base.{
  ℕ, zero, suc, ◌+◌, ◌-◌, Bool, true, false, not, ◌&&◌, Option, none, some, List, [], ◌∷◌, codes,
  str_eq, take, ltb, leb, ◌==◌, if◌then◌else◌,
}
use playos_compositor.Diagnostics.{printed}

-- The objects that the client creates and has to give back.
pub data Resource : Type 0 where
  display registry compositor wm_base surface xdg_surface xdg_toplevel : Resource
  egl_display egl_context window egl_surface vertex_shader fragment_shader program : Resource

-- What may be refused without an object in return.
pub data Step : Type 0 where
  egl_initialize egl_bind_api egl_choose_config make_current link : Step
  compiles : Resource → Step

-- What the client has done, and what it was answered.
pub data Act : Type 0 where
  made refused freed : Resource → Act
  did failed : Step → Act
  acked : (serial : ℕ) → Act
  sized viewport : (w h : ℕ) → Act
  titled : List ℕ → Act
  committed drew : Act
  counted : (frames : ℕ) → Act

-- Whether a creation and a step succeed, by all acts before; the strings of glGetString.
pub record Driver : Type 0 where
  pub grants : List Act → Resource → Bool
  pub allows : List Act → Step → Bool
  pub vendor : Option (List ℕ)
  pub renderer : Option (List ℕ)
  pub version : Option (List ℕ)

-- The static variables of the file, each pointer by whether it is set; the acts, newest first.
pub record Client : Type 0 where
  pub has_compositor : Bool
  pub has_wm_base : Bool
  pub has_display : Bool
  pub has_config : Bool
  pub has_context : Bool
  pub has_window : Bool
  pub has_surface : Bool
  pub has_program : Bool
  pub running : Bool
  pub width : ℕ
  pub height : ℕ
  pub acts : List Act

abbrev pub fresh : Client
fresh = record {
  has_compositor = false;
  has_wm_base = false;
  has_display = false;
  has_config = false;
  has_context = false;
  has_window = false;
  has_surface = false;
  has_program = false;
  running = true;
  width = 640;
  height = 480;
  acts = [];
}

abbrev pub act : Act → Client → Client
act a c = record c { acts = a ∷ c.acts }

abbrev pub or_unknown : Option (List ℕ) → List ℕ
or_unknown none = codes "?"
or_unknown (some text) = text

-- Giving back an object whose pointer is set.
unfoldable pub free_if : Bool → Resource → Client → Client
free_if held r c = if held then act (freed r) c else c

module _ (d : Driver) where
  abbrev pub create : Resource → Client → Bool × Client
  create r c = let ok = d.grants c.acts r in (ok, act (if ok then made r else refused r) c)

  abbrev pub try : Step → Client → Bool × Client
  try s c = let ok = d.allows c.acts s in (ok, act (if ok then did s else failed s) c)

  -- registry_handle_global.
  unfoldable pub handle_global : List ℕ → Client → Client
  handle_global interface c =
      let (bound, c1) = create compositor c in
      let (based, c2) = create wm_base c in
      if str_eq interface (codes "wl_compositor")
      then record c1 { has_compositor = bound }
      else if str_eq interface (codes "xdg_wm_base")
      then record c2 { has_wm_base = based }
      else c

  unfoldable pub handle_globals : List (List ℕ) → Client → Client
  handle_globals [] c = c
  handle_globals (i ∷ is) c = handle_globals is (handle_global i c)

  -- The rest of init_egl after each step, the last first: whether it returned 0.
  unfoldable pub create_context : Bool × Client → Bool × Client
  create_context (false, c) = (false, c)
  create_context (true, c) =
      let (ok, c') = create egl_context (record c { has_config = true }) in
      (ok, record c' { has_context = ok })

  unfoldable pub choose_config : Bool × Client → Bool × Client
  choose_config (false, c) = (false, c)
  choose_config (true, c) = create_context (try egl_choose_config c)

  unfoldable pub bind_api : Bool × Client → Bool × Client
  bind_api (false, c) = (false, c)
  bind_api (true, c) = choose_config (try egl_bind_api c)

  unfoldable pub initialize : Bool × Client → Bool × Client
  initialize (false, c) = (false, c)
  initialize (true, c) = bind_api (try egl_initialize (record c { has_display = true }))

  -- init_egl.
  unfoldable pub init_egl : Client → Bool × Client
  init_egl c = initialize (create egl_display c)

  -- compile_shader: whether it returned a shader.
  unfoldable pub compile_shader : Resource → Client → Bool × Client
  compile_shader kind c =
      let (ok, c') = try (compiles kind) (act (made kind) c) in
      (ok, if ok then c' else act (freed kind) c')

  -- The program of two shaders: a failed link keeps the shaders.
  unfoldable pub link_program : Client → Client
  link_program c =
      let (ok, c') = try link (act (made program) c) in
      if ok
      then act (freed fragment_shader)
          (act (freed vertex_shader) (record c' { has_program = true }))
      else act (freed program) (record c' { has_program = false })

  -- The end of init_shaders, by which of the two shaders compiled.
  unfoldable pub link_or_free : (vs fs : Bool) → Client → Client
  link_or_free true true c = link_program c
  link_or_free true false c = act (freed vertex_shader) c
  link_or_free false true c = act (freed fragment_shader) c
  link_or_free false false c = c

  -- init_shaders; its result only decides on a line of the log.
  unfoldable pub init_shaders : Client → Client
  init_shaders c =
      let (vs, c1) = compile_shader vertex_shader c in
      let (fs, c2) = compile_shader fragment_shader c1 in link_or_free vs fs c2

  -- create_egl_window.
  unfoldable pub window_surface : Client → Client
  window_surface c =
      let (ok, c') = create egl_surface c in
      if c.has_config then record c' { has_surface = ok } else c

  unfoldable pub create_egl_window : Client → Client
  unfolding window_surface
  create_egl_window c =
      let (ok, c1) = create window c in
      let c2 = record c1 { has_window = ok } in
      if ok then window_surface (act (sized c.width c.height) c2) else c2

  abbrev pub title : List ℕ
  title = take 255 (
      printed (
        codes "PlayOS Sprint 4 | "
        ∷ or_unknown d.vendor
        ∷ codes " | "
        ∷ or_unknown d.renderer
        ∷ codes " | GLES "
        ∷ or_unknown d.version
        ∷ []))

  -- What follows the first surface that is there.
  unfoldable pub start_drawing : Client → Client
  unfolding init_shaders
  start_drawing c = let (current, c') = try make_current c in act (titled title) (init_shaders c')

  -- xdg_surface_handle_configure.
  unfoldable pub surface_configure : (serial : ℕ) → Client → Client
  unfolding create_egl_window start_drawing
  surface_configure serial c =
      let c1 = act (acked serial) c in
      let c2 = create_egl_window c1 in
      if c.has_surface then c1 else if c2.has_surface then start_drawing c2 else c2

-- xdg_toplevel_handle_configure; a size that is not positive is 0.
unfoldable pub toplevel_configure : (w h : ℕ) → Client → Client
toplevel_configure w h c =
    let c1 = record c { width = w; height = h } in
    if ltb 0 w && ltb 0 h
    then if c.has_window then act (viewport w h) (act (sized w h) c1) else c1
    else c

pub data Event : Type 0 where
  configures : (serial : ℕ) → Event
  configures_toplevel : (w h : ℕ) → Event
  closes : Event

unfoldable pub handle : Driver → Event → Client → Client
unfolding surface_configure toplevel_configure
handle d (configures serial) c = surface_configure d serial c
handle d (configures_toplevel w h) c = toplevel_configure w h c
handle d closes c = record c { running = false }

unfoldable pub handle_all : Driver → List Event → Client → Client
unfolding handle
handle_all d [] c = c
handle_all d (e ∷ es) c = handle_all d es (handle d e c)
