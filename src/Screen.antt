-- ===== src/Screen.antt =====
-- A new output: handle_new_output and compositor_configure_output of src/compositor.c.
use playos_compositor.Base.{
  ℕ, Bool, true, false, not, none, some, List, [], ◌∷◌, ◌++◌, if◌then◌else◌,
}
use playos_compositor.Compositor.{Compositor, Output, Backend, headless, wayland, drm, running}
use playos_compositor.Listeners.{Listeners, add_link}
use playos_compositor.Render.{Mode, pick_mode}

-- What wlroots answers for an output: whether a renderer can be attached, whether the custom mode is
-- accepted, its modes, and whether the layout and the scene take it.
pub record NewOutput : Type 0 where
  pub renders : Bool
  pub commits : Bool
  pub modes : List Mode
  pub laid_out : Bool
  pub has_scene : Bool

pub data ScreenCall : Type 0 where
  init_render : ScreenCall
  custom_mode : (width height refresh : ℕ) → ScreenCall
  set_mode : Mode → ScreenCall
  add_to_layout create_scene_output background : ScreenCall
  schedule_frame : ScreenCall

-- The calls that set the mode, and whether the handler goes on; the result of a commit on the DRM
-- backend is not looked at.
unfoldable pub configure_mode : NewOutput → Backend → Output → List ScreenCall × Bool
configure_mode a headless o = (custom_mode 1920 1080 60000 ∷ [], a.commits)
configure_mode a drm o = (elim (pick_mode o a.modes) [ none ↦ [] | some m ↦ set_mode m ∷ [] ], true)
configure_mode a wayland o = ([], true)

-- From the layout on.
unfoldable pub place_output : NewOutput → List ScreenCall × Bool
place_output a =
    if not a.laid_out
    then (add_to_layout ∷ [], false)
    else if not a.has_scene
    then (add_to_layout ∷ create_scene_output ∷ [], false)
    else (add_to_layout ∷ create_scene_output ∷ background ∷ schedule_frame ∷ [], true)

-- The calls of handle_new_output, in their order, and whether it came to its end.
unfoldable pub add_output : NewOutput → Backend → Output → List ScreenCall × Bool
unfolding configure_mode place_output
add_output a k o =
    if not a.renders
    then (init_render ∷ [], false)
    else (let (mode, on) = configure_mode a k o in
        let (placing, done) = place_output a in
        if on then (init_render ∷ (mode ++ placing), done) else (init_render ∷ mode, false))

-- handle_new_output: at its end the two listeners of the output are attached and the compositor is
-- running.
unfoldable pub new_output : Compositor → NewOutput → Compositor
unfolding add_output
new_output c a =
    if (add_output a c.backend_type c.output).1 then record c { state = running } else c

unfoldable pub output_listeners : Compositor → NewOutput → Listeners → Listeners
unfolding add_output
output_listeners c a l =
    if (add_output a c.backend_type c.output).1
    then record l { frame = add_link l.frame; present = add_link l.present }
    else l
