-- ===== src/Scenarios/Client.antt =====
-- The test client, the readiness file and what playos-init is told, at concrete inputs.
use playos_compositor.Base.{
  ℕ, ◌≡◌, refl, Bool, true, false, Option, none, some, List, [], ◌∷◌, ◌*◌, codes, arith, ◌==◌,
  if◌then◌else◌, str_eq,
}
use playos_compositor.Compositor.{Compositor, drm, no_output, game, game_foreground, set_size}
use playos_compositor.Toplevels.{Commit, toplevel_commit}
use playos_compositor.TestClient.{
  Client, Driver, Act, Resource, egl_surface, configures, configures_toplevel, closes, fresh,
  window, handle, handle_all, handle_global, handle_globals, init_egl, initialize, bind_api,
  choose_config, create_context, compile_shader, link_program, link_or_free, init_shaders,
  window_surface, create_egl_window, start_drawing, surface_configure, toplevel_configure,
}
use playos_compositor.TestClient.Session.{
  Round, Rendering, set_up, create_surface, render_loop, render_round, count_frame, clean_up,
}
use playos_compositor.TestClient.Ends.{has_close, render_loop-ends, render_loop-stuck}
use playos_compositor.TestClient.Sizes.{window_size, window-fills_output}
use playos_compositor.TestClient.Resources.{made_count, freed_count}
use playos_compositor.TestClient.Resources.Exit.{occurs, main-balanced}
use playos_compositor.Machine.Announced.{Announced}
use playos_compositor.Machine.Announced.Reached.{reachable-Announced}
use playos_compositor.Machine.Announced.{state_frame}
use playos_compositor.Machine.Messages.{messages, ready_frame, changes, readies}
use playos_compositor.Machine.Messages.Steps.{step-Says}
use playos_compositor.Machine.{commit}
use playos_compositor.Scenarios.{
  everything, keys, working, playing, to_playing, game_mapped, first_frame,
}

reachable-Announced_example : Announced playing
reachable-Announced_example = reachable-Announced keys working drm no_output to_playing

step-Says_example :
    messages playing.calls
    ≡ state_frame game_foreground ∷ ready_frame (codes "t-1") ∷ messages game_mapped.calls
unfolding everything changes readies
step-Says_example =
    (step-Says working (λ calls fd buf. refl) keys game_mapped (commit 60 first_frame)).said

-- A driver that refuses nothing.
abbrev generous : Driver
generous = record {
  grants = λ acts r. true;
  allows = λ acts s. true;
  vendor = some (codes "AMD");
  renderer = some (codes "radeonsi");
  version = none;
}

-- The compositor configures the client, and asks it to close in the third round.
abbrev rounds : ℕ → Round
rounds i = record { events = if i == 2 then closes ∷ [] else configures i ∷ []; now = i * 20000 }

abbrev both : List (List ℕ)
both = codes "wl_compositor" ∷ codes "wl_shm" ∷ codes "xdg_wm_base" ∷ []

-- Every function of the client, so that a run computes.
client_runs : Unit {0}
unfolding handle handle_all handle_global handle_globals init_egl initialize bind_api choose_config
    create_context compile_shader link_program link_or_free init_shaders window_surface
    create_egl_window start_drawing surface_configure toplevel_configure set_up create_surface
    render_loop render_round count_frame str_eq
client_runs = tt

abbrev or_fresh : Option Client → Client
or_fresh none = fresh
or_fresh (some c) = c

abbrev ready : Client
ready = or_fresh (set_up generous both (configures_toplevel 0 0 ∷ configures 1 ∷ []))

abbrev first : Rendering
first = record { client = ready; queued = []; frame_count = 0; last_fps_time = 0 }

abbrev or_first : Option Rendering → Rendering
or_first none = first
or_first (some r) = r

abbrev last : Rendering
last = or_first (render_loop generous 9 rounds 0 first)

render_loop-ends_example :
    (r : Rendering) × (render_loop generous 5 rounds 0 first ≡ some r) × (r.client.running ≡ false)
unfolding client_runs has_close
render_loop-ends_example = render_loop-ends generous 2 5 rounds 0 first refl refl (omega arith)

main-balanced_example :
    made_count 9 (clean_up last.client).acts ≡ freed_count 9 (clean_up last.client).acts
unfolding client_runs occurs
main-balanced_example =
    main-balanced generous (λ acts. refl) (λ acts. refl) both
      (configures_toplevel 0 0 ∷ configures 1 ∷ []) [] ready 9 0 rounds last window (omega arith)
      (omega arith) refl refl (cc)

-- A driver that refuses the window's EGL surface, and a client that is set up on it.
abbrev but_surface : List Act → Resource → Bool
but_surface acts egl_surface = false
but_surface acts _ = true

abbrev refusing : Driver
refusing = record generous { grants = but_surface }

abbrev hidden : Client
hidden = or_fresh (set_up refusing both (configures_toplevel 0 0 ∷ configures 1 ∷ []))

render_loop-stuck_example :
    render_loop refusing 100 rounds 0
      (record { client = hidden; queued = []; frame_count = 0; last_fps_time = 0 })
    ≡ none
unfolding client_runs
render_loop-stuck_example =
    render_loop-stuck refusing 100 rounds 0
      (record { client = hidden; queued = []; frame_count = 0; last_fps_time = 0 }) refl refl refl

-- A compositor with a screen, and a client's toplevel on it.
abbrev with_screen : Compositor
with_screen = record playing {
  output = record { width = 1280; height = 800; refresh_mhz = 60000; scale_100 = 100 };
}

abbrev first_commit : Commit
first_commit = record { is_toplevel = true; initial_commit = true; has_buffer = false }

window-fills_output_example :
    (toplevel_commit working with_screen 60 first_commit
      ≡ record with_screen { calls = set_size 60 1280 800 ∷ with_screen.calls })
    × (window_size
          (handle_all generous (configures_toplevel 1280 800 ∷ configures 2 ∷ []) ready).acts
        ≡ some (1280, 800))
unfolding client_runs everything
window-fills_output_example =
    window-fills_output generous working with_screen 60
      (record { tree = 60; client = 6; role = game }) first_commit both
      (configures_toplevel 0 0 ∷ configures 1 ∷ []) ready 2 refl refl refl refl refl (omega arith)
      (omega arith) refl
