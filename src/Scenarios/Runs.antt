-- ===== src/Scenarios/Runs.antt =====
-- The machine's theorems at the states of the launch.
use playos_compositor.Base.{◌≡◌, refl, true, false, some, codes, List, [], ◌∷◌}
use playos_compositor.Compositor.{
  Compositor, no_output, drm, Track, game, game_foreground, shell_foreground,
  playos_ui_foreground_with_game_background,
}
use playos_compositor.Foreground.{set_expected_game, surface_ready}
use playos_compositor.Overlay.{manager_show}
use playos_compositor.Overlay.Told.{is_told}
use playos_compositor.Machine.Told.{Told, reachable-Agrees}
use playos_compositor.Machine.Descriptors.{open_fds}
use playos_compositor.Machine.Descriptors.Handlers.{reachable-Descriptors}
use playos_compositor.Lifecycle.{started}
use playos_compositor.Overlay.Toggle.{system_button_twice, early_show_blocks}
use playos_compositor.Button.{keyboard_key, is_system_keycode}
use playos_compositor.Button.Keyboards.{
  DeviceEvent, comes, goes, key_signal, tracked, is_plugged, key_signal-tracked,
}
use playos_compositor.Scene.{raised}
use playos_compositor.Toplevels.{toplevel_commit, toplevel_destroy, reclassify}
use playos_compositor.Toplevels.Classify.{reclassify-first_tree, first_tree, role_of}
use playos_compositor.Toplevels.Launch.{toplevel_commit-activates, toplevel_destroy_exits}
use playos_compositor.Toplevels.Stacking.{IsStacked, reclassify-IsStacked}
use playos_compositor.Machine.Session.{SessionInv}
use playos_compositor.Machine.Visibility.{SceneInv}
use playos_compositor.Machine.Link.{LinkInv, Served}
use playos_compositor.Machine.Clients.{ClientsInv}
use playos_compositor.Machine.Started.{
  reachable-SessionInv, reachable-SceneInv, reachable-ClientsInv, reachable-LinkInv,
  reachable-Served,
}
use playos_compositor.Machine.{
  Runs, here, next, step, new_toplevel, commit, registers_shell, ipc_ready, key, binds_overlay,
  registers_overlay,
}
use playos_compositor.Machine.Automaton.{event_input}
use playos_compositor.Machine.Automaton.Reacts.{step-reacts}
use playos_compositor.Scenarios.{
  everything, keys, working, readable, first_frame, shell_trusted, game_mapped, playing, to_playing,
}

reachable-SessionInv_example : SessionInv playing
reachable-SessionInv_example = reachable-SessionInv keys working drm no_output to_playing

reachable-SceneInv_example : SceneInv playing
reachable-SceneInv_example = reachable-SceneInv keys working drm no_output to_playing

reachable-ClientsInv_example : ClientsInv playing
reachable-ClientsInv_example = reachable-ClientsInv keys working drm no_output to_playing

reachable-Served_example : Served playing.link
reachable-Served_example =
    reachable-Served keys working drm no_output (λ calls fd. refl) (λ calls. refl) to_playing

reachable-LinkInv_example : LinkInv playing.link
reachable-LinkInv_example = reachable-LinkInv keys working drm no_output to_playing

abbrev pong_track : Track
pong_track = record { tree = 60; client = 6; role = game }

toplevel_commit-activates_example :
    (toplevel_commit working game_mapped 60 first_frame).fg_state ≡ game_foreground
unfolding everything
toplevel_commit-activates_example =
    (toplevel_commit-activates working game_mapped 60 pong_track first_frame refl).0

toplevel_destroy_exits_example : (toplevel_destroy working playing 60).fg_state ≡ shell_foreground
unfolding everything
toplevel_destroy_exits_example = (toplevel_destroy_exits working playing 60 pong_track refl).0

reclassify-first_tree_example : (reclassify playing).game_tree ≡ some 60
unfolding everything first_tree
reclassify-first_tree_example = (reclassify-first_tree playing).2

reclassify-IsStacked_example : IsStacked (reclassify playing) (raised (reclassify playing).calls)
unfolding everything role_of
reclassify-IsStacked_example = reclassify-IsStacked playing (refl, (refl, tt))

-- The overlay's client binds its global and registers while a game plays.
abbrev overlaid : Compositor
overlaid =
    step keys working (step keys working playing (binds_overlay 8 (some 81)))
      (registers_overlay 8 2)

to_overlaid : Runs keys working Told (started working drm no_output) overlaid
unfolding everything is_told
to_overlaid =
    next (registers_overlay 8 2)
      (next (binds_overlay 8 (some 81))
        (next (commit 60 first_frame)
          (next (new_toplevel 6 (some 60))
            (next (ipc_ready 7 readable)
              (next (registers_shell 5 1) (next (new_toplevel 5 (some 50)) here tt) tt) tt)
            tt)
          tt)
        tt)
      refl

reachable-Agrees_example : is_told (step keys working overlaid (key 316 true)).calls 81 ≡ true
unfolding everything is_told
reachable-Agrees_example =
    (reachable-Agrees keys working drm no_output (next (key 316 true) to_overlaid tt)).agree

reachable-Descriptors_example : open_fds playing.calls ≡ 7 ∷ []
unfolding everything
reachable-Descriptors_example =
    (reachable-Descriptors keys working drm no_output to_playing).holds.owned

system_button_twice_example :
    (keyboard_key keys working (keyboard_key keys working playing 316 true) 316 true).fg_state
    ≡ game_foreground
unfolding everything
system_button_twice_example = (system_button_twice keys working playing 316 refl refl refl refl).2

early_show_blocks_example :
    manager_show working (
      surface_ready working (
        set_expected_game working
          (manager_show working shell_trusted)
          (codes "t-1")
          (codes "pong")))
    ≡ surface_ready working (
        set_expected_game working (manager_show working shell_trusted) (codes "t-1") (codes "pong"))
unfolding everything
early_show_blocks_example =
    (early_show_blocks keys working shell_trusted (codes "t-1") (codes "pong") 316 refl refl).1

step-reacts_example :
    (step keys working playing (key 0x13c true)).fg_state
    ≡ playos_ui_foreground_with_game_background
unfolding everything event_input is_system_keycode
step-reacts_example = step-reacts keys working playing (key 0x13c true)

-- A keyboard came and went, another and a mouse came; the latest first.
abbrev plugs : List DeviceEvent
plugs = comes 3 false true ∷ comes 2 true true ∷ goes 1 ∷ comes 1 true true ∷ []

key_signal-tracked_example : key_signal keys working (tracked plugs) 1 0x13c true playing ≡ playing
unfolding is_plugged
key_signal-tracked_example = (key_signal-tracked keys working plugs 1 0x13c true playing).1
