-- ===== src/Scenarios/Frames.antt =====
-- The theorems on modes and frame counters, at concrete inputs.
use playos_compositor.Base.{◌+◌, ◌≡◌, true, false, List, [], ◌∷◌, arith}
use playos_compositor.Compositor.{Compositor, Output, shell, game}
use playos_compositor.Render.{Mode, pick_mode}
use playos_compositor.Render.Picks.{Picked, pick_mode-Picked}
use playos_compositor.Render.Counts.{
  Tick, committed, framed, after, total, game_commits, total-conserves,
}
use playos_compositor.Scenarios.{playing}

abbrev panel_output : Output
panel_output = record { width = 1920; height = 1080; refresh_mhz = 120000; scale_100 = 100 }

abbrev panel_modes : List Mode
panel_modes =
    record { width = 1280; height = 720; refresh = 60000; preferred = true }
    ∷ record { width = 1920; height = 1080; refresh = 120003; preferred = false }
    ∷ []

pick_mode-Picked_example : Picked panel_output panel_modes (pick_mode panel_output panel_modes)
pick_mode-Picked_example = pick_mode-Picked panel_output panel_modes

abbrev one_window : List Tick
one_window =
    framed 5
    ∷ committed game
    ∷ committed shell
    ∷ committed game
    ∷ framed 1000000005
    ∷ committed game
    ∷ []

-- The counters are 0 there.
abbrev fresh : Compositor
fresh = record playing {
  frames = record {
    commits_shell = 0;
    commits_game = 0;
    window_start = 0;
    zero_copy = 0;
    copied = 0;
  };
}

total-conserves_example : total fresh one_window + (after fresh one_window).frames.commits_game ≡ 3
unfolding game_commits
total-conserves_example = total-conserves fresh one_window (omega arith)
