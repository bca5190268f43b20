-- ===== src/Render.antt =====
-- Output handling of src/compositor.c: the choice of a mode, presentation and frame counters.
pub mod Picks
pub mod Counts
use playos_compositor.Base.{
  ℕ, ◌+◌, ◌-◌, ◌/◌, Bool, true, false, ◌&&◌, Option, none, some, List, [], ◌∷◌, ◌==◌, ltb, leb,
  if◌then◌else◌,
}
use playos_compositor.Compositor.{Compositor, Output, Frames}
use playos_compositor.Toplevels.{u32}

-- struct wlr_output_mode, as far as it is read.
pub record Mode : Type 0 where
  pub width : ℕ
  pub height : ℕ
  pub refresh : ℕ
  pub preferred : Bool

abbrev pub matches_output : Output → Mode → Bool
matches_output o m =
    m.width == o.width && (m.height == o.height && m.refresh / 1000 == o.refresh_mhz / 1000)

-- The first mode of the list that passes the test.
unfoldable pub first_mode : (Mode → Bool) → List Mode → Option Mode
first_mode test [] = none
first_mode test (m ∷ ms) = if test m then some m else first_mode test ms

abbrev pub is_discovered : Output → Bool
is_discovered o = ltb 0 o.width && (ltb 0 o.height && ltb 0 o.refresh_mhz)

unfoldable pub or_preferred : Option Mode → List Mode → Option Mode
unfolding first_mode
or_preferred (some m) modes = some m
or_preferred none modes = first_mode (λ m. m.preferred) modes

-- The mode that handle_new_output sets on the DRM backend.
unfoldable pub pick_mode : Output → List Mode → Option Mode
unfolding first_mode or_preferred
pick_mode o modes =
    or_preferred (if is_discovered o then first_mode (matches_output o) modes else none) modes

-- handle_output_present.
unfoldable pub output_present : Compositor → Bool → Bool → Compositor
output_present c presented zero_copy =
    if presented
    then if zero_copy
      then record c { frames = record c.frames { zero_copy = u32 (c.frames.zero_copy + 1) } }
      else record c { frames = record c.frames { copied = u32 (c.frames.copied + 1) } }
    else c

abbrev pub one_second : ℕ
one_second = 1000000000

-- The counters after a frame at `now`, and whether they were reported. The source compares
-- seconds in a double; here the clock is in nanoseconds.
unfoldable pub close_window : Frames → ℕ → Frames × Bool
close_window f now =
    let start = if f.window_start == 0 then now else f.window_start in
    if leb one_second (now - start)
    then (
      record { commits_shell = 0; commits_game = 0; window_start = now; zero_copy = 0; copied = 0 },
      true,
    )
    else (record f { window_start = start }, false)

-- handle_frame, for an output that has a scene output.
unfoldable pub frame : Compositor → ℕ → Compositor
unfolding close_window
frame c now = record c { frames = (close_window c.frames now).0 }
