-- ===== src/Render/Counts.antt =====
-- The frame counters of src/compositor.c, over any run of commits and frames.
use playos_compositor.Base.{ℕ, ◌+◌, ◌^◌, ◌≤◌, ◌<◌, ◌≡◌, List, [], ◌∷◌, arith, if◌then◌else◌}
use playos_compositor.Compositor.{Compositor, Role, game, role_is}
use playos_compositor.Toplevels.{count_commit}
use playos_compositor.Render.{close_window, frame, one_second}

-- What moves the counters of commits.
pub data Tick : Type 0 where
  committed : Role → Tick
  framed : (now : ℕ) → Tick

unfoldable pub tick : Compositor → Tick → Compositor
unfolding count_commit frame
tick c (committed r) = count_commit c r
tick c (framed now) = frame c now

-- What a tick reports of the game's commits: the counter, where a frame ends the window.
unfoldable pub reported : Compositor → Tick → ℕ
reported c (committed r) = 0
reported c (framed now) = if (close_window c.frames now).1 then c.frames.commits_game else 0

unfoldable pub after : Compositor → List Tick → Compositor
after c [] = c
after c (t ∷ ts) = after (tick c t) ts

unfoldable pub total : Compositor → List Tick → ℕ
total c [] = 0
total c (t ∷ ts) = reported c t + total (tick c t) ts

unfoldable pub game_commits : List Tick → ℕ
game_commits [] = 0
game_commits (committed r ∷ ts) = (if role_is r game then 1 else 0) + game_commits ts
game_commits (framed now ∷ ts) = game_commits ts

tick-conserves :
    (c : Compositor) (t : Tick)
    → c.frames.commits_game + game_commits (t ∷ []) < 2 ^ 32
    → reported c t + (tick c t).frames.commits_game ≡ c.frames.commits_game + game_commits (t ∷ [])
unfolding tick reported game_commits count_commit frame close_window
tick-conserves c (committed r) h = ground arith
tick-conserves c (framed now) h = ground arith

game_commits-one :
    (t : Tick) (ts : List Tick) → game_commits (t ∷ ts) ≡ game_commits (t ∷ []) + game_commits ts
unfolding game_commits
game_commits-one (committed r) ts = ground arith
game_commits-one (framed now) ts = ground arith

-- Over any run of commits and frames in which the game commits fewer than 2^32 times, counted with
-- what is not reported yet, no commit of the game is lost or counted twice: what the frames report,
-- with what is left in the counter, is the number of the game's commits.
pub total-conserves :
    (c : Compositor) (ts : List Tick)
    → c.frames.commits_game + game_commits ts < 2 ^ 32
    → total c ts + (after c ts).frames.commits_game ≡ c.frames.commits_game + game_commits ts
unfolding total after game_commits
total-conserves c [] h = omega arith
total-conserves c (t ∷ ts) h =
    let one = game_commits-one t ts in
    let step = tick-conserves c t (omega arith) in
    let rest = total-conserves (tick c t) ts (omega arith) in omega arith

-- After a frame the window is open, began at that frame or before, and has lasted less than a
-- second, if it did not begin after it.
frame_window :
    (c : Compositor) (now : ℕ)
    → c.frames.window_start ≤ now
    → let f = (frame c now).frames in (f.window_start ≤ now) × (now < f.window_start + one_second)
unfolding frame close_window
frame_window c now h = ground arith
