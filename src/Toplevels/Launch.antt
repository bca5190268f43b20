-- ===== src/Toplevels/Launch.antt =====
-- The life of a game as its surface drives it: the first frame, and the end.
use playos_compositor.Base.{ℕ, ◌≡◌, Bool, true, false, not, ◌&&◌, some, [], arith, if◌then◌else◌}
use playos_compositor.Compositor.{
  Compositor, Track, game, role_is, Os, shell_foreground, game_starting, game_foreground, state_is,
}
use playos_compositor.Foreground.{transition, surface_ready, announce_ready, game_exited, refresh}
use playos_compositor.Toplevels.{
  Commit, commit_track, configure_or_count, destroy_track, untrack, drop_tree, restack,
  toplevel_commit, toplevel_destroy, find_track,
}

-- A commit that makes the first frame of an awaited game.
abbrev pub activates : Compositor → Track → Commit → Bool
activates c x e =
    e.is_toplevel
    && (role_is x.role game
        && (e.has_buffer && (not c.game_surface_ready && state_is c.fg_state game_starting)))

-- A commit on a tracked surface changes the foreground state exactly when it is a toplevel's commit of a buffer on a
-- track with the game's role while a game is starting and is not yet ready: then the game comes to
-- the foreground and is ready. Every other commit leaves both as they are. No commit changes the
-- expected launch, the overlay's visibility or the tracks.
pub toplevel_commit-activates :
    (os : Os) (c : Compositor) (tree : ℕ) (x : Track) (e : Commit)
    → find_track tree c.toplevels ≡ some x
    → let c' = toplevel_commit os c tree e in
      (c'.fg_state ≡ (if activates c x e then game_foreground else c.fg_state))
      × (c'.game_surface_ready ≡ (if activates c x e then true else c.game_surface_ready))
      × (c'.expected_launch_token ≡ c.expected_launch_token)
      × (c'.expected_game_id ≡ c.expected_game_id)
      × (c'.overlay_visible ≡ c.overlay_visible)
      × (c'.toplevels ≡ c.toplevels)
unfolding toplevel_commit commit_track configure_or_count surface_ready transition announce_ready
toplevel_commit-activates os c tree x e q = ground arith

-- When a surface with the game's role is destroyed, the shell is in the foreground and no launch is
-- expected any more, whatever the state was. When any other tracked surface is destroyed, the
-- foreground state and the expected launch stay.
pub toplevel_destroy_exits :
    (os : Os) (c : Compositor) (tree : ℕ) (x : Track)
    → find_track tree c.toplevels ≡ some x
    → let c' = toplevel_destroy os c tree in
      let ends = role_is x.role game in
      (c'.fg_state ≡ (if ends then shell_foreground else c.fg_state))
      × (c'.expected_launch_token ≡ (if ends then [] else c.expected_launch_token))
      × (c'.expected_game_id ≡ (if ends then [] else c.expected_game_id))
      × (c'.game_surface_ready ≡ (if ends then false else c.game_surface_ready))
unfolding toplevel_destroy destroy_track untrack drop_tree game_exited transition refresh restack
toplevel_destroy_exits os c tree x q = ground arith
