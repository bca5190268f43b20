-- ===== src/Machine/Launches.antt =====
-- A launch from the message of playos-init to the game on the screen, through the handlers of
-- src/compositor_ipc.c, src/state_machine.c and src/compositor.c.
use playos_compositor.Base.{
  subst, sym, ◌∙◌, ap, ℕ, ◌≤◌, ◌≡◌, ◌≢◌, refl, true, false, none, some, is_some, List, [], ◌∷◌,
  ◌++◌, arith, All, codes, map, take, length, length-take-le, take-eq_of_le,
}
use playos_compositor.Compositor.{
  Compositor, Os, Track, Role, no_role, game, received, game_starting, game_foreground,
}
use playos_compositor.Button.{Keycodes}
use playos_compositor.Wire.Frame.{body, frame_of, ipc_max_body}
use playos_compositor.Wire.RoundTrip.{IsPlain}
use playos_compositor.Foreground.{
  game_visible, set_expected_game, transition, surface_ready, announce_ready, refresh,
}
use playos_compositor.Ipc.{Mask, msg_set_expected_game, fd_handler}
use playos_compositor.Ipc.Delivery.{launch, fd_handler_delivers, dispatch-launch}
use playos_compositor.Scene.{Shown}
use playos_compositor.Toplevels.{
  Commit, commit_track, configure_or_count, find_track, new_xdg_toplevel, reclassify,
  role_for_client, toplevel_commit,
}
use playos_compositor.Toplevels.Classify.{give_role, first_tree, reclassify-first_tree}
use playos_compositor.Toplevels.Launch.{toplevel_commit-activates}
use playos_compositor.Trusted.{is_trusted}
use playos_compositor.Machine.{ipc_ready, new_toplevel, commit, step, Reach, here, next}
use playos_compositor.Machine.Visibility.{SceneInv}
use playos_compositor.Machine.Visibility.Surfaces.{Reach-SceneInv}

-- What is known of a compositor that waits for its game.
record Waits (c : Compositor) (c' : Compositor) (token : List ℕ) : Type 0 where
  starting : c'.fg_state ≡ game_starting
  unready : c'.game_surface_ready ≡ false
  same_toplevels : c'.toplevels ≡ c.toplevels
  same_shell : c'.shell_client ≡ c.shell_client
  same_overlay : c'.overlay_client ≡ c.overlay_client
  expects : c'.expected_launch_token ≡ take 63 token

set_expected_game-Waits :
    (os : Os) (c : Compositor) (token id : List ℕ) → Waits c (set_expected_game os c token id) token
unfolding set_expected_game transition
set_expected_game-Waits os c token id = ground arith

find_track-appended :
    (f : ℕ → Role) (x : Track) (xs : List Track)
    → find_track x.tree xs ≡ none
    → find_track x.tree (map (give_role f) (xs ++ x ∷ [])) ≡ some (give_role f x)
unfolding find_track
find_track-appended f x [] h = ground arith
find_track-appended f x (y ∷ ys) h = ground (arith, find_track-appended f x ys)

role_for_client-game :
    (c : Compositor) (client : ℕ)
    → is_trusted c client ≡ false
    → c.fg_state ≡ game_starting
    → role_for_client c client ≡ game
unfolding role_for_client is_trusted
role_for_client-game c client h s = ground arith

reclassify_keeps :
    (c : Compositor)
    → let c' = reclassify c in
      (c'.fg_state ≡ c.fg_state)
      × (c'.game_surface_ready ≡ c.game_surface_ready)
      × (c'.expected_launch_token ≡ c.expected_launch_token)
unfolding reclassify
reclassify_keeps c = (refl, refl, refl)

new_xdg_toplevel_keeps :
    (c : Compositor) (client tree : ℕ)
    → let c' = new_xdg_toplevel c client (some tree) in
      (c'.fg_state ≡ c.fg_state)
      × (c'.game_surface_ready ≡ c.game_surface_ready)
      × (c'.expected_launch_token ≡ c.expected_launch_token)
unfolding new_xdg_toplevel
new_xdg_toplevel_keeps c client tree = reclassify_keeps _

new_xdg_toplevel-first_tree :
    (c : Compositor) (client tree : ℕ)
    → let c' = new_xdg_toplevel c client (some tree) in c'.game_tree ≡ first_tree game c'.toplevels
unfolding new_xdg_toplevel
new_xdg_toplevel-first_tree c client tree = (reclassify-first_tree _).2

-- The game's surface is tracked as such.
game_mapped :
    (c : Compositor) (client tree : ℕ)
    → is_trusted c client ≡ false
    → c.fg_state ≡ game_starting
    → find_track tree c.toplevels ≡ none
    → find_track tree (new_xdg_toplevel c client (some tree)).toplevels
      ≡ some (record { tree = tree; client = client; role = game })
unfolding new_xdg_toplevel is_trusted
game_mapped c client tree h s n =
    let x : Track = record { tree = tree; client = client; role = no_role } in
    let c1 : Compositor = record c { toplevels = c.toplevels ++ x ∷ [] } in
    let found = find_track-appended (role_for_client c1) x c.toplevels n in
    let mapped = (reclassify-first_tree c1).0 in
    let plays : role_for_client c1 client ≡ game = role_for_client-game c1 client h s in
    ap (find_track tree) mapped
    ∙ found
    ∙ ap (λ r. some (record { tree = tree; client = client; role = r })) plays

first_tree-found :
    (tree : ℕ) (x : Track) (xs : List Track)
    → find_track tree xs ≡ some x
    → x.role ≡ game
    → is_some (first_tree game xs) ≡ true
unfolding find_track first_tree
first_tree-found tree x [] h g = cc
first_tree-found tree x (y ∷ ys) h g = ground (arith, first_tree-found tree x ys)

commit_keeps_tree :
    (os : Os) (c : Compositor) (tree : ℕ) (e : Commit)
    → (toplevel_commit os c tree e).game_tree ≡ c.game_tree
unfolding toplevel_commit commit_track configure_or_count surface_ready transition announce_ready
    refresh
commit_keeps_tree os c tree e = ground arith

-- The message arrives.
message_arrives :
    (os : Os) (c : Compositor) (fd : ℕ) (mask : Mask) (token id rest : List ℕ)
    → mask.broken ≡ false
    → mask.readable ≡ true
    → All IsPlain token
    → token ≢ codes "game_id"
    → All IsPlain id
    → length (body msg_set_expected_game (launch token id)) ≤ ipc_max_body
    → os.read c.calls fd ≡ some (frame_of (body msg_set_expected_game (launch token id)) ++ rest)
    → Waits c (fd_handler os c fd mask) token
message_arrives os c fd mask token id rest b r p n q l e =
    let c0 : Compositor = record c { calls = received fd ∷ c.calls } in
    let text = body msg_set_expected_game (launch token id) in
    let w = set_expected_game-Waits os c0 (take 63 token) (take 255 id) in
    let once : take 63 (take 63 token) ≡ take 63 token =
      take-eq_of_le 63 (take 63 token) (length-take-le 63 token) in
    let handled =
      fd_handler_delivers os c fd mask text rest b r l e ∙ dispatch-launch os c0 token id p n q in
    subst (λ t. Waits c t token) (sym handled)
      (record {
        starting = w.starting;
        unready = w.unready;
        same_toplevels = w.same_toplevels;
        same_shell = w.same_shell;
        same_overlay = w.same_overlay;
        expects = w.expects ∙ once;
      })

-- The game maps a surface and commits its first buffer.
pub record Plays (c : Compositor) (token : List ℕ) : Type 0 where
  pub in_front : c.fg_state ≡ game_foreground
  pub is_ready : c.game_surface_ready ≡ true
  pub expects_it : c.expected_launch_token ≡ token
  pub has_tree : is_some c.game_tree ≡ true

game_draws :
    (os : Os) (c : Compositor) (client tree : ℕ) (e : Commit)
    → is_trusted c client ≡ false
    → c.fg_state ≡ game_starting
    → c.game_surface_ready ≡ false
    → find_track tree c.toplevels ≡ none
    → e.is_toplevel ≡ true
    → e.has_buffer ≡ true
    → Plays
        (toplevel_commit os (new_xdg_toplevel c client (some tree)) tree e)
        c.expected_launch_token
game_draws os c client tree e h s u n a b =
    let c2 = new_xdg_toplevel c client (some tree) in
    let x : Track = record { tree = tree; client = client; role = game } in
    let found = game_mapped c client tree h s n in
    let kept = new_xdg_toplevel_keeps c client tree in
    let done = toplevel_commit-activates os c2 tree x e found in
    let tree_of = commit_keeps_tree os c2 tree e in
    let first = new_xdg_toplevel-first_tree c client tree in
    let some_tree = first_tree-found tree x c2.toplevels found refl in
    record {
      in_front = ground (arith, done.0, kept.0, kept.1);
      is_ready = ground (arith, done.1, kept.0, kept.1);
      expects_it = done.2 ∙ kept.2;
      has_tree = rw (tree_of, first) some_tree;
    }

-- A launch comes to its end from any state that satisfies SceneInv: when playos-init's message with
-- a plain token and identifier is read whole, a game is starting; when then a client without a
-- trusted role maps a surface with a new tree and commits a buffer to it, the game is in the
-- foreground and ready under that token, cut to its buffer, and its tree is enabled.
pub launch_completes :
    (k : Keycodes) (os : Os) (c : Compositor) (fd : ℕ) (mask : Mask) (token id rest : List ℕ)
    (client tree : ℕ) (e : Commit)
    → SceneInv c
    → mask.broken ≡ false
    → mask.readable ≡ true
    → All IsPlain token
    → token ≢ codes "game_id"
    → All IsPlain id
    → length (body msg_set_expected_game (launch token id)) ≤ ipc_max_body
    → os.read c.calls fd ≡ some (frame_of (body msg_set_expected_game (launch token id)) ++ rest)
    → is_trusted c client ≡ false
    → find_track tree c.toplevels ≡ none
    → e.is_toplevel ≡ true
    → e.has_buffer ≡ true
    → let c1 = step k os c (ipc_ready fd mask) in
      let c3 = step k os (step k os c1 (new_toplevel client (some tree))) (commit tree e) in
      (c1.fg_state ≡ game_starting) × Plays c3 (take 63 token) × Shown c3.game_tree true c3.calls
unfolding step is_trusted
launch_completes k os c fd mask token id rest client tree e inv b r p n q l read h fresh t buf =
    let w = message_arrives os c fd mask token id rest b r p n q l read in
    let c1 = fd_handler os c fd mask in
    let h1 : is_trusted c1 client ≡ false = ground (arith, w.same_shell, w.same_overlay) in
    let fresh1 : find_track tree c1.toplevels ≡ none =
      ap (find_track tree) w.same_toplevels ∙ fresh in
    let plays = game_draws os c1 client tree e h1 w.starting w.unready fresh1 t buf in
    let run : Reach k os c (toplevel_commit os (new_xdg_toplevel c1 client (some tree)) tree e) =
      next (commit tree e)
        (next (new_toplevel client (some tree)) (next (ipc_ready fd mask) here tt) fresh1) tt in
    let c3 = toplevel_commit os (new_xdg_toplevel c1 client (some tree)) tree e in
    let shown = (Reach-SceneInv k os c run inv).visible.game_shown in
    (
      w.starting,
      subst (Plays _) w.expects plays,
      subst (λ s. Shown c3.game_tree (game_visible s) c3.calls) plays.in_front shown,
    )
