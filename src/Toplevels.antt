-- ===== src/Toplevels.antt =====
-- The tracked xdg toplevels of src/compositor.c: roles, the three tree pointers, stacking, and the
-- handlers of a surface's life.
pub mod Classify
pub mod Stacking
pub mod Launch
use playos_compositor.Base.{
  ℕ, ◌+◌, ◌%◌, ◌^◌, Bool, not, ◌&&◌, Option, none, some, List, [], ◌∷◌, ◌++◌, ◌==◌, if◌then◌else◌,
  is_some, points_to,
}
use playos_compositor.Compositor.{
  Compositor, Track, Role, no_role, shell, overlay, game, role_is, ForegroundState,
  shell_foreground, Call, raise_to_top, set_size, Os,
}
use playos_compositor.Foreground.{refresh, surface_ready, game_exited}

abbrev pub raise : Option ℕ → List Call → List Call
raise none calls = calls
raise (some tree) calls = raise_to_top tree ∷ calls

-- compositor_restack: shell, then game, then overlay.
unfoldable pub restack : Compositor → Compositor
restack c = record c {
  calls = raise c.overlay_tree (raise c.game_tree (raise c.shell_tree c.calls));
}

-- An unclaimed client counts as the game while one is expected.
abbrev pub unclaimed_role : ForegroundState → Role
unclaimed_role shell_foreground = no_role
unclaimed_role _ = game

-- compositor_role_for_client.
unfoldable pub role_for_client : Compositor → ℕ → Role
role_for_client c client =
    if points_to c.shell_client client
    then shell
    else if points_to c.overlay_client client
    then overlay
    else unclaimed_role c.fg_state

-- The pointers shell_tree, game_tree and overlay_tree while they are rebuilt.
pub record Trees : Type 0 where
  pub shell_tree : Option ℕ
  pub game_tree : Option ℕ
  pub overlay_tree : Option ℕ

-- The chain of tests in the loop body: a tree fills the pointer of its role if that is NULL.
unfoldable pub place : Role → ℕ → Trees → Trees
place role tree t =
    if role_is role shell && not (is_some t.shell_tree)
    then record t { shell_tree = some tree }
    else if role_is role game && not (is_some t.game_tree)
    then record t { game_tree = some tree }
    else if role_is role overlay && not (is_some t.overlay_tree)
    then record t { overlay_tree = some tree }
    else t

-- The loop: the tracks with their new roles, and the pointers.
unfoldable pub classify : (ℕ → Role) → List Track → Trees → List Track × Trees
classify role [] t = ([], t)
classify role (x ∷ xs) t =
    let r = role x.client in
    let (xs', t') = classify role xs (place r x.tree t) in (record x { role = r } ∷ xs', t')

abbrev pub no_trees : Trees
no_trees = record { shell_tree = none; game_tree = none; overlay_tree = none }

-- What the loop of reclassify_toplevels leaves.
unfoldable pub assign_trees : Compositor → List Track × Trees → Compositor
assign_trees c p = record c {
  toplevels = p.0;
  shell_tree = p.1.shell_tree;
  game_tree = p.1.game_tree;
  overlay_tree = p.1.overlay_tree;
}

-- playos_compositor_reclassify_toplevels.
unfoldable pub reclassify : Compositor → Compositor
unfolding assign_trees restack refresh
reclassify c =
    refresh (restack (assign_trees c (classify (role_for_client c) c.toplevels no_trees)))

-- handle_new_xdg_toplevel; the tree is `none` where it or the track cannot be allocated.
unfoldable pub new_xdg_toplevel : Compositor → ℕ → Option ℕ → Compositor
new_xdg_toplevel c client none = c
new_xdg_toplevel c client (some tree) = reclassify (record c {
  toplevels = c.toplevels ++ record { tree = tree; client = client; role = no_role } ∷ [];
})

-- The track that a listener belongs to, by its tree.
unfoldable pub find_track : ℕ → List Track → Option Track
find_track tree [] = none
find_track tree (x ∷ xs) = if x.tree == tree then some x else find_track tree xs

unfoldable pub remove_track : ℕ → List Track → List Track
remove_track tree [] = []
remove_track tree (x ∷ xs) = if x.tree == tree then xs else x ∷ remove_track tree xs

-- What handle_toplevel_commit reads of the surface.
pub record Commit : Type 0 where
  pub is_toplevel : Bool
  pub initial_commit : Bool
  pub has_buffer : Bool

abbrev pub u32 : ℕ → ℕ
u32 n = n % 2 ^ 32

-- The frame counters, by role.
unfoldable pub count_commit : Compositor → Role → Compositor
count_commit c shell = record c {
  frames = record c.frames { commits_shell = u32 (c.frames.commits_shell + 1) };
}
count_commit c game = record c {
  frames = record c.frames { commits_game = u32 (c.frames.commits_game + 1) };
}
count_commit c _ = c

-- The configure on the initial commit; on every other commit a frame is counted.
unfoldable pub configure_or_count : Compositor → Track → Bool → Compositor
unfolding count_commit
configure_or_count c x initial =
    if initial
    then record c { calls = set_size x.tree c.output.width c.output.height ∷ c.calls }
    else count_commit c x.role

-- The body of handle_toplevel_commit for a track.
unfoldable pub commit_track : Os → Compositor → Track → Commit → Compositor
commit_track os c x e =
    let c' = configure_or_count c x e.initial_commit in
    if e.is_toplevel
    then if role_is x.role game && e.has_buffer then surface_ready os c' else c'
    else c

-- handle_toplevel_commit.
unfoldable pub toplevel_commit : Os → Compositor → ℕ → Commit → Compositor
toplevel_commit os c tree e = elim (find_track tree c.toplevels) [
  | none ↦ c
  | some x ↦ commit_track os c x e
]

abbrev pub unless_tree : Option ℕ → ℕ → Option ℕ
unless_tree slot tree = if points_to slot tree then none else slot

-- The pointer of the track's role is reset if it points to the track's tree.
unfoldable pub drop_tree : Compositor → ℕ → Role → Compositor
drop_tree c tree shell = record c { shell_tree = unless_tree c.shell_tree tree }
drop_tree c tree game = record c { game_tree = unless_tree c.game_tree tree }
drop_tree c tree overlay = record c { overlay_tree = unless_tree c.overlay_tree tree }
drop_tree c tree no_role = c

unfoldable pub untrack : Compositor → Track → Compositor
untrack c x = record (drop_tree c x.tree x.role) { toplevels = remove_track x.tree c.toplevels }

-- The body of handle_toplevel_destroy for a track.
unfoldable pub destroy_track : Os → Compositor → Track → Compositor
destroy_track os c x =
    let c' = untrack c x in restack (if role_is x.role game then game_exited os c' else refresh c')

-- handle_toplevel_destroy.
unfoldable pub toplevel_destroy : Os → Compositor → ℕ → Compositor
toplevel_destroy os c tree = elim (find_track tree c.toplevels) [
  | none ↦ c
  | some x ↦ destroy_track os c x
]
