-- ===== src/Toplevels/Classify.antt =====
-- The loop of playos_compositor_reclassify_toplevels: the roles it gives, and whom the three
-- pointers point to after it.
use playos_compositor.Base.{
  ◌≢◌, ◌∙◌, ℕ, ◌≡◌, refl, sym, ap, true, false, Option, none, some, List, [], ◌∷◌, ◌++◌, ◌==◌,
  if◌then◌else◌, arith, map,
}
use playos_compositor.Compositor.{Compositor, Track, Role, shell, overlay, game, role_is}
use playos_compositor.Toplevels.{
  Trees, place, classify, no_trees, find_track, remove_track, reclassify, role_for_client,
}

-- The role of the track with a given tree.
unfoldable pub role_of : ℕ → List Track → Option Role
role_of tree [] = none
role_of tree (x ∷ xs) = if x.tree == tree then some x.role else role_of tree xs

-- No two tracks share a tree.
abbrev pub Distinct : List Track → Type 0
Distinct [] = Unit {0}
Distinct (x ∷ xs) = (role_of x.tree xs ≡ none) × Distinct xs

-- A NULL pointer, or the tree of a track of that role.
abbrev pub Owned : Option ℕ → Role → List Track → Type 0
Owned none r xs = Unit {0}
Owned (some tree) r xs = role_of tree xs ≡ some r

pub role_of-find_track :
    (tree : ℕ) (xs : List Track) (x : Track)
    → find_track tree xs ≡ some x
    → role_of tree xs ≡ some x.role
unfolding role_of find_track
role_of-find_track tree [] x e = cc
role_of-find_track tree (y ∷ ys) x e = ground (arith, role_of-find_track tree ys x)

pub role_of_untracked :
    (tree : ℕ) (xs : List Track) → find_track tree xs ≡ none → role_of tree xs ≡ none
unfolding role_of find_track
role_of_untracked tree [] e = refl
role_of_untracked tree (y ∷ ys) e = ground (arith, role_of_untracked tree ys)

pub role_of-remove_track_ne :
    (tree u : ℕ) (xs : List Track)
    → (u == tree) ≡ false
    → role_of tree (remove_track u xs) ≡ role_of tree xs
unfolding role_of remove_track
role_of-remove_track_ne tree u [] h = refl
role_of-remove_track_ne tree u (x ∷ xs) h = ground (arith, role_of-remove_track_ne tree u xs)

role_of-remove_track-none :
    (tree u : ℕ) (xs : List Track)
    → role_of tree xs ≡ none
    → role_of tree (remove_track u xs) ≡ none
unfolding role_of remove_track
role_of-remove_track-none tree u [] h = refl
role_of-remove_track-none tree u (x ∷ xs) h = ground (arith, role_of-remove_track-none tree u xs)

pub remove_track-Distinct : (u : ℕ) (xs : List Track) → Distinct xs → Distinct (remove_track u xs)
unfolding remove_track
remove_track-Distinct u [] h = tt
remove_track-Distinct u (x ∷ xs) h =
    ground (arith, remove_track-Distinct u xs h.1, role_of-remove_track-none x.tree u xs h.0)

role_of-append_none :
    (tree : ℕ) (xs : List Track) (y : Track)
    → role_of tree xs ≡ none
    → (y.tree == tree) ≡ false
    → role_of tree (xs ++ y ∷ []) ≡ none
unfolding role_of
role_of-append_none tree [] y h n = ground arith
role_of-append_none tree (x ∷ xs) y h n = ground (arith, role_of-append_none tree xs y)

-- A new toplevel's tree is none of those tracked.
pub append-Distinct :
    (xs : List Track) (y : Track) → role_of y.tree xs ≡ none → Distinct xs → Distinct (xs ++ y ∷ [])
unfolding role_of
append-Distinct [] y n h = (refl, tt)
append-Distinct (x ∷ xs) y n h =
    (role_of-append_none x.tree xs y h.0 (ground arith), append-Distinct xs y (ground arith) h.1)

module _ (role : ℕ → Role) where
  classify-untracked :
      (tree : ℕ) (xs : List Track) (t : Trees)
      → role_of tree xs ≡ none
      → role_of tree (classify role xs t).0 ≡ none
  unfolding classify role_of
  classify-untracked tree [] t h = refl
  classify-untracked tree (x ∷ xs) t h =
      ground (arith, classify-untracked tree xs (place (role x.client) x.tree t))

  pub classify-Distinct :
      (xs : List Track) (t : Trees) → Distinct xs → Distinct (classify role xs t).0
  unfolding classify
  classify-Distinct [] t h = tt
  classify-Distinct (x ∷ xs) t h =
      let t' : Trees = place (role x.client) x.tree t in
      (classify-untracked x.tree xs t' h.0, classify-Distinct xs t' h.1)

-- The tree of the first track of a role: what a pointer should point to.
unfoldable pub first_tree : Role → List Track → Option ℕ
first_tree r [] = none
first_tree r (x ∷ xs) = if role_is x.role r then some x.tree else first_tree r xs

abbrev or_else : Option ℕ → Option ℕ → Option ℕ
or_else (some t) u = some t
or_else none u = u

-- The three pointers, of which the first filled stay.
abbrev fill : Trees → List Track → Trees
fill t xs = record {
  shell_tree = or_else t.shell_tree (first_tree shell xs);
  game_tree = or_else t.game_tree (first_tree game xs);
  overlay_tree = or_else t.overlay_tree (first_tree overlay xs);
}

fill-place :
    (r : Role) (x : Track) (t : Trees) (xs : List Track)
    → fill (place r x.tree t) xs ≡ fill t (record x { role = r } ∷ xs)
unfolding place first_tree
fill-place r x t xs = ground arith

classify-fill :
    (role : ℕ → Role) (xs : List Track) (t : Trees)
    → (classify role xs t).1 ≡ fill t (classify role xs t).0
unfolding classify first_tree
classify-fill role [] t = ground arith
classify-fill role (x ∷ xs) t =
    let r = role x.client in
    classify-fill role xs (place r x.tree t)
    ∙ fill-place r x t (classify role xs (place r x.tree t)).0

first_tree-none :
    (r : Role) (tree : ℕ) (xs : List Track) → first_tree r xs ≡ some tree → role_of tree xs ≢ none
unfolding first_tree role_of
first_tree-none r tree [] h = λ _. cc
first_tree-none r tree (x ∷ xs) h = ground (arith, first_tree-none r tree xs)

role_is-eq : (r s : Role) → role_is r s ≡ true → r ≡ s
role_is-eq r s h = ground arith

pub first_tree-role_of :
    (r : Role) (tree : ℕ) (xs : List Track)
    → Distinct xs
    → first_tree r xs ≡ some tree
    → role_of tree xs ≡ some r
unfolding first_tree role_of
first_tree-role_of r tree [] d h = cc
first_tree-role_of r tree (x ∷ xs) d h =
    ground (arith, role_is-eq x.role r, first_tree-none r tree xs, first_tree-role_of r tree xs d.1)

first_tree-Owned :
    (r : Role) (xs : List Track) (slot : Option ℕ)
    → Distinct xs
    → slot ≡ first_tree r xs
    → Owned slot r xs
first_tree-Owned r xs none d h = tt
first_tree-Owned r xs (some t) d h = first_tree-role_of r t xs d (sym h)

-- Each of the three pointers is NULL or points to a tracked tree of its role.
abbrev pub AllOwned : Compositor → Type 0
AllOwned c =
    Owned c.shell_tree shell c.toplevels
    × Owned c.game_tree game c.toplevels
    × Owned c.overlay_tree overlay c.toplevels

-- The roles after reclassification: those of the tracks' clients, and nothing else has changed.
abbrev pub give_role : (ℕ → Role) → Track → Track
give_role role x = record x { role = role x.client }

classify-map :
    (role : ℕ → Role) (xs : List Track) (t : Trees)
    → (classify role xs t).0 ≡ map (give_role role) xs
unfolding classify
classify-map role [] t = refl
classify-map role (x ∷ xs) t =
    ap (◌∷◌ (give_role role x)) (classify-map role xs (place (role x.client) x.tree t))

-- After reclassification, which leaves the set of tracked surfaces as it was, every track has the
-- role of its client, and each of the three pointers is NULL if no track has its role and else
-- points to the tree of the earliest such track.
pub reclassify-first_tree :
    (c : Compositor)
    → let c' = reclassify c in
      (c'.toplevels ≡ map (give_role (role_for_client c)) c.toplevels)
      × (c'.shell_tree ≡ first_tree shell c'.toplevels)
      × (c'.game_tree ≡ first_tree game c'.toplevels)
      × (c'.overlay_tree ≡ first_tree overlay c'.toplevels)
unfolding reclassify
reclassify-first_tree c =
    let e = classify-fill (role_for_client c) c.toplevels no_trees in
    (
      classify-map (role_for_client c) c.toplevels no_trees,
      ap (λ (t : Trees). t.shell_tree) e,
      ap (λ (t : Trees). t.game_tree) e,
      ap (λ (t : Trees). t.overlay_tree) e,
    )

pub reclassify-Distinct :
    (c : Compositor) → Distinct c.toplevels → Distinct (reclassify c).toplevels
unfolding reclassify
reclassify-Distinct c d = classify-Distinct (role_for_client c) c.toplevels no_trees d

pub reclassify-Owned : (c : Compositor) → Distinct c.toplevels → AllOwned (reclassify c)
reclassify-Owned c d =
    let d' = reclassify-Distinct c d in
    let f = reclassify-first_tree c in
    (
      first_tree-Owned shell _ _ d' f.1,
      first_tree-Owned game _ _ d' f.2,
      first_tree-Owned overlay _ _ d' f.3,
    )
