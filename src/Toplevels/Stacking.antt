-- ===== src/Toplevels/Stacking.antt =====
-- The stacking order: overlay above game above shell, above everything else.
use playos_compositor.Base.{◌∙◌, ℕ, ◌≡◌, Bool, Option, none, some, List, [], ◌∷◌, ◌++◌, arith}
use playos_compositor.Compositor.{Compositor, Call, shell, game, overlay, Track}
use playos_compositor.Foreground.{set_tree_enabled}
use playos_compositor.Scene.{raised, remove}
use playos_compositor.Toplevels.{
  restack, raise, assign_trees, classify, role_for_client, no_trees, reclassify,
}
use playos_compositor.Toplevels.Classify.{Distinct, reclassify-Owned, AllOwned, Owned}

abbrev pub present : Option ℕ → List ℕ
present none = []
present (some t) = t ∷ []

-- Whether a stack begins with the trees of the three pointers, the overlay's topmost.
abbrev pub IsStacked : Compositor → List ℕ → Type 0
IsStacked c stack =
    (rest : List ℕ) × (stack
      ≡ present c.overlay_tree ++ (present c.game_tree ++ (present c.shell_tree ++ rest)))

without : Option ℕ → List ℕ → List ℕ
without none ts = ts
without (some t) ts = remove t ts

raised_three :
    (s g o : Option ℕ) (xs : List Track) (calls : List Call)
    → Owned s shell xs
    → Owned g game xs
    → Owned o overlay xs
    → raised (raise o (raise g (raise s calls)))
      ≡ present o ++ (present g ++ (present s ++ without o (without g (without s (raised calls)))))
unfolding raised remove without
raised_three s g o xs calls hs hg ho = ground arith

-- If each of the three pointers is NULL or the tree of a track of its role, restacking leaves the
-- overlay's tree topmost, the game's below it, the shell's below that, and all others below them.
pub restack-IsStacked :
    (c : Compositor) → AllOwned c → IsStacked (restack c) (raised (restack c).calls)
unfolding restack
restack-IsStacked c h = (
  without c.overlay_tree (without c.game_tree (without c.shell_tree (raised c.calls))),
  raised_three c.shell_tree c.game_tree c.overlay_tree c.toplevels c.calls h.0 h.1 h.2,
)

raised-set_trees :
    (s g o : Option ℕ) (bs bg bo : Bool) (calls : List Call)
    → raised (set_tree_enabled o bo (set_tree_enabled g bg (set_tree_enabled s bs calls)))
      ≡ raised calls
unfolding raised
raised-set_trees s g o bs bg bo calls = ground arith

-- After every reclassification of tracked surfaces with distinct trees, the topmost trees are the
-- overlay's, the game's and the shell's, in this order, as far as there are such surfaces.
pub reclassify-IsStacked :
    (c : Compositor) → Distinct c.toplevels → IsStacked (reclassify c) (raised (reclassify c).calls)
unfolding reclassify
reclassify-IsStacked c d =
    let c' = restack (assign_trees c (classify (role_for_client c) c.toplevels no_trees)) in
    let (rest, e) =
      restack-IsStacked (assign_trees c (classify (role_for_client c) c.toplevels no_trees))
        (reclassify-Owned c d) in
    (rest, raised-set_trees c'.shell_tree c'.game_tree c'.overlay_tree _ _ _ c'.calls ∙ e)
