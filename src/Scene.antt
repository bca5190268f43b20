-- ===== src/Scene.antt =====
-- How wlroots documents the scene calls that the history holds: a node is enabled when it is
-- created, wlr_scene_node_set_enabled sets the flag, and raising a node puts it above its siblings.
use playos_compositor.Base.{
  ℕ, ◌≡◌, refl, Bool, true, Option, none, some, List, [], ◌∷◌, ◌==◌, if◌then◌else◌,
}
use playos_compositor.Compositor.{Call, set_enabled, raise_to_top, Os}
use playos_compositor.Foreground.Sends.{ipc_calls-keeps}
use playos_compositor.Foreground.{ipc_calls}

-- Whether a tree is enabled after a history of calls.
unfoldable pub is_enabled : List Call → ℕ → Bool
is_enabled [] tree = true
is_enabled (set_enabled t b ∷ calls) tree = if t == tree then b else is_enabled calls tree
is_enabled (_ ∷ calls) tree = is_enabled calls tree

-- A NULL pointer, or a tree that is enabled as `b` says.
abbrev pub Shown : Option ℕ → Bool → List Call → Type 0
Shown none b calls = Unit {0}
Shown (some tree) b calls = is_enabled calls tree ≡ b

unfoldable pub remove : ℕ → List ℕ → List ℕ
remove tree [] = []
remove tree (t ∷ ts) = let rest = t ∷ remove tree ts in if t == tree then remove tree ts else rest

-- The trees that were raised, the topmost first: a tree that was never raised is below all of them.
unfoldable pub raised : List Call → List ℕ
raised [] = []
raised (raise_to_top t ∷ calls) = t ∷ remove t (raised calls)
raised (_ ∷ calls) = raised calls

-- A message to playos-init touches no tree.
pub is_enabled-ipc_calls :
    (os : Os) (fd : Option ℕ) (type extra : List ℕ) (calls : List Call) (tree : ℕ)
    → is_enabled (ipc_calls os fd type extra calls) tree ≡ is_enabled calls tree
unfolding is_enabled
is_enabled-ipc_calls os fd type extra calls tree =
    ipc_calls-keeps (λ cs. is_enabled cs tree ≡ is_enabled calls tree) os fd (λ n cs buf e h. h)
      type extra calls refl
