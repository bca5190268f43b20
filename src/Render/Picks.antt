-- ===== src/Render/Picks.antt =====
-- The mode that handle_new_output of src/compositor.c sets on a new output.
use playos_compositor.Base.{
  ap, ◌≡◌, refl, Bool, true, false, ◌&&◌, Option, none, some, List, [], ◌∷◌, ◌++◌, inl, inr, All,
  if◌then◌else◌, Bool-cases,
}
use playos_compositor.Compositor.{Output}
use playos_compositor.Render.{
  Mode, matches_output, first_mode, is_discovered, or_preferred, pick_mode,
}

-- The first mode of a list that passes a test, with the modes before and behind it.
pub record IsFirst (test : Mode → Bool) (modes : List Mode) (m : Mode) : Type 0 where
  pub before : List Mode
  pub after : List Mode
  pub split : modes ≡ before ++ m ∷ after
  pub passes : test m ≡ true
  pub earlier : All (λ x. test x ≡ false) before

-- Whether a mode is the one that the selection of the output has found.
abbrev pub is_wanted : Output → Mode → Bool
is_wanted o m = is_discovered o && matches_output o m

-- A mode picked for an output: the first wanted one; or the first preferred one, where none is
-- wanted; or none, where none is wanted and none preferred.
pub data Picked (o : Output) (modes : List Mode) (r : Option Mode) : Type 0 where
  wanted : (m : Mode) → r ≡ some m → IsFirst (is_wanted o) modes m → Picked o modes r
  preferred :
      (m : Mode)
      → r ≡ some m
      → All (λ x. is_wanted o x ≡ false) modes
      → IsFirst (λ x. x.preferred) modes m
      → Picked o modes r
  left :
      r ≡ none
      → All (λ x. is_wanted o x ≡ false) modes
      → All (λ x. x.preferred ≡ false) modes
      → Picked o modes r

data Search (test : Mode → Bool) (modes : List Mode) (r : Option Mode) : Type 0 where
  found : (m : Mode) → r ≡ some m → IsFirst test modes m → Search test modes r
  missing : r ≡ none → All (λ x. test x ≡ false) modes → Search test modes r

Search-later :
    (test : Mode → Bool) (x : Mode) (xs : List Mode) (r : Option Mode)
    → test x ≡ false
    → Search test xs r
    → Search test (x ∷ xs) r
Search-later test x xs r h (found m e f) = found m e (record {
  before = x ∷ f.before;
  after = f.after;
  split = ap (◌∷◌ x) f.split;
  passes = f.passes;
  earlier = (h, f.earlier);
})
Search-later test x xs r h (missing e f) = missing e (h, f)

first_mode-Search :
    (test : Mode → Bool) (modes : List Mode) → Search test modes (first_mode test modes)
unfolding first_mode
first_mode-Search test [] = missing refl tt
first_mode-Search test (x ∷ xs) = elim (Bool-cases (test x)) [
  | inl e ↦
      rw e
        (found x refl (record { before = []; after = xs; split = refl; passes = e; earlier = tt }))
  | inr e ↦ rw e (Search-later test x xs _ e (first_mode-Search test xs))
]

All-none : (modes : List Mode) → All (λ x. false ≡ false) modes
All-none [] = tt
All-none (x ∷ xs) = (refl, All-none xs)

-- The search for the wanted mode, which is made only if something was discovered.
guarded-Search :
    (b : Bool) (test : Mode → Bool) (modes : List Mode)
    → Search (λ m. b && test m) modes (if b then first_mode test modes else none)
guarded-Search true test modes = first_mode-Search test modes
guarded-Search false test modes = missing refl (All-none modes)

-- On the DRM backend the mode that is set is the first one of the discovered size and rate; if there
-- is none, or nothing was discovered, the first preferred one; and none is set where there is neither.
pub pick_mode-Picked : (o : Output) (modes : List Mode) → Picked o modes (pick_mode o modes)
unfolding pick_mode or_preferred
pick_mode-Picked o modes = elim (guarded-Search (is_discovered o) (matches_output o) modes) [
  | found m e f ↦ wanted m (rw e refl) f
  | missing e f ↦ elim (first_mode-Search (λ x. x.preferred) modes) [
    | found m d g ↦ preferred m (rw e d) f g
    | missing d g ↦ left (rw e d) f g
  ]
]
