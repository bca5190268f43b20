-- ===== src/Devices/Fallback.antt =====
-- When the compositor gives up on the display, and which device it drives otherwise.
use playos_compositor.Base.{
  ap, ◌∙◌, ◌==◌, inl, inr, Bool-cases, ℕ, zero, suc, ◌+◌, ◌<◌, ◌≤◌, ◌≡◌, refl, Option, none, some,
  List, [], ◌∷◌, ◌++◌, arith, All,
}
use playos_compositor.Compositor.{Output}
use playos_compositor.Gpu.{Gpu}
use playos_compositor.Foreground.{snprintf}
use playos_compositor.Devices.{
  Drm, Card, Display, accelerated, software, headless_fallback, wait_for_gpu, usable_card,
  first_card, probe_entries, probe_drm_card, software_display, gpu_display, choose_display,
  configured, sized, size_of,
}

-- How the wait ends: with the first attempt that finds a GPU, or with none.
data Waited (discover : ℕ → Option Gpu) (lo hi : ℕ) (r : Option Gpu) : Type 0 where
  found :
      (n : ℕ) (g : Gpu)
      → lo ≤ n
      → n < hi
      → discover n ≡ some g
      → ((k : ℕ) → lo ≤ k → k < n → discover k ≡ none)
      → r ≡ some g
      → Waited discover lo hi r
  given_up : ((k : ℕ) → lo ≤ k → k < hi → discover k ≡ none) → r ≡ none → Waited discover lo hi r

none-from :
    (discover : ℕ → Option Gpu) (n hi : ℕ)
    → discover n ≡ none
    → ((k : ℕ) → n + 1 ≤ k → k < hi → discover k ≡ none)
    → (k : ℕ) → n ≤ k
    → k < hi
    → discover k ≡ none
none-from discover n hi e f k a b = elim (Bool-cases (k == n)) [
  | inl q ↦ let same : k ≡ n = ground arith in rw same e
  | inr q ↦ f k (ground arith) b
]

Waited-earlier :
    (discover : ℕ → Option Gpu) (n hi : ℕ) (v r : Option Gpu)
    → n < hi
    → discover n ≡ v
    → Waited discover (n + 1) hi r
    → Waited discover n hi (elim v [ some g ↦ some g | none ↦ r ])
Waited-earlier discover n hi (some g) r l e w =
    found n g (omega arith) l e (λ k a b. absurd (omega arith)) refl
Waited-earlier discover n hi none r l e (found m g a b d f q) =
    found m g (omega arith) b d (none-from discover n m e f) q
Waited-earlier discover n hi none r l e (given_up f q) = given_up (none-from discover n hi e f) q

wait_for_gpu-Waited :
    (discover : ℕ → Option Gpu) (left n hi : ℕ)
    → hi ≡ left + n
    → Waited discover n hi (wait_for_gpu discover left n)
unfolding wait_for_gpu
wait_for_gpu-Waited discover zero n hi h = given_up (λ k a b. absurd (omega arith)) refl
wait_for_gpu-Waited discover (suc left) n hi h =
    Waited-earlier discover n hi (discover n) _ (omega arith) refl
      (wait_for_gpu-Waited discover left (n + 1) hi (omega arith))

-- How the loop over /dev/dri ends: at the first entry that is a usable card, or with none.
data Probed (d : Drm) (names : List (List ℕ)) (r : Option Card) : Type 0 where
  at_entry :
      (before after : List (List ℕ)) (name : List ℕ) (card : Card)
      → names ≡ before ++ name ∷ after
      → usable_card d name ≡ some card
      → All (λ x. usable_card d x ≡ none) before
      → r ≡ some card
      → Probed d names r
  no_entry : All (λ x. usable_card d x ≡ none) names → r ≡ none → Probed d names r

Probed-later :
    (d : Drm) (name : List ℕ) (names : List (List ℕ)) (v r : Option Card)
    → usable_card d name ≡ v
    → Probed d names r
    → Probed d (name ∷ names) (elim v [ some card ↦ some card | none ↦ r ])
Probed-later d name names (some card) r e p = at_entry [] names name card refl e tt refl
Probed-later d name names none r e (at_entry before after x card s u f q) =
    at_entry (name ∷ before) after x card (ap (◌∷◌ name) s) u (e, f) q
Probed-later d name names none r e (no_entry f q) = no_entry (e, f) q

first_card-Probed : (d : Drm) (names : List (List ℕ)) → Probed d names (first_card d names)
unfolding first_card
first_card-Probed d [] = no_entry tt refl
first_card-Probed d (name ∷ names) =
    Probed-later d name names (usable_card d name) _ refl (first_card-Probed d names)

-- No card of /dev/dri can be used, or the directory cannot be read.
abbrev pub NoCard : Drm → Option (List (List ℕ)) → Type 0
NoCard d none = Unit {0}
NoCard d (some names) = All (λ x. usable_card d x ≡ none) names

-- The display that a machine gets: the GPU of the first of ten attempts that finds one; else the
-- GPU of one more attempt; else the first usable card; else none.
pub data Given (d : Drm) (o : Output) (r : Display) : Type 0 where
  by_gpu :
      (n : ℕ) (g : Gpu)
      → n < 10
      → d.discover n ≡ some g
      → ((k : ℕ) → k < n → d.discover k ≡ none)
      → r ≡ accelerated g.card_path (configured o (d.select g.card_fd))
      → Given d o r
  by_late_gpu :
      (g : Gpu)
      → ((k : ℕ) → k < 10 → d.discover k ≡ none)
      → d.discover 10 ≡ some g
      → r ≡ software (snprintf 64 g.card_path) (sized o (size_of (d.select g.card_fd)))
      → Given d o r
  by_card :
      (before after : List (List ℕ)) (name : List ℕ) (card : Card)
      → ((k : ℕ) → k < 11 → d.discover k ≡ none)
      → d.entries ≡ some (before ++ name ∷ after)
      → usable_card d name ≡ some card
      → All (λ x. usable_card d x ≡ none) before
      → r ≡ software card.path (sized o card.size)
      → Given d o r
  by_nothing :
      ((k : ℕ) → k < 11 → d.discover k ≡ none)
      → NoCard d d.entries
      → r ≡ headless_fallback
      → Given d o r

none-before :
    (discover : ℕ → Option Gpu)
    → ((k : ℕ) → 0 ≤ k → k < 10 → discover k ≡ none)
    → discover 10 ≡ none
    → (k : ℕ) → k < 11
    → discover k ≡ none
none-before discover f e k l = elim (Bool-cases (k == 10)) [
  | inl q ↦ let same : k ≡ 10 = ground arith in rw same e
  | inr q ↦ f k (omega arith) (ground arith)
]

entries-Given :
    (d : Drm) (o : Output) (es : Option (List (List ℕ)))
    → d.entries ≡ es
    → ((k : ℕ) → k < 11 → d.discover k ≡ none)
    → Given d o (software_display o (probe_entries d es))
unfolding software_display probe_entries
entries-Given d o none e f = by_nothing f (rw e tt) refl
entries-Given d o (some names) e f = elim (first_card-Probed d names) [
  | at_entry before after name card s u g q ↦
      by_card before after name card f (e ∙ ap some s) u g (rw q refl)
  | no_entry g q ↦ by_nothing f (rw e g) (rw q refl)
]

late-Given :
    (d : Drm) (o : Output) (v : Option Gpu)
    → d.discover 10 ≡ v
    → ((k : ℕ) → 0 ≤ k → k < 10 → d.discover k ≡ none)
    → Given d o (software_display o (probe_drm_card d v))
unfolding software_display probe_drm_card
late-Given d o (some g) e f = by_late_gpu g (λ k l. f k (omega arith) l) e refl
late-Given d o none e f = entries-Given d o d.entries refl (none-before d.discover f e)

-- Whatever the machine answers, the display is that of the first of ten attempts at discovery that
-- finds a GPU, with the output that is selected on it; after ten failures, that of one more attempt;
-- else that of the first card in /dev/dri that opens and has an output; and the compositor goes on
-- without one only if every attempt failed and no card is usable.
pub choose_display-Given : (d : Drm) (o : Output) → Given d o (choose_display d o)
unfolding choose_display gpu_display
choose_display-Given d o = elim (wait_for_gpu-Waited d.discover 10 0 10 (omega arith)) [
  | found n g a b e f q ↦ by_gpu n g b e (λ k l. f k (omega arith) l) (rw q refl)
  | given_up f q ↦ rw q (late-Given d o (d.discover 10) refl f)
]
