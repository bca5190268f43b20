-- ===== src/Gpu/Best.antt =====
-- The selected GPU is the first of the best ones.
use playos_compositor.Base.{
  All, ◌++◌, subst, sym, ℕ, zero, suc, ◌+◌, ◌≤◌, ◌<◌, ◌≡◌, refl, ◌⊎◌, inl, inr, true, false, Option,
  none, some, List, [], ◌∷◌, arith, if◌then◌else◌, length,
}
use playos_compositor.Gpu.{
  Connector, ScoreInput, gpu_score, beats, select_from, index_of, select_index,
  device_has_connector,
}

pub gpu_score_bounds : (c : ScoreInput) → (1 ≤ gpu_score c) × (gpu_score c ≤ 1300)
unfolding gpu_score
gpu_score_bounds c = ground arith

-- How well a device drives a panel: an internal panel, another connected output, or none.
abbrev pub panel_class : ScoreInput → ℕ
panel_class c = if c.is_edp then 2 else if c.has_connected_output then 1 else 0

-- A device of a better class always scores higher, whatever the vendors are: an internal panel
-- beats every other output, and any connected output beats none. Every score is from 1 to 1300.
gpu_score_order :
    (c d : ScoreInput)
    → panel_class d < panel_class c
    → (1 ≤ gpu_score d) × (gpu_score d < gpu_score c) × (gpu_score c ≤ 1300)
unfolding gpu_score
gpu_score_order c d h = ground arith

-- The score at an index, with 0 for no candidate.
unfoldable pub score_at : List ScoreInput → ℕ → ℕ
score_at [] i = 0
score_at (c ∷ cs) zero = gpu_score c
score_at (c ∷ cs) (suc i) = score_at cs i

-- An index is the first with the greatest score.
pub record IsFirstBest (cs : List ScoreInput) (i : ℕ) : Type 0 where
  pub in_range : i < length cs
  pub greatest : (j : ℕ) → score_at cs j ≤ score_at cs i
  pub first : (j : ℕ) → j < i → score_at cs j < score_at cs i

abbrev pub Selected : List ScoreInput → Option ℕ → Type 0
Selected cs none = cs ≡ []
Selected cs (some i) = IsFirstBest cs i

abbrev best_score : Option (ℕ × ℕ) → ℕ
best_score none = 0
best_score (some (i, t)) = t

beats_iff :
    (c : ScoreInput) (best : Option (ℕ × ℕ))
    → ((beats (gpu_score c) best ≡ true) × (best_score best < gpu_score c))
      ⊎ ((beats (gpu_score c) best ≡ false) × (gpu_score c ≤ best_score best))
beats_iff c none = inl (refl, (gpu_score_bounds c).0)
beats_iff c (some (i, t)) = ground arith

-- How the loop ends: it keeps the best so far, or takes the first of the best that it meets.
data Outcome (i : ℕ) (best : Option (ℕ × ℕ)) (cs : List ScoreInput) (r : Option (ℕ × ℕ))
    : Type 0 where
  kept : r ≡ best → ((j : ℕ) → score_at cs j ≤ best_score best) → Outcome i best cs r
  taken :
      (k : ℕ)
      → r ≡ some (i + k, score_at cs k)
      → IsFirstBest cs k
      → best_score best < score_at cs k
      → Outcome i best cs r

score_at-cons_le :
    (c : ScoreInput) (cs : List ScoreInput) (n : ℕ)
    → gpu_score c ≤ n
    → ((j : ℕ) → score_at cs j ≤ n)
    → (j : ℕ) → score_at (c ∷ cs) j ≤ n
unfolding score_at
score_at-cons_le c cs n h f zero = h
score_at-cons_le c cs n h f (suc j) = f j

-- A best index of the tail is one of the whole list, if it beats the head.
IsFirstBest-suc :
    (c : ScoreInput) (cs : List ScoreInput) (k : ℕ)
    → gpu_score c < score_at cs k
    → IsFirstBest cs k
    → IsFirstBest (c ∷ cs) (suc k)
unfolding score_at
IsFirstBest-suc c cs k h b = record {
  in_range = omega (arith, b.in_range);
  greatest = score_at-cons_le c cs (score_at cs k) (omega arith) b.greatest;
  first = before;
}
  where
    before : (j : ℕ) → j < suc k → score_at (c ∷ cs) j < score_at (c ∷ cs) (suc k)
    before zero l = h
    before (suc j) l = b.first j (omega arith)

IsFirstBest-zero :
    (c : ScoreInput) (cs : List ScoreInput)
    → ((j : ℕ) → score_at cs j ≤ gpu_score c)
    → IsFirstBest (c ∷ cs) 0
unfolding score_at
IsFirstBest-zero c cs h = record {
  in_range = omega arith;
  greatest = score_at-cons_le c cs (gpu_score c) (omega arith) h;
  first = λ j l. absurd (omega arith);
}

after_taking :
    (i : ℕ) (best : Option (ℕ × ℕ)) (c : ScoreInput) (cs : List ScoreInput) (r : Option (ℕ × ℕ))
    → best_score best < gpu_score c
    → Outcome (i + 1) (some (i, gpu_score c)) cs r
    → Outcome i best (c ∷ cs) r
unfolding score_at
after_taking i best c cs r h (kept e f) = taken 0 (ground arith) (IsFirstBest-zero c cs f) h
after_taking i best c cs r h (taken k e b l) =
    taken (suc k) (ground arith) (IsFirstBest-suc c cs k l b) (omega arith)

after_keeping :
    (i : ℕ) (best : Option (ℕ × ℕ)) (c : ScoreInput) (cs : List ScoreInput) (r : Option (ℕ × ℕ))
    → gpu_score c ≤ best_score best
    → Outcome (i + 1) best cs r
    → Outcome i best (c ∷ cs) r
unfolding score_at
after_keeping i best c cs r h (kept e f) = kept e (score_at-cons_le c cs (best_score best) h f)
after_keeping i best c cs r h (taken k e b l) =
    taken (suc k) (ground arith) (IsFirstBest-suc c cs k (omega arith) b) l

select_from-Outcome :
    (i : ℕ) (best : Option (ℕ × ℕ)) (cs : List ScoreInput)
    → Outcome i best cs (select_from i best cs)
unfolding select_from score_at
select_from-Outcome i best [] = kept refl (λ j. omega arith)
select_from-Outcome i best (c ∷ cs) = elim (beats_iff c best) [
  | inl (t, l) ↦
      rw t (after_taking i best c cs _ l (select_from-Outcome (i + 1) (some (i, gpu_score c)) cs))
  | inr (f, l) ↦ rw f (after_keeping i best c cs _ l (select_from-Outcome (i + 1) best cs))
]

Outcome-Selected :
    (cs : List ScoreInput) (r : Option (ℕ × ℕ)) → Outcome 0 none cs r → Selected cs (index_of r)
unfolding score_at
Outcome-Selected cs r (taken k e b l) =
    let same : 0 + k ≡ k = omega arith in subst (λ q. Selected cs (index_of q)) (sym e) (rw same b)
Outcome-Selected [] r (kept e f) = subst (λ q. Selected [] (index_of q)) (sym e) refl
Outcome-Selected (c ∷ cs) r (kept e f) = absurd (omega (arith, f 0, (gpu_score_bounds c).0))

-- Whatever the candidates are, the selected index is in range, no candidate has a higher score, and
-- every earlier candidate has a lower one; no index is selected exactly when there is no candidate.
pub select_index-Selected : (cs : List ScoreInput) → Selected cs (select_index cs)
unfolding select_index
select_index-Selected cs = Outcome-Selected cs _ (select_from-Outcome 0 none cs)

abbrev pub IsUnconnected : Option Connector → Type 0
IsUnconnected none = Unit {0}
IsUnconnected (some c) = c.connected ≡ false

-- The loop over a card's connectors reports its first connected one: what stands behind it, an
-- internal panel too, is not looked at.
device_has_connector_first :
    (before after : List (Option Connector)) (c : Connector)
    → All IsUnconnected before
    → c.connected ≡ true
    → device_has_connector (before ++ some c ∷ after) ≡ (true, c.is_internal)
unfolding device_has_connector
device_has_connector_first [] after c h e = rw e
device_has_connector_first (none ∷ before) after c h e =
    device_has_connector_first before after c h.1 e
device_has_connector_first (some d ∷ before) after c h e =
    rw h.0 (device_has_connector_first before after c h.1 e)
