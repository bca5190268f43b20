-- ===== src/Outputs/Best.antt =====
-- The selected output: its connector is usable and unbeaten, and its mode is the largest.
use playos_compositor.Base.{
  ap, ℕ, zero, suc, ◌*◌, sym, subst, ◌+◌, ◌%◌, ◌≤◌, ◌<◌, ◌≡◌, refl, ◌⊎◌, inl, inr, true, false,
  ◌&&◌, Option, none, some, List, [], ◌∷◌, arith, ltb, if◌then◌else◌, get_elem?, All, Bool-cases,
}
use playos_compositor.Outputs.{
  DrmMode, DrmConnector, pixels, LargestMode, largest_from, largest_mode, connector_score,
  has_modes, BestConnector, improves, better, best_from, OutputConfig, config_of, select_again,
  select_from_fd,
}

-- How the loop over the modes ends: with what it began, which no mode exceeds, or with the index
-- and the size of a mode that none exceeds.
data LargestOutcome (m : ℕ) (best : LargestMode) (xs : List DrmMode) (r : LargestMode)
    : Type 0 where
  kept : r ≡ best → All (λ x. pixels x ≤ best.max_pixels) xs → LargestOutcome m best xs r
  taken :
      (k : ℕ) (x : DrmMode)
      → get_elem? xs k ≡ some x
      → r ≡ record { max_pixels = pixels x; best_m = m + k }
      → All (λ y. pixels y ≤ pixels x) xs
      → best.max_pixels < pixels x
      → LargestOutcome m best xs r

All-le :
    (a b : ℕ) (xs : List DrmMode) → a ≤ b → All (λ x. pixels x ≤ a) xs → All (λ x. pixels x ≤ b) xs
All-le a b [] h f = tt
All-le a b (x ∷ xs) h f = (omega arith, All-le a b xs h f.1)

larger-Outcome :
    (m : ℕ) (best : LargestMode) (x : DrmMode) (xs : List DrmMode) (r : LargestMode)
    → best.max_pixels < pixels x
    → LargestOutcome (m + 1) (record { max_pixels = pixels x; best_m = m }) xs r
    → LargestOutcome m best (x ∷ xs) r
larger-Outcome m best x xs r h (kept e f) = taken 0 x refl (ground arith) (omega arith, f) h
larger-Outcome m best x xs r h (taken k y g e f l) =
    taken (suc k) y g (ground arith) (omega arith, f) (omega arith)

smaller-Outcome :
    (m : ℕ) (best : LargestMode) (x : DrmMode) (xs : List DrmMode) (r : LargestMode)
    → pixels x ≤ best.max_pixels
    → LargestOutcome (m + 1) best xs r
    → LargestOutcome m best (x ∷ xs) r
smaller-Outcome m best x xs r h (kept e f) = kept e (h, f)
smaller-Outcome m best x xs r h (taken k y g e f l) =
    taken (suc k) y g (ground arith) (omega arith, f) l

ltb-cases : (a b : ℕ) → ((ltb a b ≡ true) × (a < b)) ⊎ ((ltb a b ≡ false) × (b ≤ a))
ltb-cases a b = ground arith

largest_from-Outcome :
    (m : ℕ) (best : LargestMode) (xs : List DrmMode)
    → LargestOutcome m best xs (largest_from m best xs)
unfolding largest_from
largest_from-Outcome m best [] = kept refl tt
largest_from-Outcome m best (x ∷ xs) = elim (ltb-cases best.max_pixels (pixels x)) [
  | inl (t, l) ↦ rw t (
      larger-Outcome m best x xs _ l
        (largest_from-Outcome (m + 1) (record { max_pixels = pixels x; best_m = m }) xs))
  | inr (t, l) ↦ rw t (smaller-Outcome m best x xs _ l (largest_from-Outcome (m + 1) best xs))
]

-- The mode that a connector with modes is scored by is one of its modes, its size is the recorded
-- one, and no mode of the connector has more pixels.
pub record IsLargest (modes : List DrmMode) (i : ℕ) (x : DrmMode) : Type 0 where
  pub found : get_elem? modes i ≡ some x
  pub sized : (largest_mode modes).max_pixels ≡ pixels x
  pub unbeaten : All (λ y. pixels y ≤ pixels x) modes

largest_of_Outcome :
    (x : DrmMode) (xs : List DrmMode) (r : LargestMode)
    → LargestOutcome 0 (record { max_pixels = 0; best_m = 0 }) (x ∷ xs) r
    → (y : DrmMode) × (get_elem? (x ∷ xs) r.best_m ≡ some y)
      × (r.max_pixels ≡ pixels y)
      × All (λ z. pixels z ≤ pixels y) (x ∷ xs)
largest_of_Outcome x xs r (kept e f) =
    let size : r.max_pixels ≡ 0 = ap (λ (q : LargestMode). q.max_pixels) e in
    let index : r.best_m ≡ 0 = ap (λ (q : LargestMode). q.best_m) e in
    (x, rw index refl, omega arith, All-le 0 (pixels x) (x ∷ xs) (omega arith) f)
largest_of_Outcome x xs r (taken k y g e f l) =
    let index : r.best_m ≡ k = omega (arith, ap (λ (q : LargestMode). q.best_m) e) in
    (y, rw index g, ap (λ (q : LargestMode). q.max_pixels) e, f)

pub largest_mode-IsLargest :
    (x : DrmMode) (xs : List DrmMode)
    → (y : DrmMode) × IsLargest (x ∷ xs) (largest_mode (x ∷ xs)).best_m y
unfolding largest_mode
largest_mode-IsLargest x xs =
    let (y, found, sized, unbeaten) =
      largest_of_Outcome x xs _ (largest_from-Outcome 0 _ (x ∷ xs)) in
    (y, record { found = found; sized = sized; unbeaten = unbeaten })

-- What a connector counts for: nothing, if it is absent, disconnected or without a mode.
unfoldable pub rank : Option DrmConnector → ℕ
rank none = 0
rank (some c) = if c.connected && has_modes c.modes then connector_score c else 0

rank_of : Option BestConnector → ℕ
rank_of none = 0
rank_of (some b) = b.score

-- How the loop over the connectors ends.
data BestOutcome (i : ℕ) (best : Option BestConnector) (cs : List (Option DrmConnector))
    (r : Option BestConnector) : Type 0 where
  kept : r ≡ best → All (λ d. rank d ≤ rank_of best) cs → BestOutcome i best cs r
  taken :
      (k : ℕ) (c : DrmConnector)
      → get_elem? cs k ≡ some (some c)
      → (c.connected && has_modes c.modes) ≡ true
      → r
        ≡ some (record {
          score = connector_score c;
          conn_idx = i + k;
          mode_idx = (largest_mode c.modes).best_m;
        })
      → All (λ d. rank d ≤ connector_score c) cs
      → rank_of best < connector_score c
      → BestOutcome i best cs r

All-rank_le :
    (a b : ℕ) (cs : List (Option DrmConnector))
    → a ≤ b
    → All (λ d. rank d ≤ a) cs
    → All (λ d. rank d ≤ b) cs
All-rank_le a b [] h f = tt
All-rank_le a b (c ∷ cs) h f = (omega arith, All-rank_le a b cs h f.1)

connector_score_pos : (c : DrmConnector) → 0 < connector_score c
unfolding connector_score
connector_score_pos c = ground arith

-- What the body of the loop makes of the best so far.
better_cases :
    (i : ℕ) (d : DrmConnector) (best : Option BestConnector)
    → ((better i (some d) best ≡ best) × (rank (some d) ≤ rank_of best))
      ⊎ (((d.connected && has_modes d.modes) ≡ true)
          × (better i (some d) best
              ≡ some (record {
                score = connector_score d;
                conn_idx = i;
                mode_idx = (largest_mode d.modes).best_m;
              }))
          × (rank_of best < connector_score d))
unfolding rank rank_of
better_cases i d best =
    elim (Bool-cases (d.connected && (has_modes d.modes && improves (connector_score d) best))) [
      | inl e ↦ inr (ground arith, rw e refl, ground (arith, connector_score_pos d))
      | inr e ↦ inl (rw e refl, ground arith)
    ]

better_taken :
    (i : ℕ) (best : Option BestConnector) (d : DrmConnector) (cs : List (Option DrmConnector))
    (r : Option BestConnector)
    → (d.connected && has_modes d.modes) ≡ true
    → rank_of best < connector_score d
    → BestOutcome
        (i + 1)
        (some (record {
          score = connector_score d;
          conn_idx = i;
          mode_idx = (largest_mode d.modes).best_m;
        }))
        cs
        r
    → BestOutcome i best (some d ∷ cs) r
unfolding rank rank_of
better_taken i best d cs r u l (kept e f) = taken 0 d refl u (ground arith) (ground arith, f) l
better_taken i best d cs r u l (taken k c g v e f m) =
    taken (suc k) c g v (ground arith) (ground arith, f) (omega arith)

better_kept :
    (i : ℕ) (best : Option BestConnector) (d : Option DrmConnector)
    (cs : List (Option DrmConnector)) (r : Option BestConnector)
    → rank d ≤ rank_of best
    → BestOutcome (i + 1) best cs r
    → BestOutcome i best (d ∷ cs) r
better_kept i best d cs r l (kept e f) = kept e (l, f)
better_kept i best d cs r l (taken k c g v e f m) =
    taken (suc k) c g v (ground arith) (omega arith, f) m

best_from-Outcome :
    (i : ℕ) (best : Option BestConnector) (cs : List (Option DrmConnector))
    → BestOutcome i best cs (best_from i best cs)
unfolding best_from rank
best_from-Outcome i best [] = kept refl tt
best_from-Outcome i best (none ∷ cs) =
    better_kept i best none cs _ (omega arith) (best_from-Outcome (i + 1) best cs)
best_from-Outcome i best (some d ∷ cs) = elim (better_cases i d best) [
  | inl (e, l) ↦ rw e (better_kept i best (some d) cs _ l (best_from-Outcome (i + 1) best cs))
  | inr (u, b, l) ↦ rw b (better_taken i best d cs _ u l (best_from-Outcome (i + 1) _ cs))
]

-- The second read of a connector, where nothing has changed since the first.
unfoldable pub reread : List (Option DrmConnector) → ℕ → Option DrmConnector
reread cs k = elim (get_elem? cs k) [ none ↦ none | some c ↦ c ]

-- Every mode has a number of pixels that an int holds.
abbrev pub ModesFit : List DrmMode → Type 0
ModesFit = All λ x. x.hdisplay * x.vdisplay < 2147483648

abbrev pub ConnectorFits : Option DrmConnector → Type 0
ConnectorFits none = Unit {0}
ConnectorFits (some c) = ModesFit c.modes

pixels-eq :
    (m : DrmMode) → m.hdisplay * m.vdisplay < 2147483648 → pixels m ≡ m.hdisplay * m.vdisplay
pixels-eq m h =
    let whole : m.hdisplay * m.vdisplay % 4294967296 ≡ m.hdisplay * m.vdisplay = omega arith in
    ground arith

get-ModesFit :
    (modes : List DrmMode) (i : ℕ) (m : DrmMode)
    → ModesFit modes
    → get_elem? modes i ≡ some m
    → m.hdisplay * m.vdisplay < 2147483648
get-ModesFit [] i m f h = cc
get-ModesFit (x ∷ xs) zero m f h = let e : x ≡ m = cc in ground arith
get-ModesFit (x ∷ xs) (suc i) m f h = get-ModesFit xs i m f.1 h

get-ConnectorFits :
    (cs : List (Option DrmConnector)) (k : ℕ) (c : DrmConnector)
    → All ConnectorFits cs
    → get_elem? cs k ≡ some (some c)
    → ModesFit c.modes
get-ConnectorFits [] k c f h = cc
get-ConnectorFits (x ∷ xs) zero c f h = let e : x ≡ some c = cc in subst ConnectorFits e f.0
get-ConnectorFits (x ∷ xs) (suc k) c f h = get-ConnectorFits xs k c f.1 h

-- Where nothing overflows, the greatest of the computed products is the greatest number of pixels.
fit_unbeaten :
    (modes : List DrmMode) (m : DrmMode)
    → ModesFit modes
    → m.hdisplay * m.vdisplay < 2147483648
    → All (λ x. pixels x ≤ pixels m) modes
    → All (λ x. x.hdisplay * x.vdisplay ≤ m.hdisplay * m.vdisplay) modes
fit_unbeaten [] m f g h = tt
fit_unbeaten (x ∷ xs) m f g h =
    (rw (sym (pixels-eq x f.0), sym (pixels-eq m g)) h.0, fit_unbeaten xs m f.1 g h.1)

-- A selection from the connectors: none, and no connector is usable; or a mode of a usable
-- connector, where no connector ranks higher and no mode of the connector has more pixels.
pub data Chosen (cs : List (Option DrmConnector)) (r : Option OutputConfig) : Type 0 where
  nothing : r ≡ none → All (λ d. rank d ≤ 0) cs → Chosen cs r
  chosen :
      (k i : ℕ) (c : DrmConnector) (m : DrmMode)
      → r ≡ some (config_of c m)
      → get_elem? cs k ≡ some (some c)
      → (c.connected && has_modes c.modes) ≡ true
      → get_elem? c.modes i ≡ some m
      → All (λ d. rank d ≤ rank (some c)) cs
      → All (λ x. x.hdisplay * x.vdisplay ≤ m.hdisplay * m.vdisplay) c.modes
      → Chosen cs r

has_modes-IsLargest :
    (modes : List DrmMode)
    → has_modes modes ≡ true
    → (y : DrmMode) × IsLargest modes (largest_mode modes).best_m y
has_modes-IsLargest [] h = cc
has_modes-IsLargest (x ∷ xs) h = largest_mode-IsLargest x xs

BestOutcome-Chosen :
    (cs : List (Option DrmConnector)) (r : Option BestConnector)
    → All ConnectorFits cs
    → BestOutcome 0 none cs r
    → Chosen cs (select_again (reread cs) r)
unfolding select_again rank_of rank reread
BestOutcome-Chosen cs r fits (kept e f) = nothing (rw e refl) f
BestOutcome-Chosen cs r fits (taken k c g v e f l) =
    let (m, w) = has_modes-IsLargest c.modes (ground arith) in
    let modes_fit = get-ConnectorFits cs k c fits g in
    let m_fits = get-ModesFit c.modes (largest_mode c.modes).best_m m modes_fit w.found in
    chosen k (largest_mode c.modes).best_m c m (ground (arith, w.found)) g v w.found
      (All-rank_le (connector_score c) (rank (some c)) cs (ground arith) f)
      (fit_unbeaten c.modes m modes_fit m_fits w.unbeaten)

-- If the connectors do not change between the two reads and no mode has 2 ^ 31 pixels or more, the selected configuration is that of a
-- connected connector and of one of its modes, such that no usable connector scores higher and no
-- mode of that connector has more pixels; and no configuration is selected only if no connector is
-- connected with a mode.
pub select_from_fd-Chosen :
    (cs : List (Option DrmConnector))
    → All ConnectorFits cs
    → Chosen cs (select_from_fd (some cs) (reread cs))
unfolding select_from_fd
select_from_fd-Chosen cs fits = BestOutcome-Chosen cs _ fits (best_from-Outcome 0 none cs)
