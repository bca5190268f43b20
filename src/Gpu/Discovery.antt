-- ===== src/Gpu/Discovery.antt =====
-- What playos_gpu_discover of src/gpu_discovery.c returns.
use playos_compositor.Base.{
  ℕ, zero, suc, ◌<◌, ◌≡◌, refl, Option, none, some, List, [], ◌∷◌, arith, length, map, get_elem?,
}
use playos_compositor.Gpu.{
  Device, Candidate, candidates, score_input, Gpu, Opens, open_render, open_candidate, at,
  gpu_discover,
}
use playos_compositor.Gpu.Best.{IsFirstBest, Selected, select_index-Selected}

-- The GPU that a candidate becomes once its primary node is open.
abbrev pub gpu_of : Opens → Candidate → ℕ → Gpu
gpu_of o c fd = record {
  card_fd = fd;
  render_fd = open_render o c.render_path;
  card_path = c.primary_path;
  render_path = c.render_path;
  pci_vendor_id = c.vendor_id;
  pci_device_id = c.device_id;
}

-- A result of discovery: no candidate at all; or the first of the best candidates, which could not
-- be opened for writing, so that there is no GPU; or that candidate, opened.
pub data Discovered (o : Opens) (cs : List Candidate) (r : Option Gpu) : Type 0 where
  empty : cs ≡ [] → r ≡ none → Discovered o cs r
  refused :
      (i : ℕ) (c : Candidate)
      → IsFirstBest (map score_input cs) i
      → get_elem? cs i ≡ some c
      → o.read_write c.primary_path ≡ none
      → r ≡ none
      → Discovered o cs r
  opened :
      (i : ℕ) (c : Candidate) (fd : ℕ)
      → IsFirstBest (map score_input cs) i
      → get_elem? cs i ≡ some c
      → o.read_write c.primary_path ≡ some fd
      → r ≡ some (gpu_of o c fd)
      → Discovered o cs r

inputs-nil : (cs : List Candidate) → map score_input cs ≡ [] → cs ≡ []
inputs-nil [] e = refl
inputs-nil (c ∷ cs) e = cc

inputs-get_elem? :
    (cs : List Candidate) (i : ℕ)
    → i < length (map score_input cs)
    → (c : Candidate) × (get_elem? cs i ≡ some c)
inputs-get_elem? [] i h = absurd (omega arith)
inputs-get_elem? (c ∷ cs) zero h = (c, refl)
inputs-get_elem? (c ∷ cs) (suc i) h = inputs-get_elem? cs i (omega arith)

opening-Discovered :
    (o : Opens) (cs : List Candidate) (i : ℕ) (c : Candidate) (v : Option ℕ)
    → IsFirstBest (map score_input cs) i
    → get_elem? cs i ≡ some c
    → o.read_write c.primary_path ≡ v
    → Discovered o cs (open_candidate o (some c))
unfolding open_candidate
opening-Discovered o cs i c none b g e = refused i c b g e (rw (open_candidate, e) refl)
opening-Discovered o cs i c (some fd) b g e = opened i c fd b g e (rw (open_candidate, e) refl)

Selected-Discovered :
    (o : Opens) (cs : List Candidate) (s : Option ℕ)
    → Selected (map score_input cs) s
    → Discovered o cs (open_candidate o (at cs s))
unfolding open_candidate
Selected-Discovered o cs none h = empty (inputs-nil cs h) refl
Selected-Discovered o cs (some i) h =
    let (c, g) = inputs-get_elem? cs i h.in_range in
    rw g (opening-Discovered o cs i c (o.read_write c.primary_path) h g refl)

-- Whatever devices there are and whatever can be opened, discovery takes the first of the best
-- candidates: it returns that GPU if its primary node opens for reading and writing, and none if it
-- does not, whatever the other candidates are; and none if there is no candidate.
pub gpu_discover-Discovered :
    (o : Opens) (devices : List Device) → Discovered o (candidates devices) (gpu_discover o devices)
unfolding gpu_discover
gpu_discover-Discovered o devices =
    Selected-Discovered o (candidates devices) _
      (select_index-Selected (map score_input (candidates devices)))
