-- ===== src/Gpu.antt =====
-- GPU selection: the scoring of src/gpu_score.c and the candidates of src/gpu_discovery.c. What
-- libdrm and open(2) answer about a device is the device's description.
pub mod Best
pub mod Discovery
pub mod Closing
use playos_compositor.Base.{
  map, ℕ, ◌+◌, Bool, true, false, not, ◌||◌, ◌&&◌, Option, none, some, List, [], ◌∷◌, ◌==◌, ltb,
  if◌then◌else◌, get_elem?, codes, take, ◌++◌,
}

abbrev pub pci_vendor_amd : ℕ
pci_vendor_amd = 0x1002

abbrev pub pci_vendor_intel : ℕ
pci_vendor_intel = 0x8086

abbrev pub pci_vendor_nvidia : ℕ
pci_vendor_nvidia = 0x10de

-- struct playos_gpu_score_input.
pub record ScoreInput : Type 0 where
  pub vendor_id : ℕ
  pub has_connected_output : Bool
  pub is_edp : Bool

-- playos_gpu_score.
unfoldable pub gpu_score : ScoreInput → ℕ
gpu_score c =
    (if c.is_edp then 1000 else if c.has_connected_output then 500 else 0)
    + (if c.vendor_id == pci_vendor_amd
        then 300
        else if c.vendor_id == pci_vendor_intel
        then 100
        else 1)

-- best and best_score: `none` is the pair of -1 that the loop starts from.
abbrev pub beats : ℕ → Option (ℕ × ℕ) → Bool
beats s none = true
beats s (some (i, t)) = ltb t s

-- The loop of playos_gpu_select_index from index i on.
unfoldable pub select_from : ℕ → Option (ℕ × ℕ) → List ScoreInput → Option (ℕ × ℕ)
select_from i best [] = best
select_from i best (c ∷ cs) =
    select_from (i + 1) (if beats (gpu_score c) best then some (i, gpu_score c) else best) cs

abbrev pub index_of : Option (ℕ × ℕ) → Option ℕ
index_of none = none
index_of (some (i, s)) = some i

-- playos_gpu_select_index; `none` is -1.
unfoldable pub select_index : List ScoreInput → Option ℕ
unfolding select_from
select_index cs = index_of (select_from 0 none cs)

-- playos_gpu_vendor_name.
unfoldable pub vendor_name : ℕ → List ℕ
vendor_name v =
    if v == pci_vendor_amd
    then codes "AMD"
    else if v == pci_vendor_intel
    then codes "Intel"
    else if v == pci_vendor_nvidia
    then codes "NVIDIA"
    else codes "other"

-- A connector as drmModeGetConnectorCurrent returns it, or `none` for NULL.
pub record Connector : Type 0 where
  pub connected : Bool
  pub is_internal : Bool

-- The loop of device_has_connector: it stops at the first connected connector. The result is
-- whether there is one, and whether it is eDP or LVDS.
unfoldable pub device_has_connector : List (Option Connector) → Bool × Bool
device_has_connector [] = (false, false)
device_has_connector (none ∷ cs) = device_has_connector cs
device_has_connector (some c ∷ cs) =
    if c.connected then (true, c.is_internal) else device_has_connector cs

-- A DRM device: its primary and render nodes (`none` if the node is not available or its path is
-- NULL), its PCI identity (`none` off the PCI bus), and its connectors (`none` where the node cannot
-- be opened or has no resources).
pub record Device : Type 0 where
  pub has_primary : Bool
  pub primary_path : List ℕ
  pub render_path : List ℕ
  pub pci : Option (ℕ × ℕ)
  pub connectors : Option (List (Option Connector))

-- struct gpu_candidate.
pub record Candidate : Type 0 where
  pub primary_path : List ℕ
  pub render_path : List ℕ
  pub vendor_id : ℕ
  pub device_id : ℕ
  pub has_connected_output : Bool
  pub is_edp : Bool

abbrev vendor_of : Option (ℕ × ℕ) → ℕ
vendor_of none = 0
vendor_of (some (v, d)) = v

abbrev device_of : Option (ℕ × ℕ) → ℕ
device_of none = 0
device_of (some (v, d)) = d

abbrev outputs_of : Option (List (Option Connector)) → Bool × Bool
outputs_of none = (false, false)
outputs_of (some cs) = device_has_connector cs

-- The body of the evaluation loop of playos_gpu_discover; the paths fit in 256 bytes or are cut.
unfoldable pub candidate : Device → Candidate
unfolding device_has_connector
candidate d = record {
  primary_path = take 255 d.primary_path;
  render_path = take 255 d.render_path;
  vendor_id = vendor_of d.pci;
  device_id = device_of d.pci;
  has_connected_output = (outputs_of d.connectors).0;
  is_edp = (outputs_of d.connectors).1;
}

-- The evaluation loop: devices with no primary node are skipped. libdrm reports at most
-- PLAYOS_MAX_DRM_DEVICES devices.
unfoldable pub candidates : List Device → List Candidate
unfolding candidate
candidates [] = []
candidates (d ∷ ds) = if d.has_primary then candidate d ∷ candidates ds else candidates ds

abbrev pub score_input : Candidate → ScoreInput
score_input c = record {
  vendor_id = c.vendor_id;
  has_connected_output = c.has_connected_output;
  is_edp = c.is_edp;
}

-- struct playos_gpu, where it is valid; a descriptor that could not be opened is `none`.
pub record Gpu : Type 0 where
  pub card_fd : ℕ
  pub render_fd : Option ℕ
  pub card_path : List ℕ
  pub render_path : List ℕ
  pub pci_vendor_id : ℕ
  pub pci_device_id : ℕ

-- What open(2) answers for a path, read-write and read-only.
pub record Opens : Type 0 where
  pub read_write : List ℕ → Option ℕ
  pub read_only : List ℕ → Option ℕ

abbrev pub open_either : Opens → List ℕ → Option ℕ
open_either o path = elim (o.read_write path) [ some fd ↦ some fd | none ↦ o.read_only path ]

abbrev pub open_render : Opens → List ℕ → Option ℕ
open_render o [] = none
open_render o (b ∷ path) = open_either o (b ∷ path)

unfoldable pub open_candidate : Opens → Option Candidate → Option Gpu
open_candidate o none = none
open_candidate o (some c) = elim (o.read_write c.primary_path) [
  | none ↦ none
  | some fd ↦ some (record {
    card_fd = fd;
    render_fd = open_render o c.render_path;
    card_path = c.primary_path;
    render_path = c.render_path;
    pci_vendor_id = c.vendor_id;
    pci_device_id = c.device_id;
  })
]

abbrev pub at : List Candidate → Option ℕ → Option Candidate
at cs none = none
at cs (some i) = get_elem? cs i

-- playos_gpu_discover: `none` is -1 with gpu->valid false.
unfoldable pub gpu_discover : Opens → List Device → Option Gpu
unfolding candidates open_candidate select_index
gpu_discover o devices =
    let cs = candidates devices in open_candidate o (at cs (select_index (map score_input cs)))
