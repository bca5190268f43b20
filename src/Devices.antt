-- ===== src/Devices.antt =====
-- The DRM device that playos_compositor_start of src/compositor.c drives: the retry loop around GPU
-- discovery, and compositor_probe_drm_card for a machine without an accelerated GPU.
pub mod Fallback
use playos_compositor.Base.{
  ℕ, zero, suc, ◌+◌, ◌<◌, Bool, true, false, ◌&&◌, Option, none, some, List, [], ◌∷◌, ◌++◌, codes,
  ltb, ◌==◌, if◌then◌else◌,
}
use playos_compositor.Compositor.{Output}
use playos_compositor.Foreground.{snprintf}
use playos_compositor.Gpu.{Gpu, Opens}
use playos_compositor.Outputs.{OutputConfig}

-- What the machine answers: GPU discovery by the number of the attempt, open(2), the selection of an
-- output on a descriptor, and the names in /dev/dri, `none` where opendir fails.
pub record Drm : Type 0 where
  pub discover : ℕ → Option Gpu
  pub opens : Opens
  pub select : ℕ → Option OutputConfig
  pub entries : Option (List (List ℕ))

-- The loop of playos_compositor_start: the attempts that are left, and the number of the next.
unfoldable pub wait_for_gpu : (ℕ → Option Gpu) → ℕ → ℕ → Option Gpu
wait_for_gpu discover zero n = none
wait_for_gpu discover (suc left) n =
    let rest = wait_for_gpu discover left (n + 1) in
    elim (discover n) [ some g ↦ some g | none ↦ rest ]

-- strncmp with the length of the prefix.
unfoldable pub starts_with : List ℕ → List ℕ → Bool
starts_with [] xs = true
starts_with (p ∷ ps) [] = false
starts_with (p ∷ ps) (x ∷ xs) = p == x && starts_with ps xs

-- The device that is driven, and the size of its output if one was selected.
pub record Card : Type 0 where
  pub path : List ℕ
  pub size : Option (ℕ × ℕ)

abbrev pub card_path : List ℕ → List ℕ
card_path name = snprintf 64 (codes "/dev/dri/" ++ name)

abbrev pub size_of : Option OutputConfig → Option (ℕ × ℕ)
size_of none = none
size_of (some cfg) = some (cfg.width, cfg.height)

-- The loop body over /dev/dri: a card that opens and has an output.
unfoldable pub usable_card : Drm → List ℕ → Option Card
usable_card d name =
    if starts_with (codes "card") name
    then elim (d.opens.read_write (card_path name)) [
      | none ↦ none
      | some fd ↦ elim (d.select fd) [
        | none ↦ none
        | some cfg ↦ some (record { path = card_path name; size = size_of (some cfg) })
      ]
    ]
    else none

unfoldable pub first_card : Drm → List (List ℕ) → Option Card
unfolding usable_card
first_card d [] = none
first_card d (name ∷ names) =
    let rest = first_card d names in
    elim (usable_card d name) [ some card ↦ some card | none ↦ rest ]

unfoldable pub probe_entries : Drm → Option (List (List ℕ)) → Option Card
unfolding first_card
probe_entries d none = none
probe_entries d (some names) = first_card d names

-- compositor_probe_drm_card, where discovery is tried once more.
unfoldable pub probe_drm_card : Drm → Option Gpu → Option Card
unfolding probe_entries
probe_drm_card d (some g) =
    some (record { path = snprintf 64 g.card_path; size = size_of (d.select g.card_fd) })
probe_drm_card d none = probe_entries d d.entries

-- What playos_compositor_start goes on with: the discovered GPU or the probed card, each with the
-- fields of the output, or no DRM device and the headless backend.
pub data Display : Type 0 where
  accelerated software : (path : List ℕ) → Output → Display
  headless_fallback : Display

unfoldable pub configured : Output → Option OutputConfig → Output
configured o none = o
configured o (some cfg) = record {
  width = cfg.width;
  height = cfg.height;
  refresh_mhz = cfg.refresh_mhz;
  scale_100 = cfg.scale_100;
}

-- The size is taken over if neither number is 0.
unfoldable pub sized : Output → Option (ℕ × ℕ) → Output
sized o none = o
sized o (some (w, h)) = if ltb 0 w && ltb 0 h then record o { width = w; height = h } else o

unfoldable pub software_display : Output → Option Card → Display
unfolding sized
software_display o none = headless_fallback
software_display o (some card) = software card.path (sized o card.size)

unfoldable pub gpu_display : Drm → Output → Option Gpu → Display
unfolding configured probe_drm_card software_display
gpu_display d o (some g) = accelerated g.card_path (configured o (d.select g.card_fd))
gpu_display d o none = software_display o (probe_drm_card d (d.discover 10))

-- The choice of the device on the DRM backend: ten attempts, then the probe.
unfoldable pub choose_display : Drm → Output → Display
unfolding wait_for_gpu gpu_display
choose_display d o = gpu_display d o (wait_for_gpu d.discover 10 0)
