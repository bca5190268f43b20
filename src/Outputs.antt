-- ===== src/Outputs.antt =====
-- Output selection (src/output_modes.c). What libdrm answers about the connectors is an argument.
pub mod Best
use playos_compositor.Base.{
  ℕ, ◌+◌, ◌*◌, ◌/◌, ◌%◌, Bool, true, false, ◌&&◌, Option, none, some, List, [], ◌∷◌, ◌==◌, ltb,
  if◌then◌else◌, get_elem?, codes,
}
use mathlib.Core.Option

-- The connector types that the code tells apart.
pub data ConnectorType : Type 0 where
  edp lvds dsi display_port hdmia hdmib vga dvii unnamed : ConnectorType

pub record DrmMode : Type 0 where
  pub hdisplay : ℕ
  pub vdisplay : ℕ
  pub vrefresh : ℕ

pub record DrmConnector : Type 0 where
  pub connected : Bool
  pub connector_type : ConnectorType
  pub type_id : ℕ
  pub modes : List DrmMode

abbrev pub is_internal_panel : ConnectorType → Bool
is_internal_panel edp = true
is_internal_panel lvds = true
is_internal_panel dsi = true
is_internal_panel _ = false

abbrev pub connector_type_name : ConnectorType → List ℕ
connector_type_name edp = codes "eDP"
connector_type_name lvds = codes "LVDS"
connector_type_name dsi = codes "DSI"
connector_type_name display_port = codes "DP"
connector_type_name hdmia = codes "HDMI-A"
connector_type_name hdmib = codes "HDMI-B"
connector_type_name vga = codes "VGA"
connector_type_name dvii = codes "DVI-I"
connector_type_name unnamed = codes "Other"

abbrev pub type_score : ConnectorType → ℕ
type_score edp = 1000
type_score lvds = 900
type_score dsi = 850
type_score _ = 100

-- hdisplay * vdisplay, two 16-bit fields, as an int. From 2 ^ 31 on it overflows, which C does not
-- define; it is taken to wrap. A negative product is 0 here, since it is only compared with a
-- product that is not negative, and is never greater.
abbrev pub pixels : DrmMode → ℕ
pixels m =
    let product = m.hdisplay * m.vdisplay % 4294967296 in
    if ltb product 2147483648 then product else 0

-- max_w * max_h and best_m.
pub record LargestMode : Type 0 where
  pub max_pixels : ℕ
  pub best_m : ℕ

-- The loop over the modes from index m on.
unfoldable pub largest_from : ℕ → LargestMode → List DrmMode → LargestMode
largest_from m best [] = best
largest_from m best (x ∷ xs) =
    largest_from (m + 1)
      (if ltb best.max_pixels (pixels x)
        then record { max_pixels = pixels x; best_m = m }
        else best)
      xs

unfoldable pub largest_mode : List DrmMode → LargestMode
unfolding largest_from
largest_mode modes = largest_from 0 (record { max_pixels = 0; best_m = 0 }) modes

unfoldable pub connector_score : DrmConnector → ℕ
unfolding largest_mode
connector_score c = type_score c.connector_type + (largest_mode c.modes).max_pixels / 100000

-- count_modes != 0.
abbrev pub has_modes : List DrmMode → Bool
has_modes [] = false
has_modes (m ∷ ms) = true

-- best_score, best_conn_idx and best_mode_idx; `none` is the initial -1 of each.
pub record BestConnector : Type 0 where
  pub score : ℕ
  pub conn_idx : ℕ
  pub mode_idx : ℕ

abbrev pub improves : ℕ → Option BestConnector → Bool
improves s none = true
improves s (some b) = ltb b.score s

abbrev pub better : ℕ → Option DrmConnector → Option BestConnector → Option BestConnector
better i none best = best
better i (some c) best =
    if c.connected && (has_modes c.modes && improves (connector_score c) best)
    then some (record {
      score = connector_score c;
      conn_idx = i;
      mode_idx = (largest_mode c.modes).best_m;
    })
    else best

-- The loop over the connectors from index i on.
unfoldable pub best_from :
    ℕ → Option BestConnector → List (Option DrmConnector) → Option BestConnector
best_from i best [] = best
best_from i best (c ∷ cs) = best_from (i + 1) (better i c best) cs

-- struct playos_output_config, where it is valid. The name is kept as its two parts.
pub record OutputConfig : Type 0 where
  pub width : ℕ
  pub height : ℕ
  pub refresh_mhz : ℕ
  pub scale_100 : ℕ
  pub is_edp : Bool
  pub type_name : List ℕ
  pub type_id : ℕ

abbrev pub config_of : DrmConnector → DrmMode → OutputConfig
config_of c m = record {
  width = m.hdisplay;
  height = m.vdisplay;
  refresh_mhz = m.vrefresh * 1000;
  scale_100 = 100;
  is_edp = is_internal_panel c.connector_type;
  type_name = connector_type_name c.connector_type;
  type_id = c.type_id;
}

-- The connector read again, and its mode; it fails where the index is out of range by now.
unfoldable pub read_config : Option DrmConnector → ℕ → Option OutputConfig
read_config none i = none
read_config (some c) i = Option.map (config_of c) (get_elem? c.modes i)

unfoldable pub select_again : (ℕ → Option DrmConnector) → Option BestConnector → Option OutputConfig
unfolding read_config
select_again again none = none
select_again again (some b) = read_config (again b.conn_idx) b.mode_idx

-- playos_output_select_from_fd. `none` for the connectors is a failed drmModeGetResources, and
-- `again` what the second read of a connector returns.
unfoldable pub select_from_fd :
    Option (List (Option DrmConnector)) → (ℕ → Option DrmConnector) → Option OutputConfig
unfolding best_from select_again
select_from_fd none again = none
select_from_fd (some connectors) again = select_again again (best_from 0 none connectors)
