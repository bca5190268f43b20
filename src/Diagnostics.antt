-- ===== src/Diagnostics.antt =====
-- The log of src/diagnostics.c, with the phases of src/diagnostics.h. The C library formats numbers,
-- reads the clock and names errors; it is a parameter.
pub mod Session
use playos_compositor.Base.{
  ℕ, ◌-◌, Bool, true, false, List, [], ◌∷◌, ◌++◌, String, codes, length, take, zero, suc, ◌/◌,
  if◌then◌else◌,
}
use playos_compositor.Gpu.{vendor_name}
use playos_compositor.Renderer.{RendererInfo}

-- enum playos_diag_phase.
pub data Phase : Type 0 where
  init_phase gpu_discovery_phase backend_start_phase renderer_init_phase : Phase
  output_setup_phase fallback_phase running_phase : Phase

-- struct playos_gpu_info.
pub record GpuInfo : Type 0 where
  pub card_path : List ℕ
  pub render_path : List ℕ
  pub connector_name : List ℕ
  pub pci_vendor_id : ℕ
  pub pci_device_id : ℕ
  pub mode_width : ℕ
  pub mode_height : ℕ
  pub mode_refresh_mhz : ℕ
  pub is_edp : Bool

pub data Stream : Type 0 where
  stderr logfile : Stream

-- What the log does to the outside.
pub data Write : Type 0 where
  opens closes : Write
  puts : Stream → List ℕ → Write

-- The formats %d, %04x and %09ld, the monotonic clock, and strerror of errno with its number.
pub record Libc : Type 0 where
  pub decimal : ℕ → List ℕ
  pub hex4 : ℕ → List ℕ
  pub nine_digits : ℕ → List ℕ
  pub seconds : List Write → ℕ
  pub nanoseconds : List Write → ℕ
  pub errno : List Write → ℕ
  pub strerror : ℕ → List ℕ
  pub pid : ℕ

-- diag_logfile (whether it is not NULL), diag_initialized, and what was done, the latest first.
pub record Log : Type 0 where
  pub has_file : Bool
  pub initialized : Bool
  pub writes : List Write

abbrev pub phase_name : Phase → List ℕ
phase_name init_phase = codes "INIT"
phase_name gpu_discovery_phase = codes "GPU_DISCOVERY"
phase_name backend_start_phase = codes "BACKEND_START"
phase_name renderer_init_phase = codes "RENDERER_INIT"
phase_name output_setup_phase = codes "OUTPUT_SETUP"
phase_name fallback_phase = codes "FALLBACK"
phase_name running_phase = codes "RUNNING"

abbrev spaces : ℕ → List ℕ
spaces zero = []
spaces (suc n) = 32 ∷ spaces n

-- The format %-ns.
abbrev pub padded : ℕ → List ℕ → List ℕ
padded width text = text ++ spaces (width - length text)

-- What a format string with these parts prints.
abbrev pub printed : List (List ℕ) → List ℕ
printed [] = []
printed (part ∷ parts) = part ++ printed parts

abbrev pub yes_or : String → Bool → List ℕ
yes_or negative true = codes "yes"
yes_or negative false = codes negative

-- The name of a connector, or "none" where it is empty.
abbrev pub or_none : List ℕ → List ℕ
or_none [] = codes "none"
or_none (c ∷ cs) = c ∷ cs

abbrev pub out : Log → Stream
out l = if l.has_file then logfile else stderr

-- snprintf into the 512 bytes of a message.
abbrev pub message : List ℕ → List ℕ
message text = take 511 text

module _ (libc : Libc) where
  -- write_timestamp.
  abbrev pub timestamp : List Write → List ℕ
  timestamp ws = printed (
      codes "["
      ∷ libc.decimal (libc.seconds ws)
      ∷ codes "."
      ∷ libc.nine_digits (libc.nanoseconds ws)
      ∷ codes "] "
      ∷ [])

  abbrev pub entry : (level phase text : List ℕ) → List ℕ
  entry level phase text =
      printed (padded 6 level ∷ codes " [" ∷ padded 14 phase ∷ codes "] " ∷ text ∷ codes "\n" ∷ [])

  -- diag_write: the time and the line, to the file or to stderr.
  unfoldable pub diag_write : (level phase text : List ℕ) → Log → Log
  diag_write level phase text l = record l {
    writes = puts (out l) (timestamp l.writes ++ entry level phase text) ∷ l.writes;
  }

  -- The first line of a log.
  abbrev pub bootstrap : List Write → List ℕ
  bootstrap ws = printed (
      timestamp ws
      ∷ codes "playos-compositor v0.4.0 starting (pid="
      ∷ libc.decimal libc.pid
      ∷ codes ")\n"
      ∷ [])

  -- playos_diag_init; the flag says whether fopen succeeds. Its warnings to stderr are left out.
  unfoldable pub diag_init : Bool → Log → Log
  diag_init fopened l =
      let ws = if fopened then opens ∷ l.writes else l.writes in
      if l.initialized then l else record {
        has_file = fopened;
        initialized = true;
        writes = puts (if fopened then logfile else stderr) (bootstrap ws) ∷ ws;
      }

  -- playos_diag_log_phase.
  unfoldable pub diag_log_phase : Phase → List ℕ → Log → Log
  unfolding diag_write
  diag_log_phase phase text = diag_write (codes "PHASE") (phase_name phase) text

  -- playos_diag_log_gpu.
  unfoldable pub diag_log_gpu : GpuInfo → Log → Log
  unfolding diag_write vendor_name
  diag_log_gpu info = diag_write (codes "GPU") (codes "GPU_DISCOVERY") (
      message (
        printed (
          codes "card="
          ∷ info.card_path
          ∷ codes " render="
          ∷ info.render_path
          ∷ codes " vendor=0x"
          ∷ libc.hex4 info.pci_vendor_id
          ∷ codes "("
          ∷ vendor_name info.pci_vendor_id
          ∷ codes ") device=0x"
          ∷ libc.hex4 info.pci_device_id
          ∷ codes " connector="
          ∷ or_none info.connector_name
          ∷ codes " mode="
          ∷ libc.decimal info.mode_width
          ∷ codes "x"
          ∷ libc.decimal info.mode_height
          ∷ codes "@"
          ∷ libc.decimal (info.mode_refresh_mhz / 1000)
          ∷ codes "Hz eDP="
          ∷ yes_or "no" info.is_edp
          ∷ [])))

  -- playos_diag_log_renderer.
  unfoldable pub diag_log_renderer : RendererInfo → Log → Log
  unfolding diag_write
  diag_log_renderer info = diag_write (codes "RENDER") (codes "RENDERER_INIT") (
      message (
        printed (
          codes "renderer="
          ∷ info.renderer_name
          ∷ codes " vendor="
          ∷ info.vendor_name
          ∷ codes " GLES="
          ∷ info.gles_version
          ∷ codes " hw="
          ∷ yes_or "NO (software)" info.is_hardware
          ∷ codes " GBM="
          ∷ yes_or "NO" info.gbm_available
          ∷ codes " EGL="
          ∷ yes_or "NO" info.egl_available
          ∷ [])))

  -- playos_diag_fatal, less the -1 that it returns.
  unfoldable pub diag_fatal : Phase → List ℕ → Log → Log
  unfolding diag_write
  diag_fatal phase text l =
      let errno = libc.errno l.writes in
      diag_write (codes "FATAL") (phase_name phase)
        (message (
          printed (
            codes "FATAL: "
            ∷ text
            ∷ codes " (errno="
            ∷ libc.decimal errno
            ∷ codes ": "
            ∷ libc.strerror errno
            ∷ codes ")"
            ∷ [])))
        l

  -- playos_diag_log_fallback.
  unfoldable pub diag_log_fallback : (name reason : List ℕ) → Log → Log
  unfolding diag_write
  diag_log_fallback name reason = diag_write (codes "FALLBACK") (codes "FALLBACK") (
      message (
        printed
          (codes "entering fallback: " ∷ name ∷ codes " (reason: " ∷ reason ∷ codes ")" ∷ [])))

  -- playos_diag_fini.
  unfoldable pub diag_fini : Log → Log
  unfolding diag_write
  diag_fini l =
      let said =
        diag_write (codes "INFO") (codes "SHUTDOWN") (codes "compositor shutting down") l in
      if l.initialized
      then record {
        has_file = false;
        initialized = false;
        writes = if l.has_file then closes ∷ said.writes else said.writes;
      }
      else l
