-- ===== src/Diagnostics/Session.antt =====
-- The log's file over a whole run of calls to src/diagnostics.c.
use playos_compositor.Base.{
  ℕ, ◌≡◌, refl, Bool, true, false, Option, none, some, List, [], ◌∷◌, arith,
}
use playos_compositor.Renderer.{RendererInfo}
use playos_compositor.Diagnostics.{
  Phase, GpuInfo, Libc, Log, Write, opens, closes, puts, stderr, logfile, diag_write, diag_init,
  diag_log_phase, diag_log_gpu, diag_log_renderer, diag_fatal, diag_log_fallback, diag_fini, out,
}

-- A call of the log's interface; an initialisation says whether the file can be opened.
pub data LogCall : Type 0 where
  init : (fopened : Bool) → LogCall
  phase fatal : Phase → List ℕ → LogCall
  gpu : GpuInfo → LogCall
  renderer : RendererInfo → LogCall
  fallback : (name reason : List ℕ) → LogCall
  fini : LogCall

unfoldable pub log_call : Libc → LogCall → Log → Log
log_call libc (init fopened) l = diag_init libc fopened l
log_call libc (phase p text) l = diag_log_phase libc p text l
log_call libc (fatal p text) l = diag_fatal libc p text l
log_call libc (gpu info) l = diag_log_gpu libc info l
log_call libc (renderer info) l = diag_log_renderer libc info l
log_call libc (fallback name reason) l = diag_log_fallback libc name reason l
log_call libc fini l = diag_fini libc l

-- The static variables before any call.
abbrev pub no_log : Log
no_log = record { has_file = false; initialized = false; writes = [] }

-- The log after a list of calls, the latest first.
unfoldable pub log_after : Libc → List LogCall → Log
unfolding log_call
log_after libc [] = no_log
log_after libc (x ∷ xs) = log_call libc x (log_after libc xs)

-- One use of the file, from whether it is open: opened only while closed, closed and written only
-- while open. Lines to stderr are always allowed.
abbrev pub use_file : Write → Bool → Option Bool
use_file opens false = some true
use_file opens true = none
use_file closes true = some false
use_file closes false = none
use_file (puts logfile text) true = some true
use_file (puts logfile text) false = none
use_file (puts stderr text) held = some held

abbrev pub then_use : Write → Option Bool → Option Bool
then_use w none = none
then_use w (some held) = use_file w held

-- Whether the file is open after the uses, the latest first; `none` if one was not allowed.
unfoldable pub file_after : List Write → Option Bool
file_after [] = some false
file_after (w ∷ ws) = then_use w (file_after ws)

record LogInv (l : Log) : Type 0 where
  follows : file_after l.writes ≡ some l.has_file
  only_initialized : l.has_file ≡ true → l.initialized ≡ true

-- A line goes to where diag_write sends it.
puts-LogInv :
    (text : List ℕ) (l : Log)
    → LogInv l
    → LogInv (record l { writes = puts (out l) text ∷ l.writes })
unfolding file_after
puts-LogInv text l h = record {
  follows = ground (arith, h.follows);
  only_initialized = h.only_initialized;
}

diag_init-LogInv :
    (libc : Libc) (fopened : Bool) (l : Log) → LogInv l → LogInv (diag_init libc fopened l)
unfolding diag_init file_after
diag_init-LogInv libc fopened l h = record {
  follows = ground (arith, h.follows, h.only_initialized);
  only_initialized = ground (arith, h.only_initialized);
}

diag_fini-LogInv : (libc : Libc) (l : Log) → LogInv l → LogInv (diag_fini libc l)
unfolding diag_fini diag_write file_after
diag_fini-LogInv libc l h = record {
  follows = ground (arith, h.follows, h.only_initialized);
  only_initialized = ground (arith, h.only_initialized);
}

log_call-LogInv : (libc : Libc) (x : LogCall) (l : Log) → LogInv l → LogInv (log_call libc x l)
unfolding log_call diag_log_phase diag_log_gpu diag_log_renderer diag_fatal diag_log_fallback
    diag_write
log_call-LogInv libc (init fopened) l h = diag_init-LogInv libc fopened l h
log_call-LogInv libc (phase p text) l h = puts-LogInv _ l h
log_call-LogInv libc (fatal p text) l h = puts-LogInv _ l h
log_call-LogInv libc (gpu info) l h = puts-LogInv _ l h
log_call-LogInv libc (renderer info) l h = puts-LogInv _ l h
log_call-LogInv libc (fallback name reason) l h = puts-LogInv _ l h
log_call-LogInv libc fini l h = diag_fini-LogInv libc l h

log_after-LogInv : (libc : Libc) (xs : List LogCall) → LogInv (log_after libc xs)
unfolding log_after file_after
log_after-LogInv libc [] = record { follows = refl; only_initialized = λ h. cc }
log_after-LogInv libc (x ∷ xs) = log_call-LogInv libc x _ (log_after-LogInv libc xs)

-- Whatever the order of the calls, initialisations and ends included, and whether or not the file
-- can be opened: it is never opened twice, closed twice, or written while it is not open, and
-- diag_logfile says whether it is open.
pub log_after-file :
    (libc : Libc) (xs : List LogCall)
    → file_after (log_after libc xs).writes ≡ some (log_after libc xs).has_file
log_after-file libc xs = (log_after-LogInv libc xs).follows
