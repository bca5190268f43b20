-- ===== src/Gpu/Closing.antt =====
-- playos_gpu_close of src/gpu_discovery.c, on what playos_gpu_discover leaves.
use playos_compositor.Base.{
  ℕ, ◌≡◌, refl, Bool, true, false, Option, none, some, List, [], ◌∷◌, ◌++◌,
}
use playos_compositor.Gpu.{Gpu}

-- The fields of struct playos_gpu that it changes; a descriptor of -1 is `none`.
pub record Handle : Type 0 where
  pub card_fd : Option ℕ
  pub render_fd : Option ℕ
  pub valid : Bool

-- A discovery that succeeds, and one that does not.
abbrev pub handle_of : Option Gpu → Handle
handle_of none = record { card_fd = none; render_fd = none; valid = false }
handle_of (some gpu) = record {
  card_fd = some gpu.card_fd;
  render_fd = gpu.render_fd;
  valid = true;
}

abbrev pub fds : Option ℕ → List ℕ
fds none = []
fds (some fd) = fd ∷ []

-- playos_gpu_close on a pointer that is not NULL, with the descriptors that it closes, in order.
unfoldable pub gpu_close : Handle → Handle × List ℕ
gpu_close h =
    (record { card_fd = none; render_fd = none; valid = false }, fds h.card_fd ++ fds h.render_fd)

-- After a call nothing is open, and a second call closes nothing.
gpu_close_twice :
    (h : Handle)
    → let (h', closed) = gpu_close h in (gpu_close h' ≡ (h', [])) × (h' ≡ handle_of none)
unfolding gpu_close
gpu_close_twice h = (refl, refl)
