-- ===== src/Program/Ends.antt =====
-- How the program ends.
use playos_compositor.Base.{ℕ, zero, suc, ◌≡◌, Bool, true, false, List, [], ◌∷◌}
use playos_compositor.Compositor.{Compositor, Os, Call, shutting_down}
use playos_compositor.Button.{Keycodes}
use playos_compositor.Listeners.{Listeners, Attach, zeroed, alone, attached, doubled}
use playos_compositor.Machine.{step}
use playos_compositor.Machine.Descriptors.{open_fds, is_careful, Descriptors}
use playos_compositor.Program.{
  Wake, happens, LoopEnd, waiting, returned, killed, Running, Outcome, exit_success, crashed,
  still_running, killed_by_pipe, loop_end, outputs_come,
}

-- Success, with nothing of the connection left: every descriptor closed, none sent on or closed
-- while it was not open, no event source and no timer.
pub record Released (c : Compositor) : Type 0 where
  pub closed_all : open_fds c.calls ≡ []
  pub careful : is_careful c.calls ≡ true
  pub no_source : c.link.source ≡ false
  pub no_timer : c.link.timer ≡ false
  pub stopped : c.running ≡ false
  pub over : c.state ≡ shutting_down

-- By how the loop ends, how many outputs were added and whether NULL was updated as a timer: for one
-- output at most, a crash, no end, an end by SIGPIPE or success.
abbrev pub EndsAs : LoopEnd → (outputs : ℕ) → (fault : Bool) → Outcome → Type 0
EndsAs e (suc (suc n)) fault o = Unit {0}
EndsAs e n true o = o ≡ crashed
EndsAs waiting n false o = o ≡ still_running
EndsAs killed n false o = o ≡ killed_by_pipe
EndsAs returned zero false o = o ≡ crashed
EndsAs returned (suc zero) false (exit_success c) = Released c
EndsAs returned (suc zero) false o = ⊥

abbrev frame_link : ℕ → Attach
frame_link zero = alone
frame_link (suc zero) = attached
frame_link (suc (suc n)) = doubled

abbrev present_link : ℕ → Attach
present_link zero = zeroed
present_link n = frame_link n

-- The links after n outputs were added.
record Counted (n : ℕ) (l : Listeners) : Type 0 where
  output : l.new_output ≡ attached
  surface : l.new_xdg_surface ≡ attached
  input : l.new_input ≡ attached
  frames : l.frame ≡ frame_link n
  presents : l.present ≡ present_link n

-- The calls made until the loop ends.
unfoldable pub run_calls : Keycodes → Os → Compositor → List Wake → List Call
run_calls k os c (happens e ∷ ws) = run_calls k os (step k os c e) ws
run_calls k os c _ = c.calls

-- What holds when the loop is over.
record Over (k : Keycodes) (os : Os) (ws : List Wake) (n : ℕ) (c : Compositor)
    (r : LoopEnd × Running) : Type 0 where
  way : r.0 ≡ loop_end ws
  links : Counted (outputs_come k os c ws n) r.1.listeners
  fds : Descriptors r.1.compositor
