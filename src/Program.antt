-- ===== src/Program.antt =====
-- The program as a whole: main of src/main.c with playos_compositor_run, handle_signal and
-- playos_compositor_destroy of src/compositor.c around the event loop.
pub mod Ends
use playos_compositor.Base.{
  ℕ, suc, Bool, true, false, ◌||◌, Option, none, some, List, [], ◌∷◌, if◌then◌else◌,
}
use playos_compositor.Compositor.{Compositor, Os, Call, null_timer}
use playos_compositor.Button.{Keycodes}
use playos_compositor.Screen.{NewOutput, add_output, output_listeners}
use playos_compositor.Listeners.{
  Listeners, Attach, doubled, init_listeners, start_listeners, detach,
}
use playos_compositor.Listeners.Shutdown.{after_outputs}
use playos_compositor.Lifecycle.{compositor_destroy}
use playos_compositor.Machine.{Event, output_added, step, Legal}
use playos_compositor.Startup.Requests.{World}
use playos_compositor.Startup.{main}

-- What the event loop wakes up for: an event; an event in which send(2) finds that playos-init has
-- closed its end, which raises SIGPIPE, since the flags are 0; or SIGTERM or SIGINT, for which
-- handle_signal calls wl_display_terminate.
pub data Wake : Type 0 where
  happens : Event → Wake
  breaks_pipe : Wake
  signalled : Wake

-- How the event loop ends: not at all, by a return, or by SIGPIPE, which is not handled.
pub data LoopEnd : Type 0 where
  waiting returned killed : LoopEnd

-- The listeners of the compositor that an event attaches.
unfoldable pub step_listeners : Compositor → Event → Listeners → Listeners
unfolding output_listeners
step_listeners c (output_added a) l = output_listeners c a l
step_listeners c _ l = l

pub record Running : Type 0 where
  pub compositor : Compositor
  pub listeners : Listeners

-- playos_compositor_run: the event loop over what it wakes up for, and how it ends.
unfoldable pub compositor_run : Keycodes → Os → List Wake → Running → LoopEnd × Running
unfolding step_listeners
compositor_run k os [] r = (waiting, r)
compositor_run k os (signalled ∷ ws) r = (returned, r)
compositor_run k os (breaks_pipe ∷ ws) r = (killed, r)
compositor_run k os (happens e ∷ ws) r = compositor_run k os ws (record {
  compositor = step k os r.compositor e;
  listeners = step_listeners r.compositor e r.listeners;
})

-- How the program ends. `corrupted` is a listener in the lists of two outputs: the code goes on, and
-- what it does then is not defined.
pub data Outcome : Type 0 where
  exit_failure still_running crashed killed_by_pipe corrupted : Outcome
  exit_success : Compositor → Outcome

-- Whether a timer that could not be added was updated, which dereferences NULL.
unfoldable pub has_fault : List Call → Bool
has_fault [] = false
has_fault (null_timer ∷ calls) = true
has_fault (_ ∷ calls) = has_fault calls

abbrev pub is_doubled : Attach → Bool
is_doubled doubled = true
is_doubled _ = false

-- The whole of playos_compositor_destroy, with the removal of the listeners, each of which is in one
-- list at most.
unfoldable pub destroy_all : Running → Outcome
destroy_all r = elim (detach r.listeners) [
  | none ↦ crashed
  | some _ ↦ exit_success (compositor_destroy r.compositor)
]

-- What follows the loop.
unfoldable pub after_loop : LoopEnd → Running → Outcome
unfolding destroy_all
after_loop returned r = destroy_all r
after_loop killed r = killed_by_pipe
after_loop waiting r = still_running

unfoldable pub ended : LoopEnd × Running → Outcome
unfolding after_loop has_fault
ended (e, r) =
    if is_doubled r.listeners.frame || is_doubled r.listeners.present
    then corrupted
    else if has_fault r.compositor.calls
    then crashed
    else after_loop e r

-- main, but for the calls that open and close the log. Outputs that come while the backend starts
-- attach their listeners before the loop begins; the lifecycle state that they set is overwritten at
-- the end of playos_compositor_start.
unfoldable pub run_program :
    World → Keycodes → Os → Option (List ℕ) → List NewOutput → List Wake → Outcome
unfolding compositor_run ended
run_program w k os backend_env early ws = elim (main w os backend_env) [
  | none ↦ exit_failure
  | some c ↦
      let l = after_outputs c early (start_listeners init_listeners) in
      ended (compositor_run k os ws (record { compositor = c; listeners = l }))
]

-- How the wakes end the loop: by the first signal of the two kinds.
unfoldable pub loop_end : List Wake → LoopEnd
loop_end [] = waiting
loop_end (signalled ∷ ws) = returned
loop_end (breaks_pipe ∷ ws) = killed
loop_end (happens e ∷ ws) = loop_end ws

abbrev pub one_more : Bool → ℕ → ℕ
one_more true n = suc n
one_more false n = n

-- The number of outputs that are added to the scene, from n on: before the loop, and in the loop.
unfoldable pub early_outputs : Compositor → List NewOutput → ℕ → ℕ
early_outputs c [] n = n
early_outputs c (a ∷ outputs) n =
    early_outputs c outputs (one_more (add_output a c.backend_type c.output).1 n)

abbrev pub adds_output : Compositor → Event → Bool
adds_output c (output_added a) = (add_output a c.backend_type c.output).1
adds_output c _ = false

unfoldable pub outputs_come : Keycodes → Os → Compositor → List Wake → ℕ → ℕ
outputs_come k os c (happens e ∷ ws) n =
    outputs_come k os (step k os c e) ws (one_more (adds_output c e) n)
outputs_come k os c _ n = n

-- Every event before the signal is one that libwayland allows.
unfoldable pub AllLegal : Keycodes → Os → Compositor → List Wake → Type 0
AllLegal k os c (happens e ∷ ws) = Legal c e × AllLegal k os (step k os c e) ws
AllLegal k os c _ = Unit {0}
