-- ===== src/Listeners/Shutdown.antt =====
-- When playos_compositor_destroy can detach the listeners.
use playos_compositor.Base.{◌≡◌, refl, Bool, true, false, ◌||◌, is_some, List, [], ◌∷◌, arith}
use playos_compositor.Compositor.{Compositor}
use playos_compositor.Listeners.{
  Listeners, Attach, zeroed, attached, init_listeners, start_listeners, detach,
}
use playos_compositor.Screen.{NewOutput, add_output, output_listeners}

-- The listeners after the outputs that came while the compositor ran; the backend and the
-- configured output do not change.
unfoldable pub after_outputs : Compositor → List NewOutput → Listeners → Listeners
after_outputs c [] l = l
after_outputs c (a ∷ outputs) l = after_outputs c outputs (output_listeners c a l)

-- Whether one of them was added to the scene.
unfoldable pub any_added : Compositor → List NewOutput → Bool
any_added c [] = false
any_added c (a ∷ outputs) = (add_output a c.backend_type c.output).1 || any_added c outputs

abbrev pub is_zeroed : Attach → Bool
is_zeroed zeroed = true
is_zeroed _ = false

-- No link is zero.
record Linked (l : Listeners) : Type 0 where
  output : is_zeroed l.new_output ≡ false
  surface : is_zeroed l.new_xdg_surface ≡ false
  input : is_zeroed l.new_input ≡ false
  frames : is_zeroed l.frame ≡ false
  presents : is_zeroed l.present ≡ false

output-Linked :
    (c : Compositor) (a : NewOutput) (l : Listeners) → Linked l → Linked (output_listeners c a l)
unfolding output_listeners
output-Linked c a l h = ground arith

Linked-detach :
    (c : Compositor) (outputs : List NewOutput) (l : Listeners)
    → Linked l
    → is_some (detach (after_outputs c outputs l)) ≡ true
unfolding after_outputs detach
Linked-detach c [] l h = ground arith
Linked-detach c (a ∷ outputs) l h =
    Linked-detach c outputs (output_listeners c a l) (output-Linked c a l h)

-- After the first output that is added to the scene.
abbrev with_output : Listeners
with_output = record (start_listeners init_listeners) { frame = attached; present = attached }

with_output-detach :
    (c : Compositor) (outputs : List NewOutput)
    → is_some (detach (after_outputs c outputs with_output)) ≡ true
unfolding start_listeners
with_output-detach c outputs =
    Linked-detach c outputs with_output
      (record { output = refl; surface = refl; input = refl; frames = refl; presents = refl })

-- Over any outputs that came while it ran, the compositor can detach its listeners when it ends
-- exactly if one of the outputs was added to the scene: where none was, the link of the
-- presentation listener is still zero, and its removal dereferences NULL.
pub detach_needs_output :
    (c : Compositor) (outputs : List NewOutput)
    → is_some (detach (after_outputs c outputs (start_listeners init_listeners)))
      ≡ any_added c outputs
unfolding after_outputs any_added output_listeners detach start_listeners
detach_needs_output c [] = refl
detach_needs_output c (a ∷ outputs) =
    ground (arith, with_output-detach c outputs, detach_needs_output c outputs)
