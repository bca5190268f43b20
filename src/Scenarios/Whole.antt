-- ===== src/Scenarios/Whole.antt =====
-- The program from its start to its end, at a concrete world.
use playos_compositor.Base.{some, [], ◌∷◌, List}
use playos_compositor.Machine.{new_toplevel, registers_shell}
use playos_compositor.Program.{Wake, happens, signalled}

-- The shell maps its surface and registers; then SIGTERM comes.
abbrev wakes : List Wake
wakes = happens (new_toplevel 5 (some 50)) ∷ happens (registers_shell 5 1) ∷ signalled ∷ []
