-- ===== src/Listeners.antt =====
-- The links of the compositor's listeners, from playos_compositor_init to
-- playos_compositor_destroy of src/compositor.c.
pub mod Shutdown
use playos_compositor.Base.{Bool, true, false, Option, none, some, if◌then◌else◌}

-- A wl_list link: all zero, alone in its own list, in the list of a signal, or put into a second list
-- while it was in a first. The first list then runs into the second, and is not empty when the link is
-- removed from the second.
pub data Attach : Type 0 where
  zeroed alone attached doubled : Attach

-- wl_signal_add, which does not look at where the link is.
abbrev pub add_link : Attach → Attach
add_link zeroed = attached
add_link alone = attached
add_link _ = doubled

pub record Listeners : Type 0 where
  pub new_output : Attach
  pub new_xdg_surface : Attach
  pub new_input : Attach
  pub frame : Attach
  pub present : Attach

-- playos_compositor_init, after its memset.
abbrev pub init_listeners : Listeners
init_listeners = record {
  new_output = alone;
  new_xdg_surface = alone;
  new_input = alone;
  frame = alone;
  present = zeroed;
}

-- playos_compositor_start on a backend that is not NULL.
unfoldable pub start_listeners : Listeners → Listeners
start_listeners l = record l {
  new_output = attached;
  new_xdg_surface = attached;
  new_input = attached;
}

infixl 5 ◌>>=◌
abbrev pub ◌>>=◌ : {A B : Type 0} → Option A → (A → Option B) → Option B
none >>= f = none
some a >>= f = f a

-- wl_list_remove follows the link's pointers, and zeroes them: on a link that is zero it
-- dereferences NULL.
abbrev pub remove_link : Attach → Option Attach
remove_link zeroed = none
remove_link _ = some zeroed

-- The removals of playos_compositor_destroy; `none` is a crash.
unfoldable pub detach : Listeners → Option Listeners
detach l = do
  new_output' ← remove_link l.new_output
  new_xdg_surface' ← remove_link l.new_xdg_surface
  new_input' ← remove_link l.new_input
  frame' ← remove_link l.frame
  present' ← remove_link l.present
  some (record {
    new_output = new_output';
    new_xdg_surface = new_xdg_surface';
    new_input = new_input';
    frame = frame';
    present = present';
  })
