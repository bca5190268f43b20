-- ===== src/Button/Keyboards.antt =====
-- The keyboards that src/system_button.c listens to: handle_new_input and handle_keyboard_destroy.
use playos_compositor.Base.{
  ℕ, ◌≡◌, refl, ◌∙◌, Bool, Bool-cases, inl, inr, false, ◌&&◌, ◌||◌, List, [], ◌∷◌, ◌==◌, arith,
  if◌then◌else◌,
}
use playos_compositor.Compositor.{Compositor, Os}
use playos_compositor.Button.{Keycodes, keyboard_key}

-- A device comes, with whether it is a keyboard and whether its struct can be allocated, or goes.
pub data DeviceEvent : Type 0 where
  comes : (device : ℕ) (is_keyboard allocated : Bool) → DeviceEvent
  goes : (device : ℕ) → DeviceEvent

-- The devices that have a struct playos_keyboard, the newest first.
unfoldable pub new_input : ℕ → Bool → Bool → List ℕ → List ℕ
new_input device is_keyboard allocated ks =
    if is_keyboard then if allocated then device ∷ ks else ks else ks

-- The destroy signal of a device frees every struct that listens to it.
unfoldable pub keyboard_destroy : ℕ → List ℕ → List ℕ
keyboard_destroy device [] = []
keyboard_destroy device (x ∷ ks) =
    let rest = keyboard_destroy device ks in if x == device then rest else x ∷ rest

-- The structs after the events, the latest first.
unfoldable pub tracked : List DeviceEvent → List ℕ
unfolding new_input keyboard_destroy
tracked [] = []
tracked (comes d k a ∷ es) = new_input d k a (tracked es)
tracked (goes d ∷ es) = keyboard_destroy d (tracked es)

unfoldable pub is_tracked : ℕ → List ℕ → Bool
is_tracked d [] = false
is_tracked d (x ∷ ks) = x == d || is_tracked d ks

-- The key signal of a device: a struct that listens to it runs handle_keyboard_key, once for each.
unfoldable pub key_signal : Keycodes → Os → List ℕ → ℕ → ℕ → Bool → Compositor → Compositor
unfolding keyboard_key
key_signal k os [] d code pressed c = c
key_signal k os (x ∷ ks) d code pressed c =
    let c' = if x == d then keyboard_key k os c code pressed else c in
    key_signal k os ks d code pressed c'

-- Whether a device has come as a keyboard, with memory for its struct, since it last went.
unfoldable pub is_plugged : ℕ → List DeviceEvent → Bool
is_plugged d [] = false
is_plugged d (comes x k a ∷ es) = (x == d && (k && a)) || is_plugged d es
is_plugged d (goes x ∷ es) = if x == d then false else is_plugged d es

is_tracked-keyboard_destroy :
    (d x : ℕ) (ks : List ℕ)
    → is_tracked d (keyboard_destroy x ks) ≡ (if x == d then false else is_tracked d ks)
unfolding is_tracked keyboard_destroy
is_tracked-keyboard_destroy d x [] = ground arith
is_tracked-keyboard_destroy d x (y ∷ ks) = ground (arith, is_tracked-keyboard_destroy d x ks)

is_tracked-tracked : (d : ℕ) (es : List DeviceEvent) → is_tracked d (tracked es) ≡ is_plugged d es
unfolding tracked is_plugged is_tracked new_input
is_tracked-tracked d [] = refl
is_tracked-tracked d (comes x k a ∷ es) = ground (arith, is_tracked-tracked d es)
is_tracked-tracked d (goes x ∷ es) =
    ground (arith, is_tracked-tracked d es, is_tracked-keyboard_destroy d x (tracked es))

key_signal_untracked :
    (k : Keycodes) (os : Os) (ks : List ℕ) (d code : ℕ) (pressed : Bool) (c : Compositor)
    → is_tracked d ks ≡ false
    → key_signal k os ks d code pressed c ≡ c
unfolding key_signal is_tracked
key_signal_untracked k os [] d code pressed c h = refl
key_signal_untracked k os (x ∷ ks) d code pressed c h =
    ground (arith, key_signal_untracked k os ks d code pressed c)

-- Over any arrivals and departures of devices, a device has a struct exactly if it has come as a
-- keyboard, with memory for the struct, since it last went; and the key signal of a device does
-- nothing unless that is so, so that no key of a keyboard that is gone reaches the compositor.
pub key_signal-tracked :
    (k : Keycodes) (os : Os) (es : List DeviceEvent) (d code : ℕ) (pressed : Bool) (c : Compositor)
    → let c' = key_signal k os (tracked es) d code pressed c in
      (is_tracked d (tracked es) ≡ is_plugged d es) × (c' ≡ (if is_plugged d es then c' else c))
key_signal-tracked k os es d code pressed c =
    let same = is_tracked-tracked d es in
    (
      same,
      elim (Bool-cases (is_plugged d es)) [
        | inl e ↦ rw e refl
        | inr e ↦ rw e (key_signal_untracked k os (tracked es) d code pressed c (same ∙ e))
      ],
    )
