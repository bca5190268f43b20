-- ===== src/Button.antt =====
-- The system button (src/system_button.c). The key codes are those of <linux/input-event-codes.h>.
pub mod Keyboards
use playos_compositor.Base.{ℕ, Bool, ◌||◌, ◌&&◌, ◌==◌, if◌then◌else◌}
use playos_compositor.Compositor.{
  Compositor, game_foreground, playos_ui_foreground_with_game_background, state_is, Os,
}
use playos_compositor.Overlay.{manager_show, manager_hide}

pub record Keycodes : Type 0 where
  pub btn_mode : ℕ
  pub key_prog1 : ℕ
  pub btn_trigger_happy1 : ℕ
  pub key_f17 : ℕ
  pub key_prog2 : ℕ
  pub btn_trigger_happy2 : ℕ
  pub key_f16 : ℕ

-- The aliases of the SYSTEM button.
unfoldable pub is_system_keycode : Keycodes → ℕ → Bool
is_system_keycode k code =
    code == k.btn_mode
    || (code == k.key_prog1 || (code == k.btn_trigger_happy1 || code == k.key_f17))

unfoldable pub is_reserved_keycode : Keycodes → ℕ → Bool
unfolding is_system_keycode
is_reserved_keycode k code =
    is_system_keycode k code
    || (code == k.key_prog2 || (code == k.btn_trigger_happy2 || code == k.key_f16))

unfoldable pub toggle_overlay : Os → Compositor → Compositor
toggle_overlay os c =
    if state_is c.fg_state game_foreground
    then manager_show os c
    else if state_is c.fg_state playos_ui_foreground_with_game_background
    then manager_hide os c
    else c

-- handle_keyboard_key.
unfoldable pub keyboard_key : Keycodes → Os → Compositor → ℕ → Bool → Compositor
keyboard_key k os c code pressed =
    if is_reserved_keycode k code && pressed
    then if is_system_keycode k code then toggle_overlay os c else c
    else c
