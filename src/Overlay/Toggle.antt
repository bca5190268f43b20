-- ===== src/Overlay/Toggle.antt =====
-- Showing and hiding the overlay: the system button, the pairing with the client's events, and a
-- request made too early.
use playos_compositor.Base.{ℕ, ◌≡◌, Bool, true, false, ◌&&◌, List, arith, if◌then◌else◌, is_some}
use playos_compositor.Compositor.{
  Compositor, Os, shell_foreground, game_foreground, playos_ui_foreground_with_game_background,
  state_is,
}
use playos_compositor.Foreground.{
  transition, surface_ready, announce_ready, refresh, set_expected_game, send_output_info,
  send_about_to_show, send_about_to_hide,
}
use playos_compositor.Overlay.{manager_show, manager_hide}
use playos_compositor.Button.{
  Keycodes, keyboard_key, is_system_keycode, is_reserved_keycode, toggle_overlay,
}

-- Only a press of an alias of the system button does anything: every other reserved key, every
-- other key and every release leaves the whole state as it is. The press shows the overlay over a
-- game, hides it where it is shown, and does nothing in any other foreground state.
keyboard_key_system :
    (k : Keycodes) (os : Os) (c : Compositor) (code : ℕ) (pressed : Bool)
    → keyboard_key k os c code pressed ≡ (
        if is_system_keycode k code && pressed
        then (if state_is c.fg_state game_foreground
            then manager_show os c
            else if state_is c.fg_state playos_ui_foreground_with_game_background
            then manager_hide os c
            else c)
        else c)
unfolding keyboard_key is_reserved_keycode toggle_overlay
keyboard_key_system k os c code pressed = ground arith

-- Over a game in the foreground that has a tree and whose overlay is hidden, the system button shows the overlay, and
-- pressed again it brings the game back: the foreground state, the request, the launch and the
-- tracked surfaces are what they were.
pub system_button_twice :
    (k : Keycodes) (os : Os) (c : Compositor) (code : ℕ)
    → is_system_keycode k code ≡ true
    → c.fg_state ≡ game_foreground
    → c.overlay_visible ≡ false
    → is_some c.game_tree ≡ true
    → let once = keyboard_key k os c code true in
      let twice = keyboard_key k os once code true in
      (once.fg_state ≡ playos_ui_foreground_with_game_background)
      × (once.overlay_visible ≡ true)
      × (twice.fg_state ≡ game_foreground)
      × (twice.overlay_visible ≡ false)
      × (twice.expected_launch_token ≡ c.expected_launch_token)
      × (twice.game_surface_ready ≡ c.game_surface_ready)
      × (twice.toplevels ≡ c.toplevels)
unfolding keyboard_key is_reserved_keycode toggle_overlay manager_show manager_hide transition
    refresh send_output_info send_about_to_show send_about_to_hide
system_button_twice k os c code a b d e = ground arith

-- An overlay that is requested while the shell is in the foreground stays requested through the
-- start of the next game: over that game neither ShowOverlay nor the system button has any effect.
pub early_show_blocks :
    (k : Keycodes) (os : Os) (c : Compositor) (token id : List ℕ) (code : ℕ)
    → c.fg_state ≡ shell_foreground
    → is_system_keycode k code ≡ true
    → let c' = surface_ready os (set_expected_game os (manager_show os c) token id) in
      (c'.fg_state ≡ game_foreground)
      × (manager_show os c' ≡ c')
      × (keyboard_key k os c' code true ≡ c')
unfolding keyboard_key is_reserved_keycode toggle_overlay manager_show transition refresh
    send_output_info send_about_to_show surface_ready announce_ready set_expected_game
early_show_blocks k os c token id code a b = ground arith
