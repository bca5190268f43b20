-- ===== src/Overlay/Told.antt =====
-- The overlay's client and the compositor agree on whether the overlay is shown.
use playos_compositor.Base.{
  ◌||◌, ℕ, ◌≡◌, Bool, true, false, Option, none, some, List, [], ◌∷◌, arith, ◌==◌, if◌then◌else◌,
}
use playos_compositor.Compositor.{
  game_foreground, game_starting, shell_foreground, terminating_game,
  playos_ui_foreground_with_game_background, Compositor, Os, ForegroundState, Call, about_to_show,
  about_to_hide, state_is,
}
use playos_compositor.Foreground.{
  clear_expected, has_game, transition, surface_ready, announce_ready, game_exited, refresh,
  set_expected_game, handle_clear_expected, force_terminate, send_output_info, send_about_to_show,
  send_about_to_hide, ipc_calls, ipc_send, announce, reset_overlay,
}
use playos_compositor.Foreground.Sends.{ipc_calls-keeps}
use playos_compositor.Overlay.{manager_show, manager_hide}
use playos_compositor.Machine.Rule.{if-keeps}

-- Whether the last of about_to_show and about_to_hide that a resource was sent is about_to_show.
unfoldable pub is_told : List Call → ℕ → Bool
is_told [] r = false
is_told (about_to_show q ∷ calls) r = if q == r then true else is_told calls r
is_told (about_to_hide q ∷ calls) r = if q == r then false else is_told calls r
is_told (_ ∷ calls) r = is_told calls r

-- The overlay's resource is NULL, or was last told what overlay_visible says.
abbrev pub Agree : Option ℕ → Bool → List Call → Type 0
Agree none b calls = Unit {0}
Agree (some r) b calls = is_told calls r ≡ b

pub record Agrees (c : Compositor) : Type 0 where
  pub agree : Agree c.overlay_resource c.overlay_visible c.calls

pub refresh-Agrees : (c : Compositor) → Agrees c → Agrees (refresh c)
unfolding refresh is_told
refresh-Agrees c h = ground arith

Agree-ipc_calls :
    (os : Os) (fd : Option ℕ) (type extra : List ℕ) (calls : List Call) (o : Option ℕ) (b : Bool)
    → Agree o b calls
    → Agree o b (ipc_calls os fd type extra calls)
unfolding is_told
Agree-ipc_calls os fd type extra calls none b h = tt
Agree-ipc_calls os fd type extra calls (some r) b h =
    ipc_calls-keeps (λ cs. is_told cs r ≡ b) os fd (λ n cs buf e g. g) type extra calls h

announce-Agrees :
    (os : Os) (c : Compositor) (s : ForegroundState) → Agrees c → Agrees (announce os c s)
unfolding announce ipc_send
announce-Agrees os c s h = record {
  agree = Agree-ipc_calls os _ _ _ _ c.overlay_resource _ h.agree;
}

reset-Agrees : (c : Compositor) (s : ForegroundState) → Agrees c → Agrees (reset_overlay c s)
unfolding reset_overlay is_told
reset-Agrees c s h = ground arith

told_shown :
    (c : Compositor)
    → Agrees (send_about_to_show (send_output_info (record c { overlay_visible = true })))
unfolding send_about_to_show send_output_info is_told
told_shown c = ground arith

told_hidden : (c : Compositor) → Agrees (send_about_to_hide (record c { overlay_visible = false }))
unfolding send_about_to_hide is_told
told_hidden c = ground arith

module _ (os : Os) where
  pub transition-Agrees :
      (c : Compositor) (s : ForegroundState) → Agrees c → Agrees (transition os c s)
  unfolding transition
  transition-Agrees c s h =
      let reset : Agrees (record (reset_overlay c s) { fg_state = s }) = record {
        agree = (reset-Agrees c s h).agree;
      } in
      if-keeps Agrees (state_is c.fg_state s) h (
        announce-Agrees os (refresh (record (reset_overlay c s) { fg_state = s })) s
          (refresh-Agrees (record (reset_overlay c s) { fg_state = s }) reset))

  pub clear-Agrees : (c : Compositor) → Agrees c → Agrees (handle_clear_expected os c)
  unfolding handle_clear_expected
  clear-Agrees c h =
      let cleared : Agrees (clear_expected c) = record { agree = h.agree } in
      if-keeps Agrees (has_game c.fg_state) (transition-Agrees _ shell_foreground cleared) cleared

  pub exited-Agrees : (c : Compositor) → Agrees c → Agrees (game_exited os c)
  unfolding game_exited
  exited-Agrees c h = record {
    agree =
        (if-keeps Agrees (has_game c.fg_state || state_is c.fg_state terminating_game)
          (transition-Agrees c shell_foreground h) h).agree;
  }

  pub show-Agrees : (c : Compositor) → Agrees c → Agrees (manager_show os c)
  unfolding manager_show
  show-Agrees c h =
      let h' = told_shown c in
      if-keeps Agrees c.overlay_visible h (
        if-keeps Agrees (state_is c.fg_state game_foreground)
          (transition-Agrees _ playos_ui_foreground_with_game_background h') (refresh-Agrees _ h'))

  pub hide-Agrees : (c : Compositor) → Agrees c → Agrees (manager_hide os c)
  unfolding manager_hide
  hide-Agrees c h =
      let h' = told_hidden c in
      if-keeps Agrees c.overlay_visible
        (if-keeps Agrees (state_is c.fg_state playos_ui_foreground_with_game_background)
          (transition-Agrees _ _ h') (refresh-Agrees _ h'))
        h

  pub ready-Agrees : (c : Compositor) → Agrees c → Agrees (surface_ready os c)
  unfolding surface_ready announce_ready ipc_send
  ready-Agrees c h = if-keeps Agrees c.game_surface_ready h (
      if-keeps Agrees (state_is c.fg_state game_starting)
        (transition-Agrees _ game_foreground
          (record { agree = Agree-ipc_calls os _ _ _ _ c.overlay_resource _ h.agree }))
        h)

-- Every operation of the foreground state machine and of the overlay manager keeps the agreement
-- with the overlay's client: if its resource was last told what the compositor has for the
-- overlay's visibility, so it is afterwards, also where the operation hides the overlay on its own.
operations-Agrees :
    (os : Os) (c : Compositor) (token id : List ℕ)
    → Agrees c
    → Agrees (set_expected_game os c token id)
      × Agrees (handle_clear_expected os c)
      × Agrees (force_terminate os c)
      × Agrees (surface_ready os c)
      × Agrees (game_exited os c)
      × Agrees (manager_show os c)
      × Agrees (manager_hide os c)
unfolding set_expected_game force_terminate
operations-Agrees os c token id h = (
  transition-Agrees os _ game_starting (record { agree = h.agree }),
  clear-Agrees os c h,
  record { agree = (transition-Agrees os c terminating_game h).agree },
  ready-Agrees os c h,
  exited-Agrees os c h,
  show-Agrees os c h,
  hide-Agrees os c h,
)
