-- ===== src/Machine/Visibility.antt =====
-- The scene agrees with the foreground state: an invariant of the machine.
pub mod Surfaces
use playos_compositor.Base.{
  is_some, if◌then◌else◌, Bool-cases, inl, inr, ℕ, ◌≡◌, refl, Bool, true, false, Option, none, some,
  List, arith,
}
use playos_compositor.Compositor.{
  state_is, game_starting, shell_foreground, terminating_game, game_foreground,
  playos_ui_foreground_with_game_background, Compositor, Track, shell, overlay, game, Os, Call,
  ForegroundState,
}
use playos_compositor.Scene.{is_enabled, Shown, is_enabled-ipc_calls}
use playos_compositor.Foreground.{
  send_output_info, send_about_to_show, send_about_to_hide, clear_expected, ipc_send,
  set_tree_enabled, shell_visible, game_visible, overlay_shown, refresh, transition, announce,
  set_expected_game, handle_clear_expected, force_terminate, surface_ready, game_exited, ipc_calls,
  announce_ready,
}
use playos_compositor.Overlay.{manager_show, manager_hide}
use playos_compositor.Toplevels.Classify.{Distinct, Owned}
use playos_compositor.Machine.Rule.{if-keeps, if-split}

-- The tracks have distinct trees, and each pointer is NULL or the tree of a track of its role.
pub record Tracked (c : Compositor) : Type 0 where
  pub distinct : Distinct c.toplevels
  pub own_shell : Owned c.shell_tree shell c.toplevels
  pub own_game : Owned c.game_tree game c.toplevels
  pub own_overlay : Owned c.overlay_tree overlay c.toplevels

-- The tree of each pointer is enabled exactly as the foreground state says.
pub record Visible (c : Compositor) : Type 0 where
  pub shell_shown : Shown c.shell_tree (shell_visible c.fg_state) c.calls
  pub game_shown : Shown c.game_tree (game_visible c.fg_state) c.calls
  pub overlay_shown_if : Shown c.overlay_tree (overlay_shown c.overlay_visible c.fg_state) c.calls

pub record SceneInv (c : Compositor) : Type 0 where
  pub tracked : Tracked c
  pub visible : Visible c

set_trees-Shown :
    (xs : List Track) (s g o : Option ℕ) (bs bg bo : Bool) (calls : List Call)
    → Owned s shell xs
    → Owned g game xs
    → Owned o overlay xs
    → let calls' = set_tree_enabled o bo (set_tree_enabled g bg (set_tree_enabled s bs calls)) in
      Shown s bs calls' × Shown g bg calls' × Shown o bo calls'
unfolding is_enabled
set_trees-Shown xs s g o bs bg bo calls hs hg ho = ground arith

pub refresh-Visible : (c : Compositor) → Tracked c → Visible (refresh c)
unfolding refresh
refresh-Visible c h =
    let v =
      set_trees-Shown c.toplevels c.shell_tree c.game_tree c.overlay_tree (shell_visible c.fg_state)
        (game_visible c.fg_state) (overlay_shown c.overlay_visible c.fg_state) c.calls h.own_shell
        h.own_game h.own_overlay in
    record { shell_shown = v.0; game_shown = v.1; overlay_shown_if = v.2 }

Shown-ipc_calls :
    (os : Os) (fd : Option ℕ) (type extra : List ℕ) (calls : List Call) (slot : Option ℕ) (b : Bool)
    → Shown slot b calls
    → Shown slot b (ipc_calls os fd type extra calls)
Shown-ipc_calls os fd type extra calls none b h = tt
Shown-ipc_calls os fd type extra calls (some t) b h =
    ground (arith, is_enabled-ipc_calls os fd type extra calls t)

announce-Visible :
    (os : Os) (c : Compositor) (s : ForegroundState) → Visible c → Visible (announce os c s)
unfolding announce ipc_send
announce-Visible os c s h = record {
  shell_shown = Shown-ipc_calls os _ _ _ _ c.shell_tree _ h.shell_shown;
  game_shown = Shown-ipc_calls os _ _ _ _ c.game_tree _ h.game_shown;
  overlay_shown_if = Shown-ipc_calls os _ _ _ _ c.overlay_tree _ h.overlay_shown_if;
}

pub same-Tracked :
    {c c' : Compositor}
    → Tracked c
    → c'.toplevels ≡ c.toplevels
    → c'.shell_tree ≡ c.shell_tree
    → c'.game_tree ≡ c.game_tree
    → c'.overlay_tree ≡ c.overlay_tree
    → Tracked c'
same-Tracked h a b d e = ground arith

-- The invariant reads six fields only.
pub same-SceneInv :
    {c c' : Compositor}
    → SceneInv c
    → c'.toplevels ≡ c.toplevels
    → c'.shell_tree ≡ c.shell_tree
    → c'.game_tree ≡ c.game_tree
    → c'.overlay_tree ≡ c.overlay_tree
    → c'.fg_state ≡ c.fg_state
    → c'.overlay_visible ≡ c.overlay_visible
    → c'.calls ≡ c.calls
    → SceneInv c'
same-SceneInv h a b d e f g i = ground arith

module _ (os : Os) where
  transition-Tracked :
      (c : Compositor) (s : ForegroundState) → Tracked c → Tracked (transition os c s)
  unfolding transition
  transition-Tracked c s h = ground arith

  -- A transition to another state shows what that state shows, whatever was shown before.
  transition-Visible :
      (c : Compositor) (s : ForegroundState)
      → state_is c.fg_state s ≡ false
      → Tracked c
      → Visible (transition os c s)
  unfolding transition
  transition-Visible c s n h = rw n (announce-Visible os _ s (refresh-Visible _ (ground arith)))

  transition-SceneInv :
      (c : Compositor) (s : ForegroundState) → SceneInv c → SceneInv (transition os c s)
  unfolding transition
  transition-SceneInv c s h = elim (Bool-cases (state_is c.fg_state s)) [
    | inl same ↦ rw (same, transition) h
    | inr other ↦ record {
      tracked = transition-Tracked c s h.tracked;
      visible = transition-Visible c s other h.tracked;
    }
  ]

  enter-SceneInv :
      (c : Compositor) (s : ForegroundState)
      → state_is c.fg_state s ≡ false
      → Tracked c
      → SceneInv (transition os c s)
  enter-SceneInv c s n h = record {
    tracked = transition-Tracked c s h;
    visible = transition-Visible c s n h;
  }

  pub refresh-SceneInv : (c : Compositor) → Tracked c → SceneInv (refresh c)
  unfolding refresh
  refresh-SceneInv c h = record { tracked = ground arith; visible = refresh-Visible c h }

  pub set_expected-SceneInv :
      (c : Compositor) (token id : List ℕ) → SceneInv c → SceneInv (set_expected_game os c token id)
  unfolding set_expected_game
  set_expected-SceneInv c token id h = transition-SceneInv _ game_starting (ground arith)

  pub clear_expected-SceneInv :
      (c : Compositor) → SceneInv c → SceneInv (handle_clear_expected os c)
  unfolding handle_clear_expected
  clear_expected-SceneInv c h =
      ground (arith, transition-SceneInv (clear_expected c) shell_foreground)

  pub terminate-SceneInv : (c : Compositor) → SceneInv c → SceneInv (force_terminate os c)
  unfolding force_terminate
  terminate-SceneInv c h =
      same-SceneInv (transition-SceneInv c terminating_game h) refl refl refl refl refl refl refl

  pub show-SceneInv : (c : Compositor) → SceneInv c → SceneInv (manager_show os c)
  unfolding manager_show send_output_info send_about_to_show
  show-SceneInv c h =
      let t : Tracked
          (send_about_to_show (send_output_info (record c { overlay_visible = true }))) =
        same-Tracked h.tracked refl refl refl refl in
      if-keeps SceneInv c.overlay_visible h (
        if-split SceneInv (state_is c.fg_state game_foreground)
          (λ e. enter-SceneInv _ playos_ui_foreground_with_game_background (ground arith) t)
          (λ e. refresh-SceneInv _ t))

  pub hide-SceneInv : (c : Compositor) → SceneInv c → SceneInv (manager_hide os c)
  unfolding manager_hide send_about_to_hide
  hide-SceneInv c h =
      let t : Tracked (send_about_to_hide (record c { overlay_visible = false })) =
        same-Tracked h.tracked refl refl refl refl in
      if-keeps SceneInv c.overlay_visible
        (if-split SceneInv (state_is c.fg_state playos_ui_foreground_with_game_background)
          (λ e.
            enter-SceneInv _ (if is_some c.game_tree then game_foreground else shell_foreground)
              (ground arith) t)
          (λ e. refresh-SceneInv _ t))
        h

  pub ready-SceneInv : (c : Compositor) → SceneInv c → SceneInv (surface_ready os c)
  unfolding surface_ready announce_ready ipc_send
  ready-SceneInv c h = if-keeps SceneInv c.game_surface_ready h (
      if-split SceneInv (state_is c.fg_state game_starting)
        (λ e.
          enter-SceneInv _ game_foreground (ground arith)
            (same-Tracked h.tracked refl refl refl refl))
        (λ e. h))

  pub exited-SceneInv : (c : Compositor) → SceneInv c → SceneInv (game_exited os c)
  unfolding game_exited
  exited-SceneInv c h =
      same-SceneInv (if-keeps SceneInv _ (transition-SceneInv c shell_foreground h) h) refl refl
        refl refl refl refl refl
