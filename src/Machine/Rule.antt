-- ===== src/Machine/Rule.antt =====
-- A rule for invariants of the machine: what the handlers that change the state preserve, every
-- allowed step preserves, and so does every run of such steps.
use playos_compositor.Base.{
  Bool-cases, refl, subst, sym, ℕ, ◌≡◌, Bool, true, false, inl, inr, Option, none, some, List, [],
  ◌∷◌, ◌&&◌, Option-cases, c_str, codes, arith, if◌then◌else◌,
}
use playos_compositor.Compositor.{
  running, role_already_taken, shell, overlay, Compositor, Track, Os, received, state_is,
  game_foreground, playos_ui_foreground_with_game_background,
}
use playos_compositor.Foreground.{
  set_expected_game, handle_clear_expected, force_terminate, surface_ready,
}
use playos_compositor.Overlay.{
  resolve_resource, manager_show, manager_hide, bind, resource_destroy, request_dismiss,
}
use playos_compositor.Toplevels.{
  reclassify, Commit, new_xdg_toplevel, toplevel_commit, destroy_track, toplevel_destroy,
  find_track, configure_or_count, commit_track,
}
use playos_compositor.Trusted.{
  claim, is_taken, assign_role, register_shell, register_overlay, client_destroyed,
}
use playos_compositor.Button.{
  Keycodes, keyboard_key, toggle_overlay, is_reserved_keycode, is_system_keycode,
}
use playos_compositor.Wire.Frame.{decode}
use playos_compositor.Wire.Json.{json_get_string}
use playos_compositor.Ipc.{
  dispatch_set_expected, dispatch_type, dispatch, dispatch_frame, drop_link, handle_read,
  fd_handler, reconnect_handler, Mask,
}
use playos_compositor.Render.{output_present, frame}
use playos_compositor.Screen.{new_output}
use playos_compositor.Machine.{
  Event, new_toplevel, commit, destroy, registers_shell, registers_overlay, client_gone,
  binds_overlay, unbinds_overlay, dismisses, key, ipc_ready, reconnect_timer, output_added,
  presented, frame_due, step, Runs, here, next,
}

pub record Keeps (os : Os) (Allowed : Compositor → Event → Type 0) (P : Compositor → Type 0)
    : Type 0 where
  pub sets_expected :
      (c : Compositor) (token id : List ℕ) → P c → P (set_expected_game os c token id)
  pub clears_expected : (c : Compositor) → P c → P (handle_clear_expected os c)
  pub terminates : (c : Compositor) → P c → P (force_terminate os c)
  pub shows : (c : Compositor) → P c → P (manager_show os c)
  pub hides : (c : Compositor) → P c → P (manager_hide os c)
  pub readies : (c : Compositor) → P c → P (surface_ready os c)
  pub receives : (c : Compositor) (fd : ℕ) → P c → P (record c { calls = received fd ∷ c.calls })
  pub drops_link : (c : Compositor) → P c → P (drop_link os c)
  pub reconnects : (c : Compositor) → Allowed c reconnect_timer → P c → P (reconnect_handler os c)
  pub maps :
      (c : Compositor) (client tree : ℕ)
      → Allowed c (new_toplevel client (some tree))
      → P c
      → P (new_xdg_toplevel c client (some tree))
  pub counts :
      (c : Compositor) (x : Track) (initial : Bool) → P c → P (configure_or_count c x initial)
  pub destroys :
      (c : Compositor) (x : Track)
      → find_track x.tree c.toplevels ≡ some x
      → P c
      → P (destroy_track os c x)
  pub claims_shell :
      (c : Compositor) (client resource : ℕ) → P c → P (register_shell c client resource)
  pub claims_overlay :
      (c : Compositor) (client resource : ℕ)
      → Allowed c (registers_overlay client resource)
      → P c
      → P (register_overlay c client resource)
  pub loses_client : (c : Compositor) (client : ℕ) → P c → P (client_destroyed c client)
  pub binds :
      (c : Compositor) (client resource : ℕ)
      → Allowed c (binds_overlay client (some resource))
      → P c
      → P (bind c client (some resource))
  pub unbinds : (c : Compositor) (resource : ℕ) → P c → P (resource_destroy c resource)
  pub runs : (c : Compositor) → P c → P (record c { state = running })
  pub presents : (c : Compositor) (p z : Bool) → P c → P (output_present c p z)
  pub draws : (c : Compositor) (now : ℕ) → P c → P (frame c now)

-- A claim is refused with a protocol error, or the client gets the role.
pub register_shell_cases :
    (P : Compositor → Type 0) (c : Compositor) (client resource : ℕ)
    → P (record c { calls = role_already_taken resource ∷ c.calls })
    → P (reclassify (assign_role c client shell))
    → P (register_shell c client resource)
unfolding register_shell claim
register_shell_cases P c client resource refused granted = elim (Bool-cases (is_taken c shell)) [
  | inl e ↦ rw (e, register_shell, claim) refused
  | inr e ↦ rw (e, register_shell, claim) granted
]

pub register_overlay_cases :
    (P : Compositor → Type 0) (c : Compositor) (client resource : ℕ)
    → P (record c { calls = role_already_taken resource ∷ c.calls })
    → P (resolve_resource (reclassify (assign_role c client overlay)) client)
    → P (register_overlay c client resource)
unfolding register_overlay claim
register_overlay_cases P c client resource refused granted =
    elim (Bool-cases (is_taken c overlay)) [
      | inl e ↦ rw (e, register_overlay, claim) refused
      | inr e ↦ rw (e, register_overlay, claim) granted
    ]

find_track-tree :
    (tree : ℕ) (xs : List Track) (x : Track) → find_track tree xs ≡ some x → x.tree ≡ tree
unfolding find_track
find_track-tree tree [] x e = cc
find_track-tree tree (y ∷ ys) x e = ground (arith, find_track-tree tree ys x)

pub if-keeps {ℓ} :
    {A : Type ℓ} (P : A → Type 0) (b : Bool) {x y : A} → P x → P y → P (if b then x else y)
if-keeps P true hx hy = hx
if-keeps P false hx hy = hy

-- The same, where a branch may use the outcome of the test.
pub if-split {ℓ} :
    {A : Type ℓ} (P : A → Type 0) (b : Bool) {x y : A}
    → (b ≡ true → P x)
    → (b ≡ false → P y)
    → P (if b then x else y)
if-split P true hx hy = hx refl
if-split P false hx hy = hy refl

module _ {os : Os} {Allowed : Compositor → Event → Type 0} {P : Compositor → Type 0}
    (keeps : Keeps os Allowed P) where
  dispatch_type-keeps :
      (c : Compositor) (type text : List ℕ) → P c → P (dispatch_type os c type text)
  unfolding dispatch_type dispatch_set_expected
  dispatch_type-keeps c type text h = if-keeps P _ (keeps.sets_expected c _ _ h) (
      if-keeps P _ (keeps.clears_expected c h) (
        if-keeps P _ (keeps.terminates c h)
          (if-keeps P _ (keeps.shows c h) (if-keeps P _ (keeps.hides c h) h))))

  dispatch-keeps : (c : Compositor) (text : List ℕ) → P c → P (dispatch os c text)
  unfolding dispatch
  dispatch-keeps c text h = elim (Option-cases (json_get_string text (codes "type") 128)) [
    | inl e ↦ rw (e, dispatch) h
    | inr (type, e) ↦ rw (e, dispatch) (dispatch_type-keeps c (c_str type) text h)
  ]

  dispatch_frame-keeps : (c : Compositor) (buf : List ℕ) → P c → P (dispatch_frame os c buf)
  unfolding dispatch_frame
  dispatch_frame-keeps c buf h = elim (Option-cases (decode buf)) [
    | inl e ↦ rw (e, dispatch_frame) h
    | inr (text, e) ↦ rw (e, dispatch_frame) (dispatch-keeps c text h)
  ]

  handle_read-keeps : (c : Compositor) (r : Option (List ℕ)) → P c → P (handle_read os c r)
  unfolding handle_read
  handle_read-keeps c none h = keeps.drops_link c h
  handle_read-keeps c (some []) h = keeps.drops_link c h
  handle_read-keeps c (some (b ∷ buf)) h = dispatch_frame-keeps c (b ∷ buf) h

  fd_handler-keeps : (c : Compositor) (fd : ℕ) (m : Mask) → P c → P (fd_handler os c fd m)
  unfolding fd_handler
  fd_handler-keeps c fd m h =
      if-keeps P m.broken (keeps.drops_link c h)
        (if-keeps P m.readable (handle_read-keeps _ (os.read c.calls fd) (keeps.receives c fd h)) h)

  commit-keeps : (c : Compositor) (x : Track) (e : Commit) → P c → P (commit_track os c x e)
  unfolding commit_track
  commit-keeps c x e h =
      let counted = keeps.counts c x e.initial_commit h in
      if-keeps P e.is_toplevel (if-keeps P _ (keeps.readies _ counted) counted) h

  toplevel_commit-keeps :
      (c : Compositor) (tree : ℕ) (e : Commit) → P c → P (toplevel_commit os c tree e)
  unfolding toplevel_commit
  toplevel_commit-keeps c tree e h = elim (Option-cases (find_track tree c.toplevels)) [
    | inl q ↦ rw (q, toplevel_commit) h
    | inr (x, q) ↦ rw (q, toplevel_commit) (commit-keeps c x e h)
  ]

  toplevel_destroy-keeps : (c : Compositor) (tree : ℕ) → P c → P (toplevel_destroy os c tree)
  unfolding toplevel_destroy
  toplevel_destroy-keeps c tree h = elim (Option-cases (find_track tree c.toplevels)) [
    | inl q ↦ rw (q, toplevel_destroy) h
    | inr (x, q) ↦
        rw (q, toplevel_destroy)
          (keeps.destroys c x
            (subst (λ t. find_track t c.toplevels ≡ some x)
              (sym (find_track-tree tree c.toplevels x q)) q)
            h)
  ]

  keyboard_key-keeps :
      (k : Keycodes) (c : Compositor) (code : ℕ) (pressed : Bool)
      → P c
      → P (keyboard_key k os c code pressed)
  unfolding keyboard_key toggle_overlay
  keyboard_key-keeps k c code pressed h =
      if-keeps P (is_reserved_keycode k code && pressed)
        (if-keeps P (is_system_keycode k code)
          (if-keeps P (state_is c.fg_state game_foreground) (keeps.shows c h) (
            if-keeps P (state_is c.fg_state playos_ui_foreground_with_game_background)
              (keeps.hides c h) h))
          h)
        h

  request_dismiss-keeps : (c : Compositor) (client : ℕ) → P c → P (request_dismiss os c client)
  unfolding request_dismiss
  request_dismiss-keeps c client h = if-keeps P _ (keeps.hides c h) h

  pub step-keeps :
      (k : Keycodes) (c : Compositor) (e : Event) → Allowed c e → P c → P (step k os c e)
  unfolding step new_xdg_toplevel bind new_output
  step-keeps k c (new_toplevel client none) l h = h
  step-keeps k c (new_toplevel client (some tree)) l h = keeps.maps c client tree l h
  step-keeps k c (commit tree e) l h = toplevel_commit-keeps c tree e h
  step-keeps k c (destroy tree) l h = toplevel_destroy-keeps c tree h
  step-keeps k c (registers_shell client resource) l h = keeps.claims_shell c client resource h
  step-keeps k c (registers_overlay client resource) l h =
      keeps.claims_overlay c client resource l h
  step-keeps k c (client_gone client) l h = keeps.loses_client c client h
  step-keeps k c (binds_overlay client none) l h = h
  step-keeps k c (binds_overlay client (some resource)) l h = keeps.binds c client resource l h
  step-keeps k c (unbinds_overlay resource) l h = keeps.unbinds c resource h
  step-keeps k c (dismisses client) l h = request_dismiss-keeps c client h
  step-keeps k c (key code pressed) l h = keyboard_key-keeps k c code pressed h
  step-keeps k c (ipc_ready fd mask) l h = fd_handler-keeps c fd mask h
  step-keeps k c reconnect_timer l h = keeps.reconnects c l h
  step-keeps k c (output_added a) l h = if-keeps P _ (keeps.runs c h) h
  step-keeps k c (presented p z) l h = keeps.presents c p z h
  step-keeps k c (frame_due now) l h = keeps.draws c now h

pub Runs-keeps :
    {os : Os} {Allowed : Compositor → Event → Type 0} {P : Compositor → Type 0} {k : Keycodes}
    {c t : Compositor}
    → Keeps os Allowed P
    → Runs k os Allowed c t
    → P c
    → P t
Runs-keeps keeps here h = h
Runs-keeps {k = k} keeps (next {t = t} e r l) h = step-keeps keeps k t e l (Runs-keeps keeps r h)
