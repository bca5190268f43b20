-- ===== src/Machine/Messages/Quiet.antt =====
-- The handlers that send nothing to playos-init.
use playos_compositor.Base.{ℕ, ◌≡◌, refl, ◌∙◌, Bool, some, arith}
use playos_compositor.Compositor.{Compositor, Os, shell, overlay}
use playos_compositor.Foreground.{refresh, send_output_info}
use playos_compositor.Overlay.{bind, resolve_resource, use_resource, resource_destroy}
use playos_compositor.Ipc.{reconnect_handler, connected, retry_later, ipc_connect}
use playos_compositor.Toplevels.{reclassify, new_xdg_toplevel, restack, assign_trees}
use playos_compositor.Trusted.{
  client_destroyed, register_shell, register_overlay, assign_role, shell_client_gone,
  overlay_client_gone,
}
use playos_compositor.Render.{output_present, frame, close_window}
use playos_compositor.Screen.{NewOutput, new_output}
use playos_compositor.Machine.Messages.{messages, Says, Says-quiet}
use playos_compositor.Machine.Rule.{register_shell_cases, register_overlay_cases}

reclassify-messages : (c : Compositor) → messages (reclassify c).calls ≡ messages c.calls
unfolding reclassify assign_trees restack refresh messages
reclassify-messages c = ground arith

module _ (c : Compositor) where
  pub new_xdg_toplevel-Says : (client tree : ℕ) → Says c (new_xdg_toplevel c client (some tree))
  unfolding new_xdg_toplevel reclassify
  new_xdg_toplevel-Says client tree =
      Says-quiet c (new_xdg_toplevel c client (some tree)) refl (reclassify-messages _)

  pub register_shell-Says : (client resource : ℕ) → Says c (register_shell c client resource)
  unfolding messages reclassify assign_role
  register_shell-Says client resource =
      register_shell_cases (Says c) c client resource (Says-quiet c _ refl refl)
        (Says-quiet c _ refl (reclassify-messages (assign_role c client shell)))

  resolve-messages :
      (c' : Compositor) (client : ℕ)
      → ((resolve_resource c' client).fg_state ≡ c'.fg_state)
        × (messages (resolve_resource c' client).calls ≡ messages c'.calls)
  unfolding resolve_resource use_resource send_output_info messages
  resolve-messages c' client = (ground arith, ground arith)

  pub register_overlay-Says : (client resource : ℕ) → Says c (register_overlay c client resource)
  unfolding messages reclassify assign_role
  register_overlay-Says client resource =
      let c' = reclassify (assign_role c client overlay) in
      let (f, m) = resolve-messages c' client in
      register_overlay_cases (Says c) c client resource (Says-quiet c _ refl refl)
        (Says-quiet c _ f (m ∙ reclassify-messages (assign_role c client overlay)))

  pub client_destroyed-Says : (client : ℕ) → Says c (client_destroyed c client)
  unfolding client_destroyed shell_client_gone overlay_client_gone
  client_destroyed-Says client =
      Says-quiet c (client_destroyed c client) (ground arith) (ground arith)

  pub bind-Says : (client resource : ℕ) → Says c (bind c client (some resource))
  unfolding bind resolve_resource use_resource send_output_info messages
  bind-Says client resource =
      Says-quiet c (bind c client (some resource)) (ground arith) (ground arith)

  pub unbind-Says : (resource : ℕ) → Says c (resource_destroy c resource)
  unfolding resource_destroy
  unbind-Says resource = Says-quiet c (resource_destroy c resource) refl refl

  pub reconnect_handler-Says : (os : Os) → Says c (reconnect_handler os c)
  unfolding reconnect_handler connected retry_later ipc_connect messages
  reconnect_handler-Says os = Says-quiet c (reconnect_handler os c) (ground arith) (ground arith)

  pub new_output-Says : (a : NewOutput) → Says c (new_output c a)
  unfolding new_output
  new_output-Says a = Says-quiet c (new_output c a) (ground arith) (ground arith)

  pub output_present-Says : (p z : Bool) → Says c (output_present c p z)
  unfolding output_present
  output_present-Says p z = Says-quiet c (output_present c p z) (ground arith) (ground arith)

  pub frame-Says : (now : ℕ) → Says c (frame c now)
  unfolding frame close_window
  frame-Says now = Says-quiet c (frame c now) (ground arith) (ground arith)
