-- ===== src/Startup/Handover.antt =====
-- From main to the event loop: what holds of the machine holds of the program as it is started.
use playos_compositor.Base.{ℕ, ◌≡◌, Option, some, List, arith, subst}
use playos_compositor.Compositor.{Compositor, Os, Output}
use playos_compositor.Button.{Keycodes}
use playos_compositor.Lifecycle.{started, backend_of, compositor_init}
use playos_compositor.Machine.{Reach}
use playos_compositor.Machine.Session.{SessionInv}
use playos_compositor.Machine.Visibility.{SceneInv}
use playos_compositor.Machine.Clients.{ClientsInv}
use playos_compositor.Machine.Link.{LinkInv}
use playos_compositor.Machine.Started.{
  reachable-SessionInv, reachable-SceneInv, reachable-ClientsInv, reachable-LinkInv,
}
use playos_compositor.Machine.Announced.{Announced}
use playos_compositor.Machine.Announced.Reached.{reachable-Announced}
use playos_compositor.Machine.Descriptors.{Descriptors}
use playos_compositor.Machine.Descriptors.Handlers.{reachable-Descriptors}
use playos_compositor.Startup.Requests.{World, boot_of}
use playos_compositor.Startup.{start, main}

pub main-started :
    (w : World) (os : Os) (env : Option (List ℕ)) (c : Compositor)
    → main w os env ≡ some c
    → (o : Output) × (c ≡ started os (backend_of env) o)
unfolding main started compositor_init
main-started w os env c h = (
  (start w (backend_of env) (boot_of w (compositor_init (backend_of env)).output)).1.output,
  ground arith,
)

-- Whatever wlroots, libwayland and the system answer to the start: if main reaches its event loop,
-- every state that the loop reaches satisfies SessionInv, SceneInv, ClientsInv, LinkInv, Announced
-- and Descriptors.
pub main-Invariants :
    (w : World) (k : Keycodes) (os : Os) (env : Option (List ℕ)) (c t : Compositor)
    → main w os env ≡ some c
    → Reach k os c t
    → SessionInv t × SceneInv t × ClientsInv t × LinkInv t.link × Announced t × Descriptors t
main-Invariants w k os env c t h r =
    let (o, e) = main-started w os env c h in
    let r' = subst (λ s. Reach k os s t) e r in
    (
      reachable-SessionInv k os (backend_of env) o r',
      reachable-SceneInv k os (backend_of env) o r',
      reachable-ClientsInv k os (backend_of env) o r',
      reachable-LinkInv k os (backend_of env) o r',
      reachable-Announced k os (backend_of env) o r',
      reachable-Descriptors k os (backend_of env) o r',
    )
