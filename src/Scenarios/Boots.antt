-- ===== src/Scenarios/Boots.antt =====
-- The theorems on the start, the end, the renderer and a whole launch, at concrete inputs.
use playos_compositor.Base.{
  ◌≡◌, ◌↔◌, refl, true, false, none, some, is_some, List, [], ◌∷◌, codes, All, arith,
}
use playos_compositor.Compositor.{drm, no_output}
use playos_compositor.Lifecycle.{compositor_init}
use playos_compositor.Devices.{Drm, choose_display}
use playos_compositor.Gpu.{Gpu}
use playos_compositor.Startup.Requests.{World, boot_of}
use playos_compositor.Startup.Cleanup.{Ended, start-Ended}
use playos_compositor.Startup.Platform.{Platform}
use playos_compositor.Startup.Running.{start-Platform}
use playos_compositor.Startup.{start}
use playos_compositor.Screen.{NewOutput, add_output}
use playos_compositor.Trusted.{is_trusted}
use playos_compositor.Listeners.{detach, start_listeners, init_listeners}
use playos_compositor.Listeners.Shutdown.{after_outputs, any_added, detach_needs_output}
use playos_compositor.Renderer.{Egl, query, copied, software_renderers}
use playos_compositor.Renderer.Software.{Within, query_hardware}
use playos_compositor.Diagnostics.{Libc, running_phase, diag_init, diag_log_phase, diag_fini}
use playos_compositor.Diagnostics.Session.{
  LogCall, init, phase, fini, log_after, file_after, log_after-file,
}
use playos_compositor.Scene.{Shown}
use playos_compositor.Machine.{step, ipc_ready, new_toplevel, commit}
use playos_compositor.Machine.Visibility.{SceneInv}
use playos_compositor.Machine.Launches.{launch_completes}
use playos_compositor.Machine.Started.{reachable-SceneInv}
use playos_compositor.Scenarios.Fallbacks.{firmware_only}
use playos_compositor.Scenarios.{
  everything, keys, working, readable, first_frame, shell_trusted, to_shell_trusted,
}

-- A machine with a GPU.
abbrev discovered : Gpu
discovered = record {
  card_fd = 9;
  render_fd = none;
  card_path = codes "/dev/dri/card0";
  render_path = [];
  pci_vendor_id = 0x1002;
  pci_device_id = 0x15bf;
}

abbrev with_gpu : Drm
with_gpu = record firmware_only { discover = λ n. some discovered }

-- Everything succeeds, on a machine with a GPU.
abbrev pub healthy : World
healthy = record {
  ok = λ b r. true;
  devices = with_gpu;
  playos_renderer = none;
  runtime_dir = none;
}

start-Ended_example :
    Ended true
      (start healthy drm (boot_of healthy no_output)).0
      (start healthy drm (boot_of healthy no_output)).1
start-Ended_example = start-Ended healthy drm no_output

start-Platform_example :
    Platform healthy no_output drm (start healthy drm (boot_of healthy no_output)).1
unfolding start choose_display
start-Platform_example = start-Platform healthy drm no_output refl

-- An output that takes everything.
abbrev pub panel_added : NewOutput
panel_added = record {
  renders = true;
  commits = true;
  modes = [];
  laid_out = true;
  has_scene = true;
}

detach_needs_output_example :
    is_some (
      detach
        (after_outputs (compositor_init drm) (panel_added ∷ []) (start_listeners init_listeners)))
    ≡ true
unfolding any_added add_output compositor_init
detach_needs_output_example = detach_needs_output (compositor_init drm) (panel_added ∷ [])

abbrev radeon : Egl
radeon = record {
  current = true;
  renderer = some (codes "AMD Radeon (radeonsi)");
  vendor = some (codes "AMD");
  version = none;
}

query_hardware_example :
    ((query true radeon).1 ≡ true)
    ↔ All (λ k. ¬ Within k (copied 255 radeon.renderer)) software_renderers
query_hardware_example = query_hardware radeon refl

shell_trusted-SceneInv : SceneInv shell_trusted
shell_trusted-SceneInv = reachable-SceneInv keys working drm no_output to_shell_trusted

launch_completes_example :
    Shown
      (step keys working
        (step keys working
          (step keys working shell_trusted (ipc_ready 7 readable))
          (new_toplevel 6 (some 60)))
        (commit 60 first_frame)).game_tree
      true
      (step keys working
        (step keys working
          (step keys working shell_trusted (ipc_ready 7 readable))
          (new_toplevel 6 (some 60)))
        (commit 60 first_frame)).calls
unfolding everything is_trusted
launch_completes_example =
    (launch_completes keys working shell_trusted 7 readable (codes "t-1") (codes "pong") [] 6 60
      first_frame shell_trusted-SceneInv refl refl (ground arith) (ground arith) (ground arith)
      (omega arith) refl refl refl refl refl).2

-- A C library with short answers.
abbrev pub libc : Libc
libc = record {
  decimal = λ n. codes "7";
  hex4 = λ n. codes "1002";
  nine_digits = λ n. codes "000000000";
  seconds = λ ws. 0;
  nanoseconds = λ ws. 0;
  errno = λ ws. 2;
  strerror = λ n. codes "No such file or directory";
  pid = 7;
}

-- The log of a whole run whose file can be opened, the latest call first.
abbrev log_calls : List LogCall
log_calls = fini ∷ phase running_phase (codes "compositor ready") ∷ init true ∷ []

log_after-file_example : file_after (log_after libc log_calls).writes ≡ some false
unfolding log_after diag_init diag_log_phase diag_fini
log_after-file_example = log_after-file libc log_calls
