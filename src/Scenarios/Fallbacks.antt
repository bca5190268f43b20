-- ===== src/Scenarios/Fallbacks.antt =====
-- The choice of the display where no GPU is found but the firmware has a display, and a discovery.
use playos_compositor.Base.{◌≡◌, refl, true, some, none, List, [], ◌∷◌, codes}
use playos_compositor.Gpu.{candidates, gpu_discover, Device, pci_vendor_amd}
use playos_compositor.Gpu.Discovery.{Discovered, gpu_discover-Discovered}
use playos_compositor.Compositor.{no_output}
use playos_compositor.Outputs.{OutputConfig}
use playos_compositor.Devices.{
  Drm, choose_display, software, wait_for_gpu, usable_card, first_card, probe_entries,
  probe_drm_card, software_display, gpu_display, sized, starts_with,
}
use playos_compositor.Devices.Fallback.{Given, choose_display-Given}

abbrev pub firmware_panel : OutputConfig
firmware_panel = record {
  type_name = codes "eDP";
  type_id = 1;
  width = 1280;
  height = 800;
  refresh_mhz = 60000;
  scale_100 = 100;
  is_edp = true;
}

-- The second card has the display.
abbrev pub firmware_only : Drm
firmware_only = record {
  discover = λ n. none;
  opens = record { read_write = λ path. some 9; read_only = λ path. some 9 };
  select = λ fd. some firmware_panel;
  entries = some (codes "by-path" ∷ codes "card1" ∷ []);
}

choose_display-Given_example :
    Given firmware_only no_output (choose_display firmware_only no_output)
choose_display-Given_example = choose_display-Given firmware_only no_output

firmware_display :
    choose_display firmware_only no_output
    ≡ software (codes "/dev/dri/card1") (record no_output { width = 1280; height = 800 })
unfolding choose_display gpu_display wait_for_gpu probe_drm_card probe_entries first_card
    usable_card starts_with software_display sized
firmware_display = refl

-- A laptop whose only card drives its panel.
abbrev laptop : List Device
laptop =
    record {
      has_primary = true;
      primary_path = codes "/dev/dri/card0";
      render_path = codes "/dev/dri/renderD128";
      pci = some (pci_vendor_amd, 0x15bf);
      connectors = some (some (record { connected = true; is_internal = true }) ∷ []);
    }
    ∷ []

gpu_discover-Discovered_example :
    Discovered firmware_only.opens (candidates laptop) (gpu_discover firmware_only.opens laptop)
gpu_discover-Discovered_example = gpu_discover-Discovered firmware_only.opens laptop
