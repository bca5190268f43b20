-- ===== src/Scenarios/Inputs.antt =====
-- The theorems on the wire format, on the devices and on the outputs, at concrete inputs.

use playos_compositor.Base.{arith, ℕ, ◌≡◌, refl, true, false, some, Option, [], ◌∷◌, List, codes}
use playos_compositor.Wire.Json.{json_get_string}
use playos_compositor.Wire.Frame.{body, frame_of, decode, encode, le32_store}
use playos_compositor.Wire.RoundTrip.{decode-encode}
use playos_compositor.Foreground.{msg_game_surface_ready}
use playos_compositor.Ipc.{dispatch, msg_set_expected_game}
use playos_compositor.Ipc.Delivery.{dispatch_token_missing}
use playos_compositor.Gpu.{ScoreInput, Connector, pci_vendor_intel, pci_vendor_nvidia}
use playos_compositor.Outputs.{DrmMode, DrmConnector, edp, hdmia, select_from_fd}
use playos_compositor.Outputs.Best.{Chosen, reread, select_from_fd-Chosen}
use playos_compositor.Scenarios.{working, playing}

ready_frame : List ℕ
unfolding body le32_store
ready_frame = frame_of (body msg_game_surface_ready [])

ready_frame-decodes : decode ready_frame ≡ some (body msg_game_surface_ready [])
unfolding encode ready_frame
ready_frame-decodes = decode-encode msg_game_surface_ready [] ready_frame refl

decode-encode_example : decode ready_frame ≡ some (body msg_game_surface_ready [])
unfolding encode ready_frame
decode-encode_example = decode-encode msg_game_surface_ready [] ready_frame refl

dispatch_token_missing_example :
    (dispatch working playing (body msg_set_expected_game [])).expected_launch_token ≡ codes "?"
unfolding json_get_string body
dispatch_token_missing_example = (dispatch_token_missing working playing [] refl).0

abbrev nvidia_idle : ScoreInput
nvidia_idle = record { vendor_id = pci_vendor_nvidia; has_connected_output = false; is_edp = false }

abbrev intel_panel : ScoreInput
intel_panel = record { vendor_id = pci_vendor_intel; has_connected_output = true; is_edp = true }

abbrev hdmi : Connector
hdmi = record { connected = true; is_internal = false }

abbrev panel : Connector
panel = record { connected = true; is_internal = true }

abbrev full_hd : DrmMode
full_hd = record { hdisplay = 1920; vdisplay = 1080; vrefresh = 120 }

abbrev outputs : List (Option DrmConnector)
outputs =
    some (record { connected = true; connector_type = hdmia; type_id = 1; modes = full_hd ∷ [] })
    ∷ some (record { connected = true; connector_type = edp; type_id = 1; modes = full_hd ∷ [] })
    ∷ []

select_from_fd-Chosen_example : Chosen outputs (select_from_fd (some outputs) (reread outputs))
select_from_fd-Chosen_example =
    select_from_fd-Chosen outputs ((omega arith, tt), ((omega arith, tt), tt))
