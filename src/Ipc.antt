-- ===== src/Ipc.antt =====
-- The client of compositor.sock (src/compositor_ipc.c): dispatch of a message, and the life of the
-- connection.
pub mod Delivery
pub mod Backoff
use playos_compositor.Base.{
  ℕ, ◌*◌, Bool, true, false, Option, none, some, List, [], ◌∷◌, if◌then◌else◌, ltb, str_eq, c_str,
  codes,
}
use playos_compositor.Compositor.{
  Compositor, Call, received, opened, closed, timer_update, null_timer, Os,
}
use playos_compositor.Wire.Json.{json_get_string}
use playos_compositor.Wire.Frame.{decode}
use playos_compositor.Foreground.{set_expected_game, handle_clear_expected, force_terminate}
use playos_compositor.Overlay.{manager_show, manager_hide}

-- The string that a buffer of `size` bytes holds after json_get_string: where that fails the
-- buffer is not written.
unfoldable pub string_or : Option (List ℕ) → List ℕ → List ℕ
unfolding c_str
string_or none uninit = uninit
string_or (some v) uninit = c_str v

abbrev pub msg_set_expected_game : List ℕ
msg_set_expected_game = codes "SetExpectedGame"

abbrev pub msg_clear_expected_game : List ℕ
msg_clear_expected_game = codes "ClearExpectedGame"

abbrev pub msg_force_terminate_game : List ℕ
msg_force_terminate_game = codes "ForceTerminateGame"

abbrev pub msg_show_overlay : List ℕ
msg_show_overlay = codes "ShowOverlay"

abbrev pub msg_hide_overlay : List ℕ
msg_hide_overlay = codes "HideOverlay"

unfoldable pub dispatch_set_expected : Os → Compositor → List ℕ → Compositor
dispatch_set_expected os c text =
    set_expected_game os c
      (string_or (json_get_string text (codes "launch_token") 64) (os.uninit c.calls 64))
      (string_or (json_get_string text (codes "game_id") 256) (os.uninit c.calls 256))

-- The comparisons of ipc_dispatch, in their order.
unfoldable pub dispatch_type : Os → Compositor → List ℕ → List ℕ → Compositor
dispatch_type os c type text =
    if str_eq type msg_set_expected_game
    then dispatch_set_expected os c text
    else if str_eq type msg_clear_expected_game
    then handle_clear_expected os c
    else if str_eq type msg_force_terminate_game
    then force_terminate os c
    else if str_eq type msg_show_overlay
    then manager_show os c
    else if str_eq type msg_hide_overlay
    then manager_hide os c
    else c

-- ipc_dispatch: a message with no "type" is dropped.
unfoldable pub dispatch : Os → Compositor → List ℕ → Compositor
dispatch os c text = elim (json_get_string text (codes "type") 128) [
  | none ↦ c
  | some type ↦ dispatch_type os c (c_str type) text
]

-- ipc_connect: the descriptor or -1, and the calls made so far. The path is shorter than sun_path.
unfoldable pub ipc_connect : Os → List Call → Option ℕ × List Call
ipc_connect os calls = elim (os.socket calls) [
  | none ↦ (none, calls)
  | some fd ↦
      if os.connect (opened fd ∷ calls) fd
      then (some fd, opened fd ∷ calls)
      else (none, closed fd ∷ opened fd ∷ calls)
]

abbrev pub close_fd : Option ℕ → List Call → List Call
close_fd none calls = calls
close_fd (some fd) calls = closed fd ∷ calls

-- ipc_disconnect.
unfoldable pub ipc_disconnect : Compositor → Compositor
ipc_disconnect c = record c {
  link = record c.link { source = false; sock_fd = none };
  calls = close_fd c.link.sock_fd c.calls;
}

-- wl_event_source_timer_update of the timer that wl_event_loop_add_timer gave, or of NULL.
abbrev pub update_timer : Bool → ℕ → Call
update_timer true delay = timer_update delay
update_timer false delay = null_timer

-- ipc_schedule_reconnect, which does not look at the new timer.
unfoldable pub schedule_reconnect : Os → Compositor → Compositor
schedule_reconnect os c = if c.link.timer then c else record c {
  link = record c.link { timer = os.adds_timer c.calls };
  calls = update_timer (os.adds_timer c.calls) c.link.delay_ms ∷ c.calls;
}

-- The delay after a failed attempt: doubled, and 5000 ms at most.
unfoldable pub next_delay : ℕ → ℕ
next_delay d = let d' = if ltb d 5000 then d * 2 else d in if ltb 5000 d' then 5000 else d'

-- After a connect that succeeded; the event source is not looked at.
unfoldable pub connected : Os → Compositor → ℕ → Compositor
connected os c fd = record c {
  link = record {
    sock_fd = some fd;
    source = os.adds_fd c.calls fd;
    timer = false;
    delay_ms = 100;
  };
}

unfoldable pub retry_later : Compositor → Compositor
unfolding next_delay
retry_later c = record c {
  link = record c.link { delay_ms = next_delay c.link.delay_ms };
  calls = timer_update (next_delay c.link.delay_ms) ∷ c.calls;
}

-- ipc_reconnect_handler.
unfoldable pub reconnect_handler : Os → Compositor → Compositor
reconnect_handler os c =
    let (fd, calls) = ipc_connect os c.calls in
    elim fd [
      | some n ↦ connected os (record c { calls = calls }) n
      | none ↦ retry_later (record c { calls = calls })
    ]

-- The mask bits that ipc_fd_handler reads: hangup or error, and readable.
pub record Mask : Type 0 where
  pub broken : Bool
  pub readable : Bool

unfoldable pub drop_link : Os → Compositor → Compositor
unfolding ipc_disconnect schedule_reconnect
drop_link os c = schedule_reconnect os (ipc_disconnect c)

unfoldable pub dispatch_frame : Os → Compositor → List ℕ → Compositor
dispatch_frame os c buf = elim (decode buf) [ none ↦ c | some text ↦ dispatch os c text ]

-- After read(2): none is an error, no bytes the end of the stream.
unfoldable pub handle_read : Os → Compositor → Option (List ℕ) → Compositor
handle_read os c none = drop_link os c
handle_read os c (some []) = drop_link os c
handle_read os c (some (b ∷ buf)) = dispatch_frame os c (b ∷ buf)

-- ipc_fd_handler.
unfoldable pub fd_handler : Os → Compositor → ℕ → Mask → Compositor
fd_handler os c fd mask =
    if mask.broken
    then drop_link os c
    else if mask.readable
    then handle_read os (record c { calls = received fd ∷ c.calls }) (os.read c.calls fd)
    else c

-- playos_compositor_ipc_start.
unfoldable pub ipc_start : Os → Compositor → Compositor
ipc_start os c =
    let (fd, calls) = ipc_connect os c.calls in
    let c' = record c {
      link = record { sock_fd = none; source = false; timer = false; delay_ms = 100 };
      calls = calls;
    } in
    elim fd [
      | some n ↦ record c' {
        link = record c'.link { sock_fd = some n; source = os.adds_fd calls n };
      }
      | none ↦ schedule_reconnect os c'
    ]

-- playos_compositor_ipc_stop.
unfoldable pub ipc_stop : Compositor → Compositor
unfolding ipc_disconnect
ipc_stop c = let c' = ipc_disconnect c in record c' { link = record c'.link { timer = false } }
