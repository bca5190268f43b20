-- ===== src/Lib.antt =====
-- The PlayOS compositor: a Wayland compositor, built on wlroots, for a console. One shell and one
-- overlay claim trusted roles; the supervisor playos-init announces each game over a socket and
-- learns from the compositor when the game has drawn its first frame and which foreground state
-- holds. The compositor keeps which scene trees are enabled and how they are stacked, intercepts
-- the system button, and at its start picks the GPU, the connector and the mode.
--
-- The parts, and the files of the repository that each models:
--   * Compositor: the struct of include/compositor.h as a record, with the enumerations. Pointers to
--     clients, resources and scene trees are numbers, and NULL is `none`. The record also holds the
--     calls that leave the program, the latest first, so that what a scene tree, a client or the
--     socket was last told can be read off. Os is the operating system, a parameter: the answers of
--     send, socket, connect and read, whether libwayland's event loop adds a descriptor and a timer,
--     and the bytes of memory that nothing has written, each as a function of the calls made so far.
--   * Wire: the frames and the JSON scanner of src/compositor_ipc.c (le32_load, le32_store,
--     json_get_string, frame_send), on bytes as numbers; Wire/Grammar says what the scanner reads
--     without the scanner.
--   * Foreground: src/state_machine.c, one definition per function.
--   * Overlay: src/overlay_manager.c and the overlay's global in src/playos_manager.c.
--   * Scene: the state of the scene that the recorded calls leave, enabled trees and Z order.
--   * Toplevels: the tracked surfaces of src/compositor.c, with playos_compositor_reclassify_toplevels
--     and the handlers of a new surface, a commit and a destruction.
--   * Trusted: src/trusted_client.c and the requests of src/playos_manager.c.
--   * Button: src/system_button.c, with the codes of linux/input-event-codes.h as a parameter, and
--     the keyboards that it listens to.
--   * Ipc: ipc_dispatch, the connection and its back-off in src/compositor_ipc.c.
--   * Render: the mode that handle_new_output sets, handle_output_present and handle_frame of
--     src/compositor.c.
--   * Screen: handle_new_output as a whole, with its early returns.
--   * Listeners: the links of the compositor's listeners, from playos_compositor_init to their
--     removal in playos_compositor_destroy, in src/compositor.c; a link may be in two lists.
--   * Lifecycle: playos_compositor_init, the end of playos_compositor_start, and the destruction, in
--     src/compositor.c, and the choice of the backend in src/main.c.
--   * Startup: playos_compositor_start of src/compositor.c and playos_drm_backend_start of
--     src/drm_backend.c, in a monad that keeps the requests to wlroots and the system in their
--     order. World is a parameter: it says whether each request succeeds, by all that went before
--     it, and what the machine answers about its devices. main here ends at the event loop.
--   * Renderer: src/renderer_gbm_egl.c, over what EGL and OpenGL answer.
--   * Diagnostics: src/diagnostics.c, with what the log does to its file; the C library's formats,
--     clock and errno are a parameter.
--   * Readiness: the file of src/readiness.c.
--   * TestClient: tools/test-client/src/main.c, a Wayland client that draws with EGL: its handlers,
--     and in TestClient/Session its set-up, its render loop and its clean-up. Driver is a parameter:
--     whether each creation and each step succeeds, by all that the client did before. A frame is one
--     act there, and brings the events that are handled in the next round of the loop;
--     TestClient/Drawing has the calls that draw it.
--   * Machine: the event loop as a relation. A step is one handler run to its end; events come in
--     any order that libwayland allows: a new tree is none of the tracked ones, and the reconnect
--     timer fires only while it is set. Machine/Automaton is an automaton with nine inputs, the
--     specification of the foreground state, and the input that each event is. Machine/Announced
--     reads off what playos-init was last told of the state, and Machine/Messages the frames that
--     were sent, and in its Echo the token of a launch; Machine/Told what the overlay's client was last told.
--     Machine/Descriptors reads off which sockets are open.
--   * Program: main from the start to the exit, over what the event loop wakes up for: events, the
--     signals for which handle_signal of src/compositor.c ends the loop, and SIGPIPE, which a send(2)
--     of src/compositor_ipc.c may raise. With a listener in the lists of two outputs the program is
--     taken to be corrupted, and after the update of a timer that is NULL it has crashed.
--   * Gpu: src/gpu_score.c and src/gpu_discovery.c, over the devices that libdrm reports.
--   * Outputs: src/output_modes.c, over the connectors that libdrm reports.
--   * Devices: the choice of the DRM device in playos_compositor_start and
--     compositor_probe_drm_card of src/compositor.c, over what the machine answers to each attempt.
--   * Scenarios: the theorems at concrete states and inputs, among them a run from the start of the
--     compositor through the launch of a game.
--
-- Bounds: the buffers keep the sizes of the source (64 and 256 bytes for the token and the
-- identifier, 128 for the type, 65536 for a body), and the counters of frames and the product of a
-- mode's width and height wrap at 32 bits. A numeric field of the output is a natural number. Every
-- loop is a recursion on the list that it walks or on the ten attempts at GPU discovery, but for the
-- test client's render loop, which runs on fuel: three rounds more than those before the one in which
-- drawing reads the request to close are enough. Its clock is in microseconds, and a size that is not
-- positive is 0.
--
-- Not modelled: wlroots, libwayland, EGL, OpenGL, libdrm, the C library and its floating-point
-- numbers are parameters. The compositor has no handler for the removal of an output, and outputs
-- stay. The overlay's requests set_surface and surface_ready and the binding of playos_manager_v1
-- change nothing that the compositor keeps, and are left out.
-- tools/test-client/src/xdg-shell-client-protocol.c and its header are generated. A failing
-- allocation is modelled where it is a branch of a handler.
pub mod Base
pub mod Compositor
pub mod Wire
pub mod Foreground
pub mod Overlay
pub mod Scene
pub mod Toplevels
pub mod Trusted
pub mod Button
pub mod Ipc
pub mod Render
pub mod Renderer
pub mod Readiness
pub mod TestClient
pub mod Lifecycle
pub mod Gpu
pub mod Devices
pub mod Diagnostics
pub mod Startup
pub mod Screen
pub mod Listeners
pub mod Outputs
pub mod Scenarios
pub mod Machine
pub mod Program
