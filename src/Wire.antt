-- ===== src/Wire.antt =====
-- The wire format of compositor.sock (src/compositor_ipc.c): little-endian words, frames, and the
-- extraction of a string from a JSON body.
pub mod Json
pub mod Frame
pub mod RoundTrip
pub mod Grammar
