-- ===== src/Startup/Faults.antt =====
-- The fallback of playos_compositor_start for a discovered GPU that does not start.
use playos_compositor.Base.{Bool, true, false}
use playos_compositor.Startup.Requests.{Boot, Request, renderer_autocreate, allocator_autocreate}

-- A system on which everything succeeds but one kind of request.
abbrev pub but_renderer : Boot → Request → Bool
but_renderer b renderer_autocreate = false
but_renderer b _ = true

abbrev pub but_allocator : Boot → Request → Bool
but_allocator b allocator_autocreate = false
but_allocator b _ = true
