-- ===== src/Renderer.antt =====
-- The renderer's identity, src/renderer_gbm_egl.c: what EGL and OpenGL answer is a parameter.
pub mod Software
use playos_compositor.Base.{
  ℕ, Bool, true, false, not, ◌&&◌, ◌||◌, Option, none, some, List, [], ◌∷◌, codes, take,
  if◌then◌else◌,
}
use playos_compositor.Devices.{starts_with}

-- strstr(haystack, needle) != NULL.
unfoldable pub contains : List ℕ → List ℕ → Bool
unfolding starts_with
contains [] needle = starts_with needle []
contains (x ∷ xs) needle = starts_with needle (x ∷ xs) || contains xs needle

-- software_renderers.
abbrev pub software_renderers : List (List ℕ)
software_renderers = codes "llvmpipe" ∷ codes "softpipe" ∷ codes "swrast" ∷ []

unfoldable pub contains_any : List ℕ → List (List ℕ) → Bool
unfolding contains
contains_any name [] = false
contains_any name (k ∷ ks) = contains name k || contains_any name ks

-- playos_renderer_is_software; NULL is `none`.
unfoldable pub is_software : Option (List ℕ) → Bool
unfolding contains_any
is_software none = true
is_software (some name) = contains_any name software_renderers

-- struct playos_renderer_info.
pub record RendererInfo : Type 0 where
  pub renderer_name : List ℕ
  pub vendor_name : List ℕ
  pub gles_version : List ℕ
  pub is_hardware : Bool
  pub gbm_available : Bool
  pub egl_available : Bool

-- playos_renderer_is_mesa_gbm.
unfoldable pub is_mesa_gbm : Option RendererInfo → Bool
unfolding contains
is_mesa_gbm none = false
is_mesa_gbm (some info) =
    if contains info.renderer_name (codes "Mesa")
      || contains info.renderer_name (codes "radeonsi")
      || contains info.renderer_name (codes "iris")
      || contains info.vendor_name (codes "Mesa")
    then info.gbm_available
    else false

-- Whether a display and a context are current, and the three strings of glGetString.
pub record Egl : Type 0 where
  pub current : Bool
  pub renderer : Option (List ℕ)
  pub vendor : Option (List ℕ)
  pub version : Option (List ℕ)

abbrev pub no_info : RendererInfo
no_info = record {
  renderer_name = [];
  vendor_name = [];
  gles_version = [];
  is_hardware = false;
  gbm_available = false;
  egl_available = false;
}

-- strncpy of a string that may be NULL into a buffer of `suc size` zero bytes.
abbrev pub copied : ℕ → Option (List ℕ) → List ℕ
copied size none = []
copied size (some text) = take size text

unfoldable pub info_of : Egl → RendererInfo
unfolding is_software
info_of e = record {
  renderer_name = copied 255 e.renderer;
  vendor_name = copied 255 e.vendor;
  gles_version = copied 31 e.version;
  is_hardware = not (is_software (some (copied 255 e.renderer)));
  gbm_available = true;
  egl_available = true;
}

-- playos_renderer_query: the information, and whether it returns 0; the flag says whether the
-- renderer is not NULL.
unfoldable pub query : Bool → Egl → RendererInfo × Bool
unfolding info_of
query false e = (no_info, false)
query true e = if e.current then (info_of e, (info_of e).is_hardware) else (
  record no_info {
    renderer_name = take 255 (codes "EGL context not current (headless or pre-init)");
  },
  false,
)
