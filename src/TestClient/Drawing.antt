-- ===== src/TestClient/Drawing.antt =====
-- A frame of the test client: draw_frame of tools/test-client/src/main.c, over the floating-point
-- numbers of the C implementation.
use playos_compositor.Base.{
  ℕ, ◌≡◌, refl, Bool, true, false, ◌&&◌, List, [], ◌∷◌, ◌++◌, if◌then◌else◌,
}

-- The types float and double with what draw_frame does with them. A literal is given by its digits
-- and how many of them stand after the point.
pub record Floats : Type 1 where
  pub Float : Type 0
  pub Double : Type 0
  pub float_literal : (digits places : ℕ) → Float
  pub double_literal : (digits places : ℕ) → Double
  pub float_of_int : ℕ → Float
  pub double_of_int : ℕ → Double
  pub widen : Float → Double
  pub narrow : Double → Float
  pub add : Float → Float → Float
  pub sub : Float → Float → Float
  pub mul : Float → Float → Float
  pub negate : Float → Float
  pub add_double : Double → Double → Double
  pub mul_double : Double → Double → Double
  pub fmodf : Float → Float → Float
  pub sinf : Float → Float

module _ (n : Floats) where
  open n use {
    Float, Double, float_literal, double_literal, float_of_int, double_of_int, widen, narrow, add,
    sub, mul, negate, add_double, mul_double, fmodf, sinf,
  }

  -- The calls of EGL and OpenGL that have an effect.
  pub data GlCall : Type 0 where
    clear_color : (r g b a : Float) → GlCall
    clear use_program enable_array disable_array draw_strip swap_buffers : GlCall
    vertex_array : List Float → GlCall
    set_color : (r g b a : Float) → GlCall

  -- Where the middle of a bar is.
  unfoldable pub offset : Double → ℕ → Float
  offset elapsed i =
      let shift = mul (float_of_int i) (float_literal 33 2) in
      let moved = add_double (mul_double elapsed (widen (float_literal 3 1))) (widen shift) in
      sub (fmodf (narrow moved) (float_literal 20 1)) (float_literal 10 1)

  unfoldable pub brightness : Double → ℕ → Float
  brightness elapsed i =
      let angle = add_double (mul_double elapsed (double_literal 30 1)) (double_of_int i) in
      add (float_literal 6 1) (mul (float_literal 4 1) (sinf (narrow angle)))

  abbrev pub half_width : Float
  half_width = mul (float_literal 15 2) (float_literal 5 1)

  -- The corners of a bar, as a triangle strip.
  unfoldable pub vertices : (x1 x2 : Float) → List Float
  vertices x1 x2 =
      let bottom = negate (float_literal 10 1) in
      let top = float_literal 10 1 in
      let depth = float_literal 0 1 in
      x1 ∷ bottom ∷ depth ∷ x2 ∷ bottom ∷ depth ∷ x1 ∷ top ∷ depth ∷ x2 ∷ top ∷ depth ∷ []

  -- The body of the loop.
  unfoldable pub draw_bar : Double → ℕ → List GlCall
  unfolding offset brightness vertices
  draw_bar elapsed i =
      let x = offset elapsed i in
      let light = brightness elapsed i in
      enable_array
      ∷ vertex_array (vertices (sub x half_width) (add x half_width))
      ∷ set_color (mul (float_literal 84 2) light) (mul (float_literal 42 2) light)
          (float_literal 0 1) (add (float_literal 3 1) (mul (float_literal 5 1) light))
      ∷ draw_strip
      ∷ disable_array
      ∷ []

  -- draw_frame, by the seconds since the first frame.
  unfoldable pub draw_frame : Double → List GlCall
  unfolding draw_bar
  draw_frame elapsed =
      clear_color (float_literal 8 2) (float_literal 16 2) (float_literal 30 2) (float_literal 10 1)
      ∷ clear
      ∷ use_program
      ∷ (draw_bar elapsed 0 ++ (draw_bar elapsed 1 ++ (draw_bar elapsed 2 ++ swap_buffers ∷ [])))

  -- What OpenGL has been told when it draws.
  record Prepared : Type 0 where
    program_used : Bool
    array_enabled : Bool
    array_set : Bool
    color_set : Bool

  -- Whether nothing is drawn before its program, its array and its colour are set, the array is
  -- disabled when the buffers are swapped, and that comes last.
  is_drawable : Prepared → List GlCall → Bool
  is_drawable p [] = false
  is_drawable p (clear_color r g b a ∷ calls) = is_drawable p calls
  is_drawable p (clear ∷ calls) = is_drawable p calls
  is_drawable p (use_program ∷ calls) = is_drawable (record p { program_used = true }) calls
  is_drawable p (enable_array ∷ calls) = is_drawable (record p { array_enabled = true }) calls
  is_drawable p (disable_array ∷ calls) =
      is_drawable (record p { array_enabled = false; array_set = false }) calls
  is_drawable p (vertex_array vs ∷ calls) = is_drawable (record p { array_set = true }) calls
  is_drawable p (set_color r g b a ∷ calls) = is_drawable (record p { color_set = true }) calls
  is_drawable p (draw_strip ∷ calls) =
      p.program_used && (p.array_enabled && (p.array_set && p.color_set)) && is_drawable p calls
  is_drawable p (swap_buffers ∷ []) = if p.array_enabled then false else true
  is_drawable p (swap_buffers ∷ _ ∷ calls) = false

  -- Every frame is drawable, from whatever state of OpenGL the frame before has left.
  draw_frame-drawable :
      (p : Prepared) (elapsed : Double) → is_drawable p (draw_frame elapsed) ≡ true
  unfolding draw_frame is_drawable
  draw_frame-drawable p elapsed = refl
