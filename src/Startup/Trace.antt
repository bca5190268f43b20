-- ===== src/Startup/Trace.antt =====
-- What a list of requests holds, and how a start ends.
use playos_compositor.Base.{
  All, ◌==◌, ◌&&◌, ℕ, suc, Bool, true, false, Option, none, some, List, [], ◌∷◌,
}
use playos_compositor.Startup.Requests.{
  Boot, Start, Request, in_order, continue_with, display_destroy, init_wl_display, logged_fatal,
}

-- How often the display was destroyed, and how often the renderer's globals were put on it.
unfoldable pub destroys : List Request → ℕ
destroys [] = 0
destroys (display_destroy ∷ rs) = suc (destroys rs)
destroys (_ ∷ rs) = destroys rs

unfoldable pub inits : List Request → ℕ
inits [] = 0
inits (init_wl_display ∷ rs) = suc (inits rs)
inits (_ ∷ rs) = inits rs

-- Whether a failure was logged.
unfoldable pub has_fatal : List Request → Bool
has_fatal [] = false
has_fatal (logged_fatal p message ∷ rs) = true
has_fatal (_ ∷ rs) = has_fatal rs

-- Whether the last request destroyed the display, which was done once, after a failure was logged.
unfoldable pub torn_down : List Request → Bool
unfolding destroys has_fatal
torn_down (display_destroy ∷ rs) = destroys rs == 0 && has_fatal rs
torn_down _ = false

-- A start that goes on in a state of `I`, or that ended in a state of `F`.
abbrev pub Ends : {A : Type 0} → (Boot → Type 0) → (Boot → Type 0) → Option A × Boot → Type 0
Ends I F (none, b) = F b
Ends I F (some a, b) = I b

pub continue_with-Ends :
    {A B : Type 0} (I J F : Boot → Type 0) (f : A → Start B) (r : Option A × Boot)
    → Ends I F r
    → ((a : A) (b : Boot) → I b → Ends J F (f a b))
    → Ends J F (continue_with f r)
continue_with-Ends I J F f (none, b) h k = h
continue_with-Ends I J F f (some a, b) h k = k a b h

abbrev pub Any : Boot → Type 0
Any b = Unit {0}

-- A part that keeps `I`, and in failing establishes `F`.
abbrev pub Keep : {A : Type 0} → (Boot → Type 0) → (Boot → Type 0) → Start A → Type 0
Keep I F m = (b : Boot) → I b → Ends I F (m b)

-- The rule for parts in order.
pub in_order-Keep :
    (I F : Boot → Type 0) (ms : List (Start (Unit {0})))
    → All (Keep I F) ms
    → Keep I F (in_order ms)
in_order-Keep I F [] h b i = i
in_order-Keep I F (m ∷ ms) h b i =
    continue_with-Ends I I F (λ _. in_order ms) (m b) (h.0 b i)
      (λ _ b' i'. in_order-Keep I F ms h.1 b' i')
