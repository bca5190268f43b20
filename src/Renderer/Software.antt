-- ===== src/Renderer/Software.antt =====
-- When a renderer counts as hardware.
use playos_compositor.Base.{
  sym, subst, ap, ℕ, ◌≡◌, ◌↔◌, inl, inr, refl, Bool, true, false, not, none, List, [], ◌∷◌, ◌++◌,
  arith, All, Bool-cases,
}
use playos_compositor.Devices.{starts_with}
use playos_compositor.Renderer.{
  contains, contains_any, software_renderers, is_software, Egl, copied, info_of, query,
}

-- A text stands somewhere in another.
pub record Within (needle haystack : List ℕ) : Type 0 where
  pub before : List ℕ
  pub after : List ℕ
  pub split : haystack ≡ before ++ (needle ++ after)

starts_with-split :
    (needle xs : List ℕ) → starts_with needle xs ≡ true → (after : List ℕ) × (xs ≡ needle ++ after)
unfolding starts_with
starts_with-split [] xs h = (xs, refl)
starts_with-split (p ∷ ps) [] h = cc
starts_with-split (p ∷ ps) (x ∷ xs) h =
    let (after, e) = starts_with-split ps xs (ground arith) in (after, ground arith)

starts_with-append : (needle after : List ℕ) → starts_with needle (needle ++ after) ≡ true
unfolding starts_with
starts_with-append [] after = refl
starts_with-append (p ∷ ps) after = ground (arith, starts_with-append ps after)

contains-Within : (xs needle : List ℕ) → contains xs needle ≡ true → Within needle xs
unfolding contains
contains-Within [] needle h =
    let (after, e) = starts_with-split needle [] h in
    record { before = []; after = after; split = e }
contains-Within (x ∷ xs) needle h = elim (Bool-cases (starts_with needle (x ∷ xs))) [
  | inl e ↦
      let (after, s) = starts_with-split needle (x ∷ xs) e in
      record { before = []; after = after; split = s }
  | inr e ↦
      let w = contains-Within xs needle (ground arith) in
      record { before = x ∷ w.before; after = w.after; split = ap (◌∷◌ x) w.split }
]

contains_head : (xs needle : List ℕ) → starts_with needle xs ≡ true → contains xs needle ≡ true
unfolding contains
contains_head [] needle h = h
contains_head (x ∷ xs) needle h = ground arith

contains-before :
    (before needle after : List ℕ) → contains (before ++ (needle ++ after)) needle ≡ true
unfolding contains
contains-before [] needle after =
    contains_head (needle ++ after) needle (starts_with-append needle after)
contains-before (x ∷ before) needle after = ground (arith, contains-before before needle after)

not-Within : (xs needle : List ℕ) → contains xs needle ≡ false → ¬ Within needle xs
not-Within xs needle h w =
    let yes_it_does = contains-before w.before needle w.after in
    let here = subst (λ t. contains t needle ≡ true) (sym w.split) yes_it_does in cc

contains_any-false :
    (xs : List ℕ) (ks : List (List ℕ)) → (contains_any xs ks ≡ false) ↔ All (λ k. ¬ Within k xs) ks
unfolding contains_any
contains_any-false xs [] = (λ h. tt, λ h. refl)
contains_any-false xs (k ∷ ks) = (
  λ h. (not-Within xs k (ground arith), (contains_any-false xs ks).0 (ground arith)),
  λ h. elim (Bool-cases (contains xs k)) [
    | inl e ↦ absurd (h.0 (contains-Within xs k e))
    | inr e ↦ let rest = (contains_any-false xs ks).1 h.1 in ground arith
  ],
)

not-eq-true : (b : Bool) → (not b ≡ true) ↔ (b ≡ false)
not-eq-true true = (λ h. cc, λ h. cc)
not-eq-true false = (λ h. refl, λ h. refl)

-- With a current EGL context, the query succeeds exactly if none of the names of Mesa's software
-- renderers stands in the renderer's string, as far as that fits its buffer. So it succeeds also
-- where OpenGL gives no string.
pub query_hardware :
    (e : Egl)
    → e.current ≡ true
    → ((query true e).1 ≡ true) ↔ All (λ k. ¬ Within k (copied 255 e.renderer)) software_renderers
unfolding query info_of is_software
query_hardware e h =
    let name = copied 255 e.renderer in
    let flag = not-eq-true (contains_any name software_renderers) in
    let none_of = contains_any-false name software_renderers in
    (λ q. none_of.0 (flag.0 (ground arith)), λ a. let clear = flag.1 (none_of.1 a) in ground arith)

-- OpenGL gives no renderer string: the query takes that for hardware.
pub query_unnamed : (e : Egl) → e.current ≡ true → e.renderer ≡ none → (query true e).1 ≡ true
unfolding query info_of is_software contains_any contains starts_with
query_unnamed e h n = ground arith
