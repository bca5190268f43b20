-- ===== src/Readiness.antt =====
-- The file by which the compositor tells playos-init that it is ready: src/readiness.c. The C
-- library formats the number of the process.
use playos_compositor.Base.{
  ℕ, ◌≡◌, refl, ◌∙◌, ap, Bool, true, false, Option, none, some, List, [], ◌∷◌, ◌++◌, arith, codes,
  All, ◌==◌, if◌then◌else◌,
}
use playos_compositor.Compositor.{Backend, headless, wayland, drm}
use playos_compositor.Diagnostics.{Libc, printed}

abbrev pub backend_name : Backend → List ℕ
backend_name headless = codes "headless"
backend_name wayland = codes "wayland"
backend_name drm = codes "drm"

-- The format of the file.
unfoldable pub readiness_text : Libc → (socket : List ℕ) → Backend → List ℕ
readiness_text libc socket backend = printed (
    codes "pid="
    ∷ libc.decimal libc.pid
    ∷ codes "\nsocket="
    ∷ socket
    ∷ codes "\nbackend="
    ∷ backend_name backend
    ∷ codes "\nready=true\n"
    ∷ [])

-- playos_readiness_signal: the text of the file, or nothing where it cannot be opened.
unfoldable pub readiness_signal : Libc → (fopened : Bool) → List ℕ → Backend → Option (List ℕ)
unfolding readiness_text
readiness_signal libc true socket backend = some (readiness_text libc socket backend)
readiness_signal libc false socket backend = none

-- A text by its lines, as a reader of the file splits it; what follows the last newline is dropped.
abbrev join : ℕ → List (List ℕ) → List (List ℕ)
join c [] = []
join c (l ∷ ls) = (c ∷ l) ∷ ls

unfoldable pub lines : List ℕ → List (List ℕ)
lines [] = []
lines (c ∷ r) = let rest = lines r in if c == 10 then [] ∷ rest else join c rest

abbrev pub IsInLine : ℕ → Type 0
IsInLine c = (c == 10) ≡ false

lines-line : (l rest : List ℕ) → All IsInLine l → lines (l ++ (10 ∷ rest)) ≡ l ∷ lines rest
unfolding lines
lines-line [] rest h = refl
lines-line (c ∷ l) rest h = ground (arith, lines-line l rest h.1)

IsInLine-append :
    (key value : List ℕ) → All IsInLine key → All IsInLine value → All IsInLine (key ++ value)
IsInLine-append [] value h k = k
IsInLine-append (c ∷ key) value h k = (h.0, IsInLine-append key value h.1 k)

-- A line `key=value` comes first.
field-line :
    (key value rest : List ℕ) (ls : List (List ℕ))
    → All IsInLine key
    → All IsInLine value
    → lines rest ≡ ls
    → lines ((key ++ value) ++ (10 ∷ rest)) ≡ (key ++ value) ∷ ls
field-line key value rest ls h k e =
    lines-line (key ++ value) rest (IsInLine-append key value h k) ∙ ap (◌∷◌ (key ++ value)) e

backend_name-IsInLine : (b : Backend) → All IsInLine (backend_name b)
backend_name-IsInLine headless = ground arith
backend_name-IsInLine wayland = ground arith
backend_name-IsInLine drm = ground arith

-- The file has exactly four lines, in this order: the number of the process, the name of the socket,
-- the kind of the backend, and that the compositor is ready; as long as the C library prints a
-- number without a newline, and the name of the socket has none.
readiness_text-lines :
    (libc : Libc) (socket : List ℕ) (backend : Backend)
    → All IsInLine (libc.decimal libc.pid)
    → All IsInLine socket
    → lines (readiness_text libc socket backend)
      ≡ (codes "pid=" ++ libc.decimal libc.pid)
        ∷ (codes "socket=" ++ socket)
        ∷ (codes "backend=" ++ backend_name backend)
        ∷ codes "ready=true"
        ∷ []
unfolding readiness_text lines
readiness_text-lines libc socket backend p s =
    let name = backend_name backend in
    field-line (codes "pid=") (libc.decimal libc.pid) _ _ (ground arith) p (
      field-line (codes "socket=") socket (codes "backend=" ++ (name ++ codes "\nready=true\n")) _
        (ground arith) s
        (field-line (codes "backend=") name (codes "ready=true\n") _ (ground arith)
          (backend_name-IsInLine backend) (lines-line (codes "ready=true") [] (ground arith))))
