-- ===== src/Wire/Frame.antt =====
-- Frames of src/compositor_ipc.c: le32_load, le32_store, frame_send and the checks on a frame read.
use playos_compositor.Base.{
  ℕ, ◌+◌, ◌*◌, ◌/◌, ◌%◌, Bool, false, not, ◌||◌, Option, none, some, List, [], ◌∷◌, ◌++◌, ◌==◌, ltb,
  leb, if◌then◌else◌, length, take, drop, codes,
}
use playos_compositor.Compositor.{Call, sent, SendResult, count, interrupted, failed, Os}

abbrev pub ipc_magic : ℕ
ipc_magic = 0x504C4F53

abbrev pub ipc_max_body : ℕ
ipc_max_body = 65536

-- The shifts put the bytes side by side, so `|` is `+`.
unfoldable pub le32_load : List ℕ → ℕ
le32_load (a ∷ b ∷ c ∷ d ∷ r) = a + b * 256 + c * 65536 + d * 16777216
le32_load _ = 0

unfoldable pub le32_store : ℕ → List ℕ
le32_store v = v % 256 ∷ v / 256 % 256 ∷ v / 65536 % 256 ∷ v / 16777216 % 256 ∷ []

-- The two snprintf formats of frame_send; `extra` is empty where `extra_json` is NULL or "".
unfoldable pub body : List ℕ → List ℕ → List ℕ
body type [] = codes "{\"v\":1,\"type\":\"" ++ (type ++ codes "\"}")
body type (x ∷ extra) =
    codes "{\"v\":1,\"type\":\"" ++ (type ++ (codes "\"," ++ (x ∷ extra ++ codes "}")))

abbrev pub frame_of : List ℕ → List ℕ
frame_of text = le32_store ipc_magic ++ (le32_store (length text) ++ text)

-- The bytes that frame_send puts into `buf`, or nothing if the body is too long.
unfoldable pub encode : List ℕ → List ℕ → Option (List ℕ)
encode type extra =
    let text = body type extra in
    if leb ipc_max_body (length text) then none else some (frame_of text)

-- After a first send(2): EINTR is answered by a second one. The history grows by each call.
unfoldable pub after_send : Os → ℕ → List ℕ → List Call → SendResult → SendResult × List Call
after_send os fd buf calls interrupted =
    (os.send (sent fd buf ∷ calls) fd buf, sent fd buf ∷ sent fd buf ∷ calls)
after_send os fd buf calls r = (r, sent fd buf ∷ calls)

unfoldable pub send_twice : Os → ℕ → List ℕ → List Call → SendResult × List Call
unfolding after_send
send_twice os fd buf calls = after_send os fd buf calls (os.send calls fd buf)

-- Whether the whole frame went out.
abbrev pub is_sent : SendResult → ℕ → Bool
is_sent (count n) total = n == total
is_sent interrupted total = false
is_sent failed total = false

-- frame_send: whether it returned 0, and the calls made so far.
unfoldable pub frame_send : Os → ℕ → List ℕ → List ℕ → List Call → Bool × List Call
unfolding encode send_twice
frame_send os fd type extra calls = elim (encode type extra) [
  | none ↦ (false, calls)
  | some buf ↦ let (r, calls') = send_twice os fd buf calls in (is_sent r (length buf), calls')
]

-- The checks of ipc_fd_handler on the bytes read: the body to dispatch, or nothing.
unfoldable pub decode : List ℕ → Option (List ℕ)
decode buf =
    let magic = le32_load buf in
    let len = le32_load (drop 4 buf) in
    if ltb (length buf) 8
    then none
    else if not (magic == ipc_magic) || (ltb ipc_max_body len || ltb (length buf) (8 + len))
    then none
    else some (take len (drop 8 buf))
