-- ===== src/Foreground/Sends.antt =====
-- A message to playos-init adds calls of send(2) over the link to the history, and nothing else.
use playos_compositor.Base.{ℕ, ◌≡◌, refl, Option, none, some, List, ◌∷◌, Option-cases, inl, inr}
use playos_compositor.Compositor.{Call, sent, Os, SendResult, count, interrupted, failed}
use playos_compositor.Wire.Frame.{frame_send, send_twice, after_send, encode}
use playos_compositor.Foreground.{ipc_calls}

module _ (P : List Call → Type 0) (os : Os) where
  module _ (fd : ℕ)
      (keeps : (calls : List Call) (buf : List ℕ) → P calls → P (sent fd buf ∷ calls)) where
    after_first :
        (buf : List ℕ) (calls : List Call) (r : SendResult)
        → P (sent fd buf ∷ calls)
        → P (after_send os fd buf calls r).1
    unfolding after_send
    after_first buf calls (count n) h = h
    after_first buf calls interrupted h = keeps _ buf h
    after_first buf calls failed h = h

    frame_send-keeps :
        (type extra : List ℕ) (calls : List Call)
        → P calls
        → P (frame_send os fd type extra calls).1
    unfolding frame_send send_twice
    frame_send-keeps type extra calls h = elim (Option-cases (encode type extra)) [
      | inl e ↦ rw (e, frame_send) h
      | inr (buf, e) ↦
          rw (e, frame_send) (after_first buf calls (os.send calls fd buf) (keeps calls buf h))
    ]

  -- What a call of send(2) over the link keeps true of the history, a message does.
  pub ipc_calls-keeps :
      (link : Option ℕ)
      → ((fd : ℕ) (calls : List Call) (buf : List ℕ)
          → link ≡ some fd
          → P calls
          → P (sent fd buf ∷ calls))
      → (type extra : List ℕ) (calls : List Call) → P calls
      → P (ipc_calls os link type extra calls)
  unfolding ipc_calls
  ipc_calls-keeps none keeps type extra calls h = h
  ipc_calls-keeps (some fd) keeps type extra calls h =
      frame_send-keeps fd (λ cs buf. keeps fd cs buf refl) type extra calls h
