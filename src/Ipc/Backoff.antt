-- ===== src/Ipc/Backoff.antt =====
-- The delays between attempts to reach playos-init.
use Prim.Native.Nat.{min}
use native.Mathlib.Nat.{pow-suc}
use playos_compositor.Base.{ℕ, zero, suc, ◌*◌, ◌^◌, ◌≤◌, ◌≡◌, none, List, arith}
use playos_compositor.Compositor.{Compositor, Os, Call}
use playos_compositor.Ipc.{reconnect_handler, ipc_connect, retry_later, next_delay}

-- The state after n runs of the timer's handler.
unfoldable pub attempts : Os → ℕ → Compositor → Compositor
attempts os zero c = c
attempts os (suc n) c = reconnect_handler os (attempts os n c)

next_delay-min : (p : ℕ) → 1 ≤ p → next_delay (min (100 * p) 5000) ≡ min (100 * (p * 2)) 5000
unfolding next_delay
next_delay-min p h = ground arith

pow_pos : (n : ℕ) → 1 ≤ 2 ^ n
pow_pos zero = omega arith
pow_pos (suc n) = omega (arith, pow-suc 2 n, pow_pos n)

retry-link :
    (os : Os) (c : Compositor)
    → os.socket c.calls ≡ none
    → (reconnect_handler os c).link ≡ record c.link { delay_ms = next_delay c.link.delay_ms }
unfolding reconnect_handler ipc_connect retry_later
retry-link os c h = ground arith

-- While no socket can be made, the delay starts at 100 ms, doubles with every attempt, and stays
-- at 5000 ms once it is there; the timer and the connection stay as they are.
attempts-delay :
    (os : Os) (n : ℕ) (c : Compositor)
    → ((calls : List Call) → os.socket calls ≡ none)
    → c.link.delay_ms ≡ 100
    → (attempts os n c).link ≡ record c.link { delay_ms = min (100 * 2 ^ n) 5000 }
unfolding attempts
attempts-delay os zero c h d = ground arith
attempts-delay os (suc n) c h d =
    let before = attempts-delay os n c h d in
    let after = retry-link os (attempts os n c) (h (attempts os n c).calls) in
    let doubled = next_delay-min (2 ^ n) (pow_pos n) in
    ground (arith, before, after, doubled, pow-suc 2 n)
