-- ===== src/Scenarios/Tokens.antt =====
-- The token of a launch and its echo, at concrete messages.
use playos_compositor.Base.{ℕ, ◌≡◌, refl, none, some, List, ◌∷◌, ◌++◌, codes, c_str, arith, take}
use playos_compositor.Wire.Json.{json_get_string}
use playos_compositor.Wire.Frame.{body}
use playos_compositor.Wire.Grammar.{Reads}
use playos_compositor.Wire.Grammar.Scanner.{json_get_string-Reads}
use playos_compositor.Foreground.{member}
use playos_compositor.Ipc.{dispatch_set_expected, msg_set_expected_game}
use playos_compositor.Machine.Messages.{ready_frame}
use playos_compositor.Machine.Messages.Echo.{token_read, token_echo, cut_escape-unreadable}
use playos_compositor.Scenarios.{working, playing}

-- A token with an escaped quote.
abbrev quoted_launch : List ℕ
quoted_launch = body msg_set_expected_game (member (codes "launch_token") (codes "t\\\"1"))

token_echo_example :
    token_read
      (ready_frame (dispatch_set_expected working playing quoted_launch).expected_launch_token)
    ≡ some (codes "t\\\"1")
unfolding json_get_string body c_str
token_echo_example =
    token_echo working playing quoted_launch (codes "t\\\"1") refl (omega arith) refl

-- 62 plain bytes, and an escape.
abbrev long_name : List ℕ
long_name = codes "aaaaaaaaaabbbbbbbbbbccccccccccddddddddddeeeeeeeeeeffffffffffgg"

abbrev long_launch : List ℕ
long_launch =
    body msg_set_expected_game
      (member (codes "launch_token") (long_name ++ 92 ∷ b'n' ∷ codes "end"))

cut_escape-unreadable_example :
    token_read
      (ready_frame (dispatch_set_expected working playing long_launch).expected_launch_token)
    ≡ none
unfolding json_get_string body
cut_escape-unreadable_example =
    cut_escape-unreadable working playing long_launch long_name (codes "end") b'n' (ground arith)
      refl refl

json_get_string-Reads_example :
    (v : List ℕ) × (Reads (codes "launch_token") v quoted_launch)
    × ◌≡◌ {A = List ℕ} (codes "t\\\"1") (take 63 v)
unfolding json_get_string body
json_get_string-Reads_example =
    (json_get_string-Reads (codes "launch_token") quoted_launch (codes "t\\\"1") 63).0 refl
