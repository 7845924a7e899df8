-- ===== src/Base64/RoundTrip.antt =====
-- `f_b64_pton` on the characters of RFC 4648.
use smolokellner.Base.{ℕ, ◌+◌, ◌≡◌}
use smolokellner.Base.{List, ◌++◌, some, length}
use smolokellner.Nanopb.Status.{ok}
use smolokellner.Base64.Decode.{pton_loop}
use smolokellner.Base64.Text.{text}

-- What the loop ends with: the bytes, and as many places behind them as before.
Decoded : List ℕ → ℕ → ℕ → List ℕ → List ℕ → Type 0
Decoded src targsize n done hole =
    (rest : List ℕ) × (pton_loop (text src) targsize 0 n (some (done ++ hole))
      ≡ ok (n + length src) (some ((done ++ src) ++ rest)))
    × (length src + length rest ≡ length hole)
