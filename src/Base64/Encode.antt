-- ===== src/Base64/Encode.antt =====
-- `f_b64_ntop`: three bytes to four characters. `size_t` has 64 bits and `int` 32.
use smolokellner.Base.{
  ℕ, ℤ, ◌+◌, ◌*◌, ◌/◌, ◌%◌, ◌^◌, List, [], ◌∷◌, ltb, leb, if◌then◌else◌, bit_and,
}
use smolokellner.Nanopb.Status.{Action, fail, return, ◌>>=◌, ◌>>◌}
use smolokellner.Base64.{Target, store_at, char_of, pad64, as_int}

-- The four sextets of `input`.
abbrev pub sextet0 : ℕ → ℕ
sextet0 a = a / 2 ^ 2

abbrev pub sextet1 : ℕ → ℕ → ℕ
sextet1 a b = (bit_and a 0x03 * 2 ^ 4 + b / 2 ^ 4) % 2 ^ 8

abbrev pub sextet2 : ℕ → ℕ → ℕ
sextet2 b c = (bit_and b 0x0f * 2 ^ 2 + c / 2 ^ 6) % 2 ^ 8

abbrev pub sextet3 : ℕ → ℕ
sextet3 c = bit_and c 0x3f

-- Four characters behind the first `datalength`, where they fit.
unfoldable pub quantum : ℕ → ℕ → ℕ → ℕ → ℕ → ℕ → Action Target (Unit {0})
quantum targsize datalength w x y z target =
    if ltb targsize ((datalength + 4) % 2 ^ 64)
    then fail target
    else (store_at datalength w
          >> store_at (datalength + 1) x
          >> store_at (datalength + 2) y
          >> store_at (datalength + 3) z)
        target

-- The final NUL, which the result does not count.
unfoldable pub terminated : ℕ → ℕ → Action Target ℕ
terminated targsize datalength target =
    if leb targsize datalength
    then fail target
    else (store_at datalength 0 >> return (datalength % 2 ^ 32)) target

-- The bytes of `src` that are left, with `datalength`: the loop, and the padding of the last one
-- or two bytes.
unfoldable pub ntop_loop : List ℕ → ℕ → ℕ → Action Target ℕ
ntop_loop [] targsize datalength = terminated targsize datalength
ntop_loop (a ∷ []) targsize datalength =
    quantum targsize datalength (char_of (sextet0 a)) (char_of (sextet1 a 0)) pad64 pad64
    >> terminated targsize (datalength + 4)
ntop_loop (a ∷ b ∷ []) targsize datalength =
    quantum targsize datalength (char_of (sextet0 a)) (char_of (sextet1 a b))
      (char_of (sextet2 b 0)) pad64
    >> terminated targsize (datalength + 4)
ntop_loop (a ∷ b ∷ c ∷ src) targsize datalength =
    quantum targsize datalength (char_of (sextet0 a)) (char_of (sextet1 a b))
      (char_of (sextet2 b c)) (char_of (sextet3 c))
    >> ntop_loop src targsize (datalength + 4)

-- `src` holds the `srclength` bytes; `fail` is `return (-1)`, and else `datalength` is returned as
-- an `int`.
unfoldable pub f_b64_ntop : List ℕ → ℕ → Action Target ℤ
f_b64_ntop src targsize = ntop_loop src targsize 0 >>= λ datalength. return (as_int datalength)
