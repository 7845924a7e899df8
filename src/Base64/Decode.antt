-- ===== src/Base64/Decode.antt =====
-- `f_b64_pton`: characters to bytes, blanks skipped. `u_int` has 32 bits.
use smolokellner.Base.{ℕ, ℤ, suc, ◌+◌, ◌*◌, ◌/◌, ◌%◌, ◌^◌, List, [], ◌∷◌, Option, none, some}
use smolokellner.Base.{Bool, ◌||◌, ◌&&◌, leb, ◌==◌, if◌then◌else◌, bit_and, get_elem?}
use smolokellner.Nanopb.Status.{Action, ok, fail, fault, return, ◌>>=◌, ◌>>◌}
use smolokellner.Base64.{Target, store_at, or_at, alphabet, pad64, as_int}

-- `isspace` in the C locale.
abbrev pub isspace : ℕ → Bool
isspace ch = ch == 32 || leb 9 ch && leb ch 13

-- `strchr(Base64, ch) - Base64`, for a `ch` that is not NUL.
unfoldable pub index_in : List ℕ → ℕ → ℕ → Option ℕ
index_in [] ch i = none
index_in (c ∷ cs) ch i = let more = index_in cs ch (suc i) in if c == ch then some i else more

-- `if (target) { ... }`
unfoldable pub if_target : Action Target (Unit {0}) → Action Target (Unit {0})
if_target m none = ok tt none
if_target m (some target) = m (some target)

-- `if (index >= targsize) return (-1);`
unfoldable pub in_size : ℕ → ℕ → Action Target (Unit {0})
in_size index targsize target = if leb targsize index then fail target else ok tt target

-- The switch over `state` for a character of value `pos`: the new `state` and `tarindex`.
unfoldable pub pton_step : ℕ → ℕ → ℕ → ℕ → Action Target (ℕ × ℕ)
pton_step targsize pos state tarindex =
    let next = (tarindex + 1) % 2 ^ 32 in
    if state == 0
    then if_target (in_size tarindex targsize >> store_at tarindex (pos * 2 ^ 2 % 2 ^ 8))
      >> return (1, tarindex)
    else if state == 1
    then if_target (
        in_size next targsize
        >> or_at tarindex (pos / 2 ^ 4)
        >> store_at next (bit_and pos 0x0f * 2 ^ 4))
      >> return (2, next)
    else if state == 2
    then if_target (
        in_size next targsize
        >> or_at tarindex (pos / 2 ^ 2)
        >> store_at next (bit_and pos 0x03 * 2 ^ 6))
      >> return (3, next)
    else if_target (in_size tarindex targsize >> or_at tarindex pos) >> return (0, next)

-- Nothing but blanks up to the end of the string.
unfoldable pub all_blank : List ℕ → Bool
all_blank [] = Bool.true
all_blank (ch ∷ src) = isspace ch && all_blank src

-- The string from its first character that is no blank.
unfoldable pub skip_blank : List ℕ → List ℕ
skip_blank [] = []
skip_blank (ch ∷ src) = let more = skip_blank src in if isspace ch then more else ch ∷ src

-- `target && target[tarindex] != 0`, and the result.
unfoldable pub slop_checked : ℕ → Action Target ℕ
slop_checked tarindex none = ok tarindex none
slop_checked tarindex (some target) = elim (get_elem? target tarindex) [
  | some slop ↦ if slop == 0 then ok tarindex (some target) else fail (some target)
  | none ↦ fault
]

-- The last part of both cases with a pad.
unfoldable pub single_pad : List ℕ → ℕ → Action Target ℕ
single_pad src tarindex target = if all_blank src then slop_checked tarindex target else fail target

-- Behind the first pad character.
unfoldable pub pton_pads : List ℕ → ℕ → ℕ → Action Target ℕ
pton_pads src state tarindex =
    if leb state 1
    then fail
    else if state == 2
    then elim (skip_blank src) [
      | [] ↦ fail
      | ch ∷ rest ↦ if ch == pad64 then single_pad rest tarindex else fail
    ]
    else single_pad src tarindex

-- The loop over the characters of `src`, which end before the NUL.
unfoldable pub pton_loop : List ℕ → ℕ → ℕ → ℕ → Action Target ℕ
pton_loop [] targsize state tarindex = if state == 0 then return tarindex else fail
pton_loop (ch ∷ src) targsize state tarindex =
    let more = pton_loop src targsize in
    if isspace ch
    then more state tarindex
    else if ch == pad64
    then pton_pads src state tarindex
    else elim (index_in alphabet ch 0) [
      | none ↦ fail
      | some pos ↦
          pton_step targsize pos state tarindex >>= λ (state', tarindex'). more state' tarindex'
    ]

-- `fail` is `return (-1)`; else `tarindex` is returned as an `int`.
unfoldable pub f_b64_pton : List ℕ → ℕ → Action Target ℤ
f_b64_pton src targsize = pton_loop src targsize 0 0 >>= λ tarindex. return (as_int tarindex)
