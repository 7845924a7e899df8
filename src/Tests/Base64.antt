-- ===== src/Tests/Base64.antt =====
-- Base64 at concrete inputs.
use smolokellner.Base.{ℤ, pos}
use smolokellner.Base64.{as_int}
use smolokellner.Base.{ℕ, ◌≡◌, refl, arith, some, List, [], ◌∷◌, ◌++◌, length, drop, replicate, suc}
use smolokellner.Nanopb.Status.{Outcome, ok}
use smolokellner.Base64.{Target, store_at, or_at}
use smolokellner.Base64.Encode.{f_b64_ntop}
use smolokellner.Base64.Decode.{f_b64_pton, pton_loop, index_in, pton_step, if_target, in_size}
use smolokellner.Base64.Decode.{pton_pads, skip_blank, single_pad, all_blank, slop_checked}
use smolokellner.Base64.Rfc.{characters, f_b64_ntop_lem}
use smolokellner.Base64.Bounds.{IsKept, f_b64_pton-IsKept}

-- "Man" and one byte more.
abbrev source : List ℕ
source = 77 ∷ 97 ∷ 110 ∷ 255 ∷ []

f_b64_ntop_lem_example :
    f_b64_ntop source 10 (some (replicate 12 170))
    ≡ ok
        (pos (length (characters source)))
        (some (characters source ++ 0 ∷ drop (suc (length (characters source))) (replicate 12 170)))
unfolding characters
f_b64_ntop_lem_example =
    f_b64_ntop_lem source (replicate 12 170) 10
      (omega arith, (omega arith, (omega arith, (omega arith, tt)))) (omega arith) (omega arith)
      (omega arith)

-- "TWFu/w==", with a blank in it, decoded.
decoded_back : Outcome Target ℤ
decoded_back =
    f_b64_pton (84 ∷ 87 ∷ 32 ∷ 70 ∷ 117 ∷ 47 ∷ 119 ∷ 61 ∷ 61 ∷ []) 5 (some (replicate 5 170))

decoded_back_is : decoded_back ≡ ok (pos 4) (some (77 ∷ 97 ∷ 110 ∷ 255 ∷ 0 ∷ []))
unfolding decoded_back f_b64_pton pton_loop index_in pton_step if_target in_size store_at or_at
    pton_pads skip_blank single_pad all_blank slop_checked as_int
decoded_back_is = refl

-- A string with too many characters for its buffer of two bytes.
f_b64_pton-IsKept_example :
    IsKept 2 2 (f_b64_pton (84 ∷ 87 ∷ 70 ∷ 117 ∷ 84 ∷ []) 2 (some (170 ∷ 170 ∷ [])))
f_b64_pton-IsKept_example =
    f_b64_pton-IsKept (84 ∷ 87 ∷ 70 ∷ 117 ∷ 84 ∷ []) (170 ∷ 170 ∷ []) 2 (omega arith) (omega arith)
