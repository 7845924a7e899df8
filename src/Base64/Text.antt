-- ===== src/Base64/Text.antt =====
-- What `f_b64_ntop` writes.
use smolokellner.Base.{ℕ, suc, ◌+◌, ◌^◌, ◌≤◌, ◌<◌, ◌≡◌, refl, sym, ap, ◌∙◌, arith}
use smolokellner.Base.{pos, List, [], ◌∷◌, ◌++◌, some, length, set, drop, false, leb}
use smolokellner.Base.{
  append_assoc, append-nil, ap₂, drop-drop, length-drop, length-append, lt→ltb, le→ltb,
}
use smolokellner.Nanopb.Status.{Action, Outcome, ok, ◌>>=◌, ◌>>◌}
use smolokellner.Base64.{Target, store_at, char_of, pad64, as_int, as_int_lem}
use smolokellner.Base64.Encode.{quantum, terminated, ntop_loop, f_b64_ntop}
use smolokellner.Base64.Encode.{sextet0, sextet1, sextet2, sextet3}
use native.Mathlib.Nat.{mod-eq_of_lt}

-- The characters that the encoder makes of a sequence of bytes, with their padding.
unfoldable pub text : List ℕ → List ℕ
text [] = []
text (a ∷ []) = char_of (sextet0 a) ∷ char_of (sextet1 a 0) ∷ pad64 ∷ pad64 ∷ []
text (a ∷ b ∷ []) = char_of (sextet0 a) ∷ char_of (sextet1 a b) ∷ char_of (sextet2 b 0) ∷ pad64 ∷ []
text (a ∷ b ∷ c ∷ src) =
    char_of (sextet0 a)
    ∷ char_of (sextet1 a b)
    ∷ char_of (sextet2 b c)
    ∷ char_of (sextet3 c)
    ∷ text src

set-append :
    (done : List ℕ) (x v : ℕ) (rest : List ℕ)
    → set (done ++ x ∷ rest) (length done) v ≡ done ++ v ∷ rest
set-append [] x v rest = refl
set-append (d ∷ done) x v rest = ap (λ t. d ∷ t) (set-append done x v rest)

pub store-append :
    (n : ℕ) (done : List ℕ) (x v : ℕ) (rest : List ℕ)
    → length done ≡ n
    → store_at n v (some (done ++ x ∷ rest)) ≡ ok tt (some (done ++ v ∷ rest))
unfolding store_at
store-append n done x v rest h =
    rw (lt→ltb n (length (done ++ x ∷ rest)) (omega (arith, length-append done (x ∷ rest)))) (
      ap (λ t. ok tt (some t))
        (ap (λ k. set (done ++ x ∷ rest) k v) (sym h) ∙ set-append done x v rest))

-- The same some places on.
pub further-append :
    (n k : ℕ) (done mid : List ℕ) (x v : ℕ) (rest : List ℕ)
    → length done ≡ n
    → length mid ≡ k
    → store_at (n + k) v (some (done ++ (mid ++ x ∷ rest)))
      ≡ ok tt (some (done ++ (mid ++ v ∷ rest)))
further-append n k done mid x v rest h h' =
    ap (λ t. store_at (n + k) v (some t)) (sym (append_assoc done mid (x ∷ rest)))
    ∙ store-append (n + k) (done ++ mid) x v rest (omega (arith, length-append done mid))
    ∙ ap (λ t. ok tt (some t)) (append_assoc done mid (v ∷ rest))

quantum-append :
    (targsize n : ℕ) (done : List ℕ) (w x y z : ℕ) (hole : List ℕ)
    → length done ≡ n
    → n + 4 ≤ targsize
    → targsize < 2 ^ 32
    → 4 ≤ length hole
    → quantum targsize n w x y z (some (done ++ hole))
      ≡ ok tt (some (done ++ w ∷ x ∷ y ∷ z ∷ drop 4 hole))
unfolding quantum
quantum-append targsize n done w x y z (a ∷ b ∷ c ∷ d ∷ hole) h fits small four =
    rw
      (
        mod-eq_of_lt below,
        le→ltb targsize (n + 4) fits,
        ◌>>◌,
        store-append n done a w (b ∷ c ∷ d ∷ hole) h,
        further-append n 1 done (w ∷ []) b x (c ∷ d ∷ hole) h refl,
        further-append n 2 done (w ∷ x ∷ []) c y (d ∷ hole) h refl,
        further-append n 3 done (w ∷ x ∷ y ∷ []) d z hole h refl,
      )
      refl
  where
    below : n + 4 < 2 ^ 64
    below = omega arith
quantum-append targsize n done w x y z [] h fits small four = absurd (omega arith)
quantum-append targsize n done w x y z (a ∷ []) h fits small four = absurd (omega arith)
quantum-append targsize n done w x y z (a ∷ b ∷ []) h fits small four = absurd (omega arith)
quantum-append targsize n done w x y z (a ∷ b ∷ c ∷ []) h fits small four = absurd (omega arith)

terminated-append :
    (targsize n : ℕ) (done hole : List ℕ)
    → length done ≡ n
    → n < targsize
    → targsize < 2 ^ 32
    → 0 < length hole
    → terminated targsize n (some (done ++ hole)) ≡ ok n (some (done ++ 0 ∷ drop 1 hole))
unfolding terminated
terminated-append targsize n done [] h fits small one = absurd (omega arith)
terminated-append targsize n done (a ∷ hole) h fits small one =
    rw (leb_false, ◌>>◌, store-append n done a 0 hole h)
      (ap (λ (k : ℕ). ok k (some (done ++ 0 ∷ hole))) (mod-eq_of_lt below))
  where
    leb_false : leb targsize n ≡ false
    leb_false = ground arith

    below : n < 2 ^ 32
    below = omega arith

-- A quantum and what comes behind it.
quantum-then :
    (targsize n w x y z : ℕ) (k : Action Target ℕ) (done hole : List ℕ) (out : Outcome Target ℕ)
    → length done ≡ n
    → n + 4 ≤ targsize
    → targsize < 2 ^ 32
    → 4 ≤ length hole
    → k (some ((done ++ w ∷ x ∷ y ∷ z ∷ []) ++ drop 4 hole)) ≡ out
    → (quantum targsize n w x y z >> k) (some (done ++ hole)) ≡ out
quantum-then targsize n w x y z k done hole out h fits small four same =
    rw (quantum-append targsize n done w x y z hole h fits small four, ◌>>◌)
      (ap (λ t. k (some t)) (sym (append_assoc done (w ∷ x ∷ y ∷ z ∷ []) (drop 4 hole))) ∙ same)

last_quantum :
    (targsize n : ℕ) (done hole : List ℕ) (w x y z : ℕ)
    → length done ≡ n
    → n + 4 < targsize
    → targsize < 2 ^ 32
    → 4 < length hole
    → terminated targsize (n + 4) (some ((done ++ w ∷ x ∷ y ∷ z ∷ []) ++ drop 4 hole))
      ≡ ok (n + 4) (some ((done ++ w ∷ x ∷ y ∷ z ∷ []) ++ 0 ∷ drop 5 hole))
last_quantum targsize n done hole w x y z h fits small room =
    terminated-append targsize (n + 4) (done ++ w ∷ x ∷ y ∷ z ∷ []) (drop 4 hole)
      (omega (arith, length-append done (w ∷ x ∷ y ∷ z ∷ []))) fits small
      (omega (arith, length-drop 4 hole))
    ∙ ap (λ t. ok (n + 4) (some ((done ++ w ∷ x ∷ y ∷ z ∷ []) ++ 0 ∷ t))) (drop-drop 1 4 hole)

regrouped :
    (n more : ℕ) (done rest hole : List ℕ) (w x y z : ℕ)
    → ok
        (n + 4 + more)
        (some (((done ++ w ∷ x ∷ y ∷ z ∷ []) ++ rest) ++ 0 ∷ drop (suc more) (drop 4 hole)))
      ≡ ok (n + suc (suc (suc (suc more)))) (
          some ((done ++ w ∷ x ∷ y ∷ z ∷ rest) ++ 0 ∷ drop (suc (suc (suc (suc (suc more))))) hole))
regrouped n more done rest hole w x y z =
    ap₂ (λ (k : ℕ) t. ok k (some (t ++ 0 ∷ drop (suc more) (drop 4 hole)))) all_counted
      (append_assoc done (w ∷ x ∷ y ∷ z ∷ []) rest)
    ∙ ap (λ t. ok (n + suc (suc (suc (suc more)))) (some ((done ++ w ∷ x ∷ y ∷ z ∷ rest) ++ 0 ∷ t)))
        (drop-drop (suc more) 4 hole ∙ ap (λ k. drop k hole) cells)
  where
    all_counted : n + 4 + more ≡ n + suc (suc (suc (suc more)))
    all_counted = omega arith

    cells : 4 + suc more ≡ suc (suc (suc (suc (suc more))))
    cells = omega arith

ntop_loop-text :
    (src : List ℕ) (targsize n : ℕ) (done hole : List ℕ)
    → length done ≡ n
    → n + length (text src) < targsize
    → targsize < 2 ^ 32
    → length (text src) < length hole
    → ntop_loop src targsize n (some (done ++ hole))
      ≡ ok
          (n + length (text src))
          (some ((done ++ text src) ++ 0 ∷ drop (suc (length (text src))) hole))
unfolding ntop_loop text
ntop_loop-text [] targsize n done hole h fits small room =
    terminated-append targsize n done hole h (omega arith) small (omega arith)
    ∙ ap₂ (λ (k : ℕ) t. ok k (some (t ++ 0 ∷ drop 1 hole))) none_more (sym (append-nil done))
  where
    none_more : n ≡ n + 0
    none_more = omega arith
ntop_loop-text (a ∷ []) targsize n done hole h fits small room =
    quantum-then targsize n _ _ _ _ (terminated targsize (n + 4)) done hole _ h (omega arith) small
      (omega arith) (last_quantum targsize n done hole _ _ _ _ h (omega arith) small (omega arith))
ntop_loop-text (a ∷ b ∷ []) targsize n done hole h fits small room =
    quantum-then targsize n _ _ _ _ (terminated targsize (n + 4)) done hole _ h (omega arith) small
      (omega arith) (last_quantum targsize n done hole _ _ _ _ h (omega arith) small (omega arith))
ntop_loop-text (a ∷ b ∷ c ∷ src) targsize n done hole h fits small room =
    quantum-then targsize n _ _ _ _ (ntop_loop src targsize (n + 4)) done hole _ h (omega arith)
      small (omega arith)
      (ntop_loop-text src targsize (n + 4)
          (done
            ++ char_of (sextet0 a)
              ∷ char_of (sextet1 a b)
              ∷ char_of (sextet2 b c)
              ∷ char_of (sextet3 c)
              ∷ [])
          (drop 4 hole)
          (omega (
            arith,
            length-append done (0 ∷ 0 ∷ 0 ∷ 0 ∷ []),
            length-append done (
                char_of (sextet0 a)
                ∷ char_of (sextet1 a b)
                ∷ char_of (sextet2 b c)
                ∷ char_of (sextet3 c)
                ∷ []),
          ))
          (omega arith) small (omega (arith, length-drop 4 hole))
        ∙ regrouped n (length (text src)) done (text src) hole _ _ _ _)

-- Where the characters and a NUL fit, `f_b64_ntop` leaves them at the start of the array.
pub f_b64_ntop-text :
    (src target : List ℕ) (targsize : ℕ)
    → length (text src) < targsize
    → targsize ≤ length target
    → targsize < 2 ^ 31
    → f_b64_ntop src targsize (some target)
      ≡ ok (pos (length (text src))) (some (text src ++ 0 ∷ drop (suc (length (text src))) target))
unfolding f_b64_ntop
f_b64_ntop-text src target targsize fits room small =
    rw
      (
        ◌>>=◌,
        ntop_loop-text src targsize 0 [] target refl (omega arith) (omega arith) (omega arith),
      )
      (ap (λ k. ok k (some (text src ++ 0 ∷ drop (suc (length (text src))) target)))
        (ap as_int none_before ∙ as_int_lem (length (text src)) (omega arith)))
  where
    none_before : 0 + length (text src) ≡ length (text src)
    none_before = omega arith
