-- ===== src/Nanopb/Iter/Search.antt =====
-- `pb_field_iter_find` and `find_extension_field`: one round over the array, from any field.
use smolokellner.Base.{
  ℕ, zero, suc, ◌+◌, ◌-◌, ◌≤◌, ◌<◌, ◌≡◌, ◌≢◌, ◌⊎◌, inl, inr, refl, ap, ap₂, ◌∙◌, sym,
}
use smolokellner.Base.{Bool, true, false, Option, some, List, [], ◌∷◌, ◌==◌, length, All}
use smolokellner.Base.{arith, Bool-cases, eq→==, ne→==}
use smolokellner.Nanopb.Field.{Field, field_at, pb_ltype, ltype_extension}
use smolokellner.Nanopb.Iter.{Iter, at_pos, pb_field_iter_next, walk_round, is_field}
use smolokellner.Nanopb.Iter.{pb_field_iter_find, find_extension_field}
use smolokellner.Nanopb.Iter.Walk.{
  HasTags, Stands, iter_at, at-Stands, iter_at-Stands, next-iter_at,
}
use native.Mathlib.Decide.{ℕ_discrete, dec_lt}

module _ (test : Field → Bool) (fields : List Field) (dest : ℕ) (tags : HasTags fields) where
  -- The search from field `k` ended at a field of the range, or behind it with no such field.
  abbrev FoundIn : ℕ → ℕ → Option (Iter × Bool) → Type 0
  FoundIn lo hi out =
      (i : ℕ) × (lo ≤ i)
      × (i < hi)
      × (test (field_at fields i) ≡ true)
      × (out ≡ some (iter_at fields dest i, true))

  abbrev NoneIn : ℕ → ℕ → Type 0
  NoneIn lo hi = (i : ℕ) → lo ≤ i → i < hi → test (field_at fields i) ≡ false

  here_at : (j : ℕ) → j < length fields → at_pos (iter_at fields dest j) ≡ field_at fields j
  here_at j h =
      at-Stands fields dest (iter_at fields dest j) j (iter_at-Stands fields dest tags j h)

  pos_at : (j : ℕ) → j < length fields → (iter_at fields dest j).pos ≡ j
  pos_at j h = (iter_at-Stands fields dest tags j h).0

  NoneIn-first : (j hi : ℕ) → test (field_at fields j) ≡ false → NoneIn (suc j) hi → NoneIn j hi
  NoneIn-first j hi e rest i lo lt = elim (ℕ_discrete i j) [
    | yes same ↦ rw same e
    | no other ↦ rest i (omega arith) lt
  ]

  -- One round of the loop, by its three ends.
  round_hit :
      (rounds k j : ℕ)
      → j < length fields
      → test (field_at fields j) ≡ true
      → walk_round test (suc rounds) k (iter_at fields dest j) ≡ some (iter_at fields dest j, true)
  unfolding walk_round
  round_hit rounds k j h e = rw (here_at j h, e)

  round_on :
      (rounds k j : ℕ) (next : Iter)
      → j < length fields
      → test (field_at fields j) ≡ false
      → (pb_field_iter_next (iter_at fields dest j)).0 ≡ next
      → next.pos ≢ k
      → walk_round test (suc rounds) k (iter_at fields dest j) ≡ walk_round test rounds k next
  unfolding walk_round
  round_on rounds k j next h e step ne = rw (step, here_at j h, e, ne→== next.pos k ne)

  round_end :
      (rounds k j : ℕ) (next : Iter)
      → j < length fields
      → test (field_at fields j) ≡ false
      → (pb_field_iter_next (iter_at fields dest j)).0 ≡ next
      → next.pos ≡ k
      → walk_round test (suc rounds) k (iter_at fields dest j) ≡ some (next, false)
  unfolding walk_round
  round_end rounds k j next h e step eq = rw (step, here_at j h, e, eq→== next.pos k eq)

  -- Behind the wrap: from `j` up to the field where the search began.
  search_low :
      (rounds k j : ℕ)
      → k < length fields
      → j < k
      → k - j ≤ rounds
      → FoundIn j k (walk_round test rounds k (iter_at fields dest j))
        ⊎ ((walk_round test rounds k (iter_at fields dest j) ≡ some (iter_at fields dest k, false))
            × NoneIn j k)
  unfolding iter_at
  search_low zero k j hk hj room = absurd (omega arith)
  search_low (suc rounds) k j hk hj room = elim (Bool-cases (test (field_at fields j))) [
    | inl hit ↦ inl (j, omega arith, hj, hit, round_hit rounds k j (omega arith) hit)
    | inr miss ↦ elim (ℕ_discrete (suc j) k) [
      | yes last ↦ inr (
        round_end rounds k j (iter_at fields dest (suc j)) (omega arith) miss refl
              (pos_at (suc j) (omega arith) ∙ last)
            ∙ ap (λ (x : ℕ). some (iter_at fields dest x, false)) last,
        NoneIn-first j k miss (λ i lo lt. absurd (omega arith)),
      )
      | no more ↦
          let on =
            round_on rounds k j (iter_at fields dest (suc j)) (omega arith) miss refl
              (λ e. more (sym (pos_at (suc j) (omega arith)) ∙ e)) in
          elim (search_low rounds k (suc j) hk (omega arith) (omega arith)) [
            | inl (i, lo, lt, e, out) ↦ inl (i, omega arith, lt, e, on ∙ out)
            | inr (out, none) ↦ inr (on ∙ out, NoneIn-first j k miss none)
          ]
    ]
  ]

  -- Before the wrap: from `j` up to the end of the array, and then from its start.
  search_high :
      (rounds k j : ℕ)
      → j < length fields
      → k ≤ j
      → length fields - j + k ≤ rounds
      → FoundIn 0 (length fields) (walk_round test rounds k (iter_at fields dest j))
        ⊎ ((walk_round test rounds k (iter_at fields dest j) ≡ some (iter_at fields dest k, false))
            × NoneIn j (length fields)
            × NoneIn 0 k)
  unfolding iter_at
  search_high zero k j hj hk room = absurd (omega arith)
  search_high (suc rounds) k j hj hk room = elim (Bool-cases (test (field_at fields j))) [
    | inl hit ↦ inl (j, omega arith, hj, hit, round_hit rounds k j hj hit)
    | inr miss ↦ elim (next-iter_at fields dest tags j hj) [
      | inl (more, step, at) ↦
          let on =
            round_on rounds k j (iter_at fields dest (suc j)) hj miss refl
              (λ e. absurd (omega (arith, at, e))) in
          elim (search_high rounds k (suc j) more (omega arith) (omega arith)) [
            | inl (i, lo, lt, e, out) ↦ inl (i, lo, lt, e, on ∙ out)
            | inr (out, high, low) ↦ inr (on ∙ out, NoneIn-first j (length fields) miss high, low)
          ]
      | inr (last, step) ↦ elim (ℕ_discrete k 0) [
        | yes first ↦ inr (
          round_end rounds k j (iter_at fields dest 0) hj miss (ap (λ (p : Iter × Bool). p.0) step)
                (pos_at 0 (omega arith) ∙ sym first)
              ∙ ap (λ (x : ℕ). some (iter_at fields dest x, false)) (sym first),
          NoneIn-first j (length fields) miss (λ i lo lt. absurd (omega arith)),
          λ i lo lt. absurd (omega arith),
        )
        | no other ↦
            let on =
              round_on rounds k j (iter_at fields dest 0) hj miss
                (ap (λ (p : Iter × Bool). p.0) step)
                (λ e. other (sym e ∙ pos_at 0 (omega arith))) in
            elim (search_low rounds k 0 (omega arith) (omega arith) (omega arith)) [
              | inl (i, lo, lt, e, out) ↦ inl (i, lo, omega arith, e, on ∙ out)
              | inr (out, low) ↦ inr (
                on ∙ out,
                NoneIn-first j (length fields) miss (λ i lo lt. absurd (omega arith)),
                low,
              )
            ]
      ]
    ]
  ]

None-All :
    (test : Field → Bool) (fields : List Field)
    → ((i : ℕ) → i < length fields → test (field_at fields i) ≡ false)
    → All (λ f. test f ≡ false) fields
None-All test [] h = tt
None-All test (f ∷ fs) h = (h 0 (omega arith), None-All test fs (λ i lt. h (suc i) (omega arith)))

module _ (test : Field → Bool) (fields : List Field) (dest k : ℕ) where
  -- The call that both searches make.
  abbrev from_here : Option (Iter × Bool)
  from_here =
      walk_round test (length (iter_at fields dest k).start + 1) (iter_at fields dest k).pos
        (iter_at fields dest k)

  whole_round :
      HasTags fields
      → k < length fields
      → ((i : ℕ) × (i < length fields)
          × (test (field_at fields i) ≡ true)
          × (from_here ≡ some (iter_at fields dest i, true)))
        ⊎ ((from_here ≡ some (iter_at fields dest k, false)) × All (λ f. test f ≡ false) fields)
  whole_round tags h =
      elim (search_high test fields dest tags (length fields + 1) k k h (omega arith)
        (omega arith)) [
          | inl (i, lo, lt, e, out) ↦ inl (i, lt, e, same ∙ out)
          | inr (out, high, low) ↦ inr (same ∙ out, None-All test fields (both high low))
        ]
    where
      at : Stands fields dest (iter_at fields dest k) k
      at = iter_at-Stands fields dest tags k h

      same : from_here ≡ walk_round test (length fields + 1) k (iter_at fields dest k)
      same =
          ap₂
            (λ (fs : List Field) (p : ℕ). walk_round test (length fs + 1) p (iter_at fields dest k))
            at.1 at.0

      both :
          ((i : ℕ) → k ≤ i → i < length fields → test (field_at fields i) ≡ false)
          → ((i : ℕ) → 0 ≤ i → i < k → test (field_at fields i) ≡ false)
          → (i : ℕ) → i < length fields
          → test (field_at fields i) ≡ false
      both high low i lt = elim (dec_lt i k) [
        | yes before ↦ low i (omega arith) before
        | no behind ↦ high i (omega arith) lt
      ]

-- From any field of a message, `pb_field_iter_find` ends within one round: either it returns true
-- and stands at a field with the wanted tag that is no extension, or it returns false, stands
-- where it began, and no field of the message is such a field.
pub pb_field_iter_find_lem :
    (fields : List Field) (dest k tag : ℕ)
    → HasTags fields
    → k < length fields
    → ((i : ℕ) × (i < length fields)
        × (is_field tag (field_at fields i) ≡ true)
        × (pb_field_iter_find (iter_at fields dest k) tag ≡ some (iter_at fields dest i, true)))
      ⊎ ((pb_field_iter_find (iter_at fields dest k) tag ≡ some (iter_at fields dest k, false))
          × All (λ f. is_field tag f ≡ false) fields)
unfolding pb_field_iter_find
pb_field_iter_find_lem fields dest k tag tags h = whole_round (is_field tag) fields dest k tags h

-- From any field of a message, `find_extension_field` ends within one round: either it returns
-- true and stands at an extension, or it returns false, stands where it began, and the message
-- has no extension.
pub find_extension_field_lem :
    (fields : List Field) (dest k : ℕ)
    → HasTags fields
    → k < length fields
    → ((i : ℕ) × (i < length fields)
        × ((pb_ltype (field_at fields i).type == ltype_extension) ≡ true)
        × (find_extension_field (iter_at fields dest k) ≡ some (iter_at fields dest i, true)))
      ⊎ ((find_extension_field (iter_at fields dest k) ≡ some (iter_at fields dest k, false))
          × All (λ f. (pb_ltype f.type == ltype_extension) ≡ false) fields)
unfolding find_extension_field
find_extension_field_lem fields dest k tags h =
    whole_round (λ f. pb_ltype f.type == ltype_extension) fields dest k tags h
