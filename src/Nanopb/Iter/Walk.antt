-- ===== src/Nanopb/Iter/Walk.antt =====
-- pb_common.c: where the iterator stands, and its steps through the fields of a message.
use smolokellner.Base.{ℕ, zero, suc, ◌+◌, ◌≤◌, ◌<◌, ◌≡◌, ◌⊎◌, inl, inr, refl, ap, ap₂, ◌∙◌}
use smolokellner.Base.{Bool, true, false, List, [], ◌∷◌, length, All, arith}
use smolokellner.Nanopb.Field.{Field, field_at}
use smolokellner.Nanopb.Iter.{Iter, at_pos, pb_field_iter_begin, pb_field_iter_next}
use native.Mathlib.Numerals.{add-one}
use native.Mathlib.Decide.{dec_lt}

-- No entry before the end of the array has the tag of `PB_LAST_FIELD`.
abbrev pub HasTags : List Field → Type 0
HasTags fields = All (λ f. 0 < f.tag) fields

pub tag-pos :
    (fields : List Field) (k : ℕ) → HasTags fields → k < length fields → 0 < (field_at fields k).tag
tag-pos [] k h lt = absurd (omega arith)
tag-pos (f ∷ fs) zero h lt = h.0
tag-pos (f ∷ fs) (suc k) h lt = tag-pos fs k h.1 (omega arith)

pub tag_end : (fields : List Field) (k : ℕ) → length fields ≤ k → (field_at fields k).tag ≡ 0
tag_end [] k h = refl
tag_end (f ∷ fs) zero h = absurd (omega arith)
tag_end (f ∷ fs) (suc k) h = tag_end fs k (omega arith)

next_advance :
    (iter : Iter)
    → 0 < (at_pos iter).tag
    → 0 < (field_at iter.start (iter.pos + 1)).tag
    → ((pb_field_iter_next iter).1 ≡ true)
      × ((pb_field_iter_next iter).0.pos ≡ iter.pos + 1)
      × ((pb_field_iter_next iter).0.start ≡ iter.start)
      × ((pb_field_iter_next iter).0.dest_struct ≡ iter.dest_struct)
unfolding pb_field_iter_next
next_advance iter here there = (ground arith, ground arith, ground arith, ground arith)

next_wrap :
    (iter : Iter)
    → 0 < (at_pos iter).tag
    → (field_at iter.start (iter.pos + 1)).tag ≡ 0
    → pb_field_iter_next iter ≡ ((pb_field_iter_begin iter.start iter.dest_struct).0, false)
unfolding pb_field_iter_next
next_wrap iter here there = ground arith

module _ (fields : List Field) (dest : ℕ) where
  -- The iterator after `k` steps.
  unfoldable pub iter_at : ℕ → Iter
  iter_at zero = (pb_field_iter_begin fields dest).0
  iter_at (suc k) = (pb_field_iter_next (iter_at k)).0

  abbrev pub Stands : Iter → ℕ → Type 0
  Stands iter k = (iter.pos ≡ k) × (iter.start ≡ fields) × (iter.dest_struct ≡ dest)

  pub at-Stands : (iter : Iter) (k : ℕ) → Stands iter k → at_pos iter ≡ field_at fields k
  at-Stands iter k (p, s, d) = ap₂ field_at s p

  after-Stands :
      (iter : Iter) (k : ℕ)
      → Stands iter k
      → field_at iter.start (iter.pos + 1) ≡ field_at fields (k + 1)
  after-Stands iter k (p, s, d) = ap₂ field_at s (ap (λ (x : ℕ). x + 1) p)

module _ (fields : List Field) (dest : ℕ) (tags : HasTags fields) where
  step-Stands :
      (iter : Iter) (k : ℕ)
      → Stands fields dest iter k
      → suc k < length fields
      → ((pb_field_iter_next iter).1 ≡ true)
        × Stands fields dest (pb_field_iter_next iter).0 (suc k)
  step-Stands iter k at more =
      let (returns, pos, start, dst) = next_advance iter here there in
      (returns, (pos ∙ ap (λ (x : ℕ). x + 1) at.0 ∙ add-one k, start ∙ at.1, dst ∙ at.2))
    where
      here : 0 < (at_pos iter).tag
      here = rw (at-Stands fields dest iter k at) (tag-pos fields k tags (omega arith))

      there : 0 < (field_at iter.start (iter.pos + 1)).tag
      there = rw (after-Stands fields dest iter k at) (tag-pos fields (k + 1) tags (omega arith))

  wrap-Stands :
      (iter : Iter) (k : ℕ)
      → Stands fields dest iter k
      → suc k ≡ length fields
      → pb_field_iter_next iter ≡ (iter_at fields dest 0, false)
  unfolding iter_at
  wrap-Stands iter k at last =
      next_wrap iter here there
      ∙ ap₂ (λ (fs : List Field) (d : ℕ). ((pb_field_iter_begin fs d).0, false)) at.1 at.2
    where
      here : 0 < (at_pos iter).tag
      here = rw (at-Stands fields dest iter k at) (tag-pos fields k tags (omega arith))

      there : (field_at iter.start (iter.pos + 1)).tag ≡ 0
      there = rw (after-Stands fields dest iter k at) (tag_end fields (k + 1) (omega arith))

  pub iter_at-Stands : (k : ℕ) → k < length fields → Stands fields dest (iter_at fields dest k) k
  unfolding iter_at pb_field_iter_begin
  iter_at-Stands zero h = (refl, refl, refl)
  iter_at-Stands (suc k) h =
      (step-Stands (iter_at fields dest k) k (iter_at-Stands k (omega arith)) h).1

  -- `pb_field_iter_next` goes from each field to the one behind it and returns true, and from the
  -- last field back to the start and returns false.
  pub next-iter_at :
      (k : ℕ)
      → k < length fields
      → ((suc k < length fields)
          × (pb_field_iter_next (iter_at fields dest k) ≡ (iter_at fields dest (suc k), true))
          × ((iter_at fields dest (suc k)).pos ≡ suc k))
        ⊎ ((suc k ≡ length fields)
            × (pb_field_iter_next (iter_at fields dest k) ≡ (iter_at fields dest 0, false)))
  unfolding iter_at
  next-iter_at k h = elim (dec_lt (suc k) (length fields)) [
    | yes more ↦
        let (returns, at) = step-Stands it k (iter_at-Stands k h) more in
        inl (more, ap (λ (b : Bool). ((pb_field_iter_next it).0, b)) returns, at.0)
    | no last ↦ inr (omega arith, wrap-Stands it k (iter_at-Stands k h) (omega arith))
  ]
    where
      it : Iter
      it = iter_at fields dest k
