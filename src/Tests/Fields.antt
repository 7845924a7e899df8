-- ===== src/Tests/Fields.antt =====
-- The theorems on the field iterator at a message with three fields.
use smolokellner.Base.{ℕ, ◌+◌, ◌<◌, ◌≡◌, ◌⊎◌, arith, true, false, some, All}
use smolokellner.Nanopb.Field.{field_at}
use smolokellner.Nanopb.Iter.{pb_field_iter_next, pb_field_iter_find, is_field}
use smolokellner.Nanopb.Iter.Walk.{iter_at, next-iter_at}
use smolokellner.Nanopb.Iter.Search.{pb_field_iter_find_lem}
use smolokellner.Tests.Messages.{order_fields}

next-iter_at_example :
    ((2 < 3)
      × (pb_field_iter_next (iter_at order_fields 1000 1) ≡ (iter_at order_fields 1000 2, true))
      × ((iter_at order_fields 1000 2).pos ≡ 2))
    ⊎ (((1 + 1) ≡ 3)
        × (pb_field_iter_next (iter_at order_fields 1000 1) ≡ (iter_at order_fields 1000 0, false)))
next-iter_at_example = next-iter_at order_fields 1000 (omega arith) 1 (omega arith)

pb_field_iter_find_lem_example :
    ((i : ℕ) × (i < 3)
      × (is_field 3 (field_at order_fields i) ≡ true)
      × (pb_field_iter_find (iter_at order_fields 1000 1) 3
          ≡ some (iter_at order_fields 1000 i, true)))
    ⊎ ((pb_field_iter_find (iter_at order_fields 1000 1) 3
          ≡ some (iter_at order_fields 1000 1, false))
        × All (λ f. is_field 3 f ≡ false) order_fields)
pb_field_iter_find_lem_example =
    pb_field_iter_find_lem order_fields 1000 1 3 (omega arith) (omega arith)
