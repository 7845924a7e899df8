-- ===== src/Nanopb/Iter.antt =====
-- pb_common.c: the iterator over the fields of a message. Addresses have 64 bits, and the
-- arithmetic on `char *` wraps.
pub mod Walk
pub mod Search
use smolokellner.Base.{ℕ, zero, suc, ◌+◌, ◌*◌, ◌%◌, ◌^◌, Bool, true, false, ◌&&◌, not}
use smolokellner.Base.{Option, none, some, List, ◌==◌, if◌then◌else◌, length}
use smolokellner.Nanopb.Field.{Field, field_at, pb_size_max, pb_ltype, pb_htype, pb_atype}
use smolokellner.Nanopb.Field.{ltype_extension, htype_required, htype_repeated, htype_oneof}
use smolokellner.Nanopb.Field.{atype_static, atype_pointer}

-- `pos` is the index of the field in the descriptor array `start`.
pub record Iter : Type 0 where
  pub start : List Field
  pub pos : ℕ
  pub required_field_index : ℕ
  pub dest_struct : ℕ
  pub p_data : ℕ
  pub p_size : ℕ

abbrev pub at_pos : Iter → Field
at_pos iter = field_at iter.start iter.pos

abbrev pub add_ptr : ℕ → ℕ → ℕ
add_ptr p n = (p + n) % 2 ^ 64

unfoldable pub pb_field_iter_begin : List Field → ℕ → Iter × Bool
pb_field_iter_begin fields dest =
    let first = field_at fields 0 in
    let data' = add_ptr dest first.data_offset in
    (
      record {
        start = fields;
        pos = 0;
        required_field_index = 0;
        dest_struct = dest;
        p_data = data';
        p_size = add_ptr data' first.size_offset;
      },
      not (first.tag == 0),
    )

-- How far the data of a field reaches: an array, a pointer, or one item.
abbrev pub field_extent : Field → ℕ
field_extent f =
    if pb_atype f.type == atype_static && pb_htype f.type == htype_repeated
    then f.data_size * f.array_size
    else if pb_atype f.type == atype_pointer
    then 8
    else f.data_size

-- Two members of one union.
abbrev pub same_union : Field → Field → Bool
same_union prev next =
    pb_htype prev.type == htype_oneof
    && pb_htype next.type == htype_oneof
    && next.data_offset == pb_size_max

unfoldable pub pb_field_iter_next : Iter → Iter × Bool
pb_field_iter_next iter =
    let prev = at_pos iter in
    let next = field_at iter.start (iter.pos + 1) in
    let data' = add_ptr iter.p_data (field_extent prev + next.data_offset) in
    if prev.tag == 0
    then (iter, false)
    else if next.tag == 0
    then ((pb_field_iter_begin iter.start iter.dest_struct).0, false)
    else if same_union prev next
    then (record iter { pos = iter.pos + 1 }, true)
    else (
      record iter {
        pos = iter.pos + 1;
        required_field_index =
            if pb_htype prev.type == htype_required
            then iter.required_field_index + 1
            else iter.required_field_index;
        p_data = data';
        p_size = add_ptr data' next.size_offset;
      },
      true,
    )

-- The do-while loops that walk once around the array from where the iterator stands; they stop at
-- the first field that passes the test. `none` means that the rounds ran out.
unfoldable pub walk_round : (Field → Bool) → ℕ → ℕ → Iter → Option (Iter × Bool)
walk_round test zero start iter = none
walk_round test (suc rounds) start iter =
    let next = (pb_field_iter_next iter).0 in
    let more = walk_round test rounds start next in
    if test (at_pos iter)
    then some (iter, true)
    else if next.pos == start
    then some (next, false)
    else more

abbrev pub is_field : ℕ → Field → Bool
is_field tag f = f.tag == tag && not (pb_ltype f.type == ltype_extension)

unfoldable pub pb_field_iter_find : Iter → ℕ → Option (Iter × Bool)
pb_field_iter_find iter tag = walk_round (is_field tag) (length iter.start + 1) iter.pos iter

-- pb_decode.c
unfoldable pub find_extension_field : Iter → Option (Iter × Bool)
find_extension_field iter =
    walk_round (λ f. pb_ltype f.type == ltype_extension) (length iter.start + 1) iter.pos iter
