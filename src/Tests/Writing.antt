-- ===== src/Tests/Writing.antt =====
-- The theorems on writing at concrete inputs.
use smolokellner.Base.{ℕ, ◌+◌, ◌≤◌, ◌<◌, ◌≡◌, ◌⊎◌, inr, refl, arith, none, true, false}
use smolokellner.Base.{List, [], ◌∷◌, ◌++◌, length}
use smolokellner.Nanopb.Status.{ok, fail, pb_set_error, stream_full}
use smolokellner.Nanopb.Ostream.{OStream, pb_write, write_all}
use smolokellner.Nanopb.EncodeField.{pb_encode_submessage}
use smolokellner.Nanopb.Varint.{shortest}
use smolokellner.Nanopb.Encode.Emits.{wrote, write_all-Emits}
use smolokellner.Nanopb.Encode.Write.{pb_write_lem, pb_encode_submessage_lem}

abbrev fresh : OStream
fresh = record {
  callback = true;
  state = 5 ∷ [];
  room = 9;
  max_size = 8;
  bytes_written = 1;
  errmsg = none;
}

abbrev block : List ℕ
block = 8 ∷ 150 ∷ 1 ∷ []

pb_write_lem_example :
    ((fresh.callback ≡ false) × (pb_write block (length block) fresh ≡ ok tt (wrote block fresh)))
    ⊎ ((fresh.callback ≡ true)
        × (fresh.bytes_written + length block ≤ fresh.max_size)
        × (pb_write block (length block) fresh ≡ ok tt (wrote block fresh)))
    ⊎ ((fresh.callback ≡ true)
        × (fresh.max_size < fresh.bytes_written + length block)
        × (pb_write block (length block) fresh
            ≡ fail (record fresh { errmsg = pb_set_error fresh.errmsg stream_full })))
pb_write_lem_example = pb_write_lem block fresh (omega arith) (omega arith)

pb_encode_submessage_lem_example :
    pb_encode_submessage (write_all block) fresh
    ≡ ok tt (wrote (shortest 9 (length block) ++ block) fresh)
unfolding shortest
pb_encode_submessage_lem_example =
    pb_encode_submessage_lem (write_all block) block fresh (write_all-Emits block) refl
      (omega arith, inr (omega arith, omega arith))
