-- ===== src/Tests/Messages.antt =====
-- A message with a required number, a packed array and an optional string, encoded into a buffer
-- and decoded into other memory.
use smolokellner.Base.{ℕ, ◌^◌, ◌-◌, List, [], ◌∷◌, none}
use smolokellner.Nanopb.Status.{ok, fail, Outcome}
use smolokellner.Nanopb.Istream.{pb_istream_from_buffer}
use smolokellner.Nanopb.Ostream.{OStream, pb_ostream_from_buffer}
use smolokellner.Nanopb.Field.{Field, null}
use smolokellner.Nanopb.Memory.{Memory, load_bytes, store, store_bytes}
use smolokellner.Nanopb.Program.{Program, Decoding}
use smolokellner.Nanopb.EncodeMessage.{pb_encode}
use smolokellner.Nanopb.DecodeStruct.{pb_decode}

-- struct { uint32_t x; uint32_t v_count; int32_t v[3]; bool has_s; char s[8]; }
abbrev pub order_fields : List Field
order_fields =
    record {
      tag = 1;
      type = 0x01;
      data_offset = 0;
      size_offset = 0;
      data_size = 4;
      array_size = 0;
      ptr = null;
    }
    ∷ record {
      tag = 2;
      type = 0x22;
      data_offset = 4;
      size_offset = 2 ^ 64 - 4;
      data_size = 4;
      array_size = 3;
      ptr = null;
    }
    ∷ record {
      tag = 3;
      type = 0x16;
      data_offset = 1;
      size_offset = 2 ^ 64 - 1;
      data_size = 8;
      array_size = 0;
      ptr = null;
    }
    ∷ []

abbrev no_program : Program
no_program = record {
  table = λ n. [];
  encode_callback = λ p. none;
  decode_callback = λ p. none;
  extensions = λ p. [];
  longest = 0;
}

abbrev order_memory : Memory
order_memory = store 1000 4 300 (
    store 1004 4 2 (
      store 1008 4 5
        (store 1012 4 (2 ^ 32 - 3) (store_bytes 1020 (1 ∷ b'a' ∷ b'b' ∷ []) (λ a. 0)))))

encoded : Outcome OStream (Unit {0})
encoded = pb_encode no_program order_memory 1 order_fields 1000 (pb_ostream_from_buffer 20 20)

decoded : Outcome Decoding (Unit {0})
decoded = pb_decode no_program 2 order_fields 5000 (record {
  stream = pb_istream_from_buffer (8 ∷ 172 ∷ 2 ∷ 18 ∷ 2 ∷ 10 ∷ 5 ∷ 26 ∷ 2 ∷ 97 ∷ 98 ∷ []) 11;
  memory = λ a. 7;
})

seen : Outcome Decoding (Unit {0}) → List ℕ
seen (ok _ d) = load_bytes d.memory 5000 29
seen (fail d) = []
seen _ = 999 ∷ []

shown : List ℕ
shown = seen decoded
