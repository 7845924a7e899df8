-- ===== src/Nanopb/Memory.antt =====
-- The memory that messages lie in: a byte at every address, little endian. What stands in a
-- message but is no data, callbacks and extensions, comes from the program that uses the codec.
use smolokellner.Base.{ℕ, zero, suc, ◌+◌, ◌-◌, ◌*◌, ◌/◌, ◌%◌, ◌^◌, List, [], ◌∷◌}
use smolokellner.Base.{ltb, ◌==◌, if◌then◌else◌}

abbrev pub Memory : Type 0
Memory = ℕ → ℕ

-- `width` bytes as an unsigned number.
unfoldable pub load : Memory → ℕ → ℕ → ℕ
load mem addr zero = 0
load mem addr (suc width) = mem addr + 2 ^ 8 * load mem (addr + 1) width

unfoldable pub load_bytes : Memory → ℕ → ℕ → List ℕ
load_bytes mem addr zero = []
load_bytes mem addr (suc count) = mem addr ∷ load_bytes mem (addr + 1) count

unfoldable pub store_byte : ℕ → ℕ → Memory → Memory
store_byte addr b mem = λ a. if a == addr then b else mem a

unfoldable pub store_bytes : ℕ → List ℕ → Memory → Memory
store_bytes addr [] mem = mem
store_bytes addr (b ∷ bs) mem = store_bytes (addr + 1) bs (store_byte addr b mem)

-- The low `width` bytes of a number.
unfoldable pub store : ℕ → ℕ → ℕ → Memory → Memory
store addr zero v mem = mem
store addr (suc width) v mem = store (addr + 1) width (v / 2 ^ 8) (store_byte addr (v % 2 ^ 8) mem)

-- A signed value of `bits` bits, extended to the pattern of an `int64_t`.
abbrev pub sign_extend : ℕ → ℕ → ℕ
sign_extend bits x = if ltb x (2 ^ (bits - 1)) then x else x + 2 ^ 64 - 2 ^ bits
