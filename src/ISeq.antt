-- ===== src/ISeq.antt =====
-- src/vm/iseq.rs: the bytecode buffer. A buffer is its list of bytes; a position is an index; a
-- displacement is an `i32`. Multi-byte reads are little-endian, which `from_ne_bytes` is on the
-- supported targets. `none` is the panic of an index out of bounds.
pub mod Inst
pub mod Codec
pub mod Gen
pub mod Emit
pub mod Patch
pub mod Optimize
pub mod Chase
pub mod Rewrite
pub mod Rounds
mod Examples
use ruruby.Prelude.{
  ℕ, zero, suc, ◌+◌, ◌-◌, ◌*◌, ◌/◌, ◌%◌, ◌^◌, ◌≤◌, Bool, List, [], ◌∷◌, ◌++◌, Option, none, some,
  leb, ltb, if◌then◌else◌, length, take, drop, set,
}
use ruruby.Prelude.Int.{ℤ, pos, pos_part, neg_part, sub_ℕ, ◌+ℤ◌, as_i64, as_u64, as_i32, as_u32}

abbrev pub ISeq : Type 0
ISeq = List ℕ

-- `ISeqPos + ISeqDisp`, `ISeqPos - usize` and `ISeqPos - ISeqPos` (which is the displacement from
-- the left operand to the right one).
unfoldable pub add_disp : ℕ → ℤ → ℕ
add_disp p d = as_u64 (as_i64 p +ℤ d)

unfoldable pub sub_usize : ℕ → ℕ → ℕ
sub_usize p n = as_u64 (sub_ℕ p n)

unfoldable pub disp_to : ℕ → ℕ → ℤ
disp_to src dest = as_i32 (as_u64 (sub_ℕ dest src))

abbrev pub current : ISeq → ℕ
current s = length s

-- `&self[pc..pc + n]`.
unfoldable pub slice : ISeq → ℕ → ℕ → Option (List ℕ)
slice s pc n = if leb (pc + n) (length s) then some (take n (drop pc s)) else none

abbrev pub from_bytes : List ℕ → ℕ
from_bytes [] = 0
from_bytes (b ∷ bs) = b + 256 * from_bytes bs

abbrev pub read_bytes : ISeq → ℕ → ℕ → Option ℕ
read_bytes s pc n = elim (slice s pc n) [ none ↦ none | some bs ↦ some (from_bytes bs) ]

unfoldable pub read16 : ISeq → ℕ → Option ℕ
read16 s pc = read_bytes s pc 2

unfoldable pub read32 : ISeq → ℕ → Option ℕ
read32 s pc = read_bytes s pc 4

unfoldable pub read64 : ISeq → ℕ → Option ℕ
read64 s pc = read_bytes s pc 8

unfoldable pub read_disp : ISeq → ℕ → Option ℤ
read_disp s pc = elim (read32 s pc) [ none ↦ none | some n ↦ some (as_i32 n) ]

unfoldable pub push : ISeq → ℕ → ISeq
push s b = s ++ b ∷ []

unfoldable pub push16 : ISeq → ℕ → ISeq
unfolding push
push16 s n = push (push s (n % 256)) (n / 2 ^ 8 % 256)

unfoldable pub push32 : ISeq → ℕ → ISeq
unfolding push
push32 s n =
    push (push (push (push s (n % 256)) (n / 2 ^ 8 % 256)) (n / 2 ^ 16 % 256)) (n / 2 ^ 24 % 256)

unfoldable pub push64 : ISeq → ℕ → ISeq
unfolding push32 push
push64 s n =
    push (push (push (push (push32 s n) (n / 2 ^ 32 % 256)) (n / 2 ^ 40 % 256)) (n / 2 ^ 48 % 256))
      (n / 2 ^ 56 % 256)

-- `self[src - 4..src]` becomes the displacement from `src` to `dest`; `src - 4` below 0, or an
-- index at or above the length, panics.
unfoldable pub write_disp : ISeq → ℕ → ℕ → Option ISeq
write_disp s src dest =
    let num = as_u32 (disp_to src dest) in
    if leb 4 src
    then (if leb src (length s)
        then some (
            set
              (set (set (set s (src - 4) (num % 256)) (src - 3) (num / 2 ^ 8 % 256)) (src - 2)
                (num / 2 ^ 16 % 256))
              (src - 1) (num / 2 ^ 24 % 256))
        else none)
    else none

unfoldable pub write_disp_from_cur : ISeq → ℕ → Option ISeq
unfolding write_disp
write_disp_from_cur s src = write_disp s src (current s)
