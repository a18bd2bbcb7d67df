-- ===== src/ISeq/Codec.antt =====
-- src/vm/iseq.rs: what `push16`, `push32` and `push64` write, `read16`, `read32` and `read64` read.
use mathlib.Core.List.{append_assoc}
use ruruby.Prelude.{
  ℕ, ◌/◌, ◌%◌, ◌^◌, ◌≡◌, List, [], ◌∷◌, ◌++◌, some, arith, length, drop-append, take-append, ap,
  ◌∙◌, length-append,
}
use ruruby.ISeq.{
  ISeq, slice, from_bytes, read_bytes, read16, read32, read64, push, push16, push32, push64,
}

abbrev pub bytes2 : ℕ → List ℕ
bytes2 n = n % 256 ∷ n / 2 ^ 8 % 256 ∷ []

abbrev pub bytes4 : ℕ → List ℕ
bytes4 n = n % 256 ∷ n / 2 ^ 8 % 256 ∷ n / 2 ^ 16 % 256 ∷ n / 2 ^ 24 % 256 ∷ []

abbrev pub bytes8 : ℕ → List ℕ
bytes8 n =
    bytes4 n ++ n / 2 ^ 32 % 256 ∷ n / 2 ^ 40 % 256 ∷ n / 2 ^ 48 % 256 ∷ n / 2 ^ 56 % 256 ∷ []

pub push16_lem : (s : ISeq) (n : ℕ) → push16 s n ≡ s ++ bytes2 n
unfolding push16 push
push16_lem s n = simp append_assoc

pub push32_lem : (s : ISeq) (n : ℕ) → push32 s n ≡ s ++ bytes4 n
unfolding push32 push
push32_lem s n = simp append_assoc

pub push64_lem : (s : ISeq) (n : ℕ) → push64 s n ≡ s ++ bytes8 n
unfolding push64 push32 push
push64_lem s n = simp append_assoc

read_bytes-append :
    (s bs rest : ISeq)
    → read_bytes (s ++ (bs ++ rest)) (length s) (length bs) ≡ some (from_bytes bs)
unfolding slice
read_bytes-append s bs rest = ground (
  arith,
  drop-append s (bs ++ rest),
  take-append bs rest,
  length-append s (bs ++ rest),
  length-append bs rest,
)

-- A number pushed is read back at the position where it was pushed, whatever follows, with the
-- bits above its width cut off.
pub read-push :
    (s rest : ISeq) (n : ℕ)
    → (read16 (push16 s n ++ rest) (length s) ≡ some (n % 2 ^ 16))
      × (read32 (push32 s n ++ rest) (length s) ≡ some (n % 2 ^ 32))
      × (read64 (push64 s n ++ rest) (length s) ≡ some (n % 2 ^ 64))
unfolding read16 read32 read64
read-push s rest n = (
  rw (push16_lem, append_assoc) (read_bytes-append s (bytes2 n) rest ∙ ap some (omega arith)),
  rw (push32_lem, append_assoc) (read_bytes-append s (bytes4 n) rest ∙ ap some (omega arith)),
  rw (push64_lem, append_assoc) (read_bytes-append s (bytes8 n) rest ∙ ap some (omega arith)),
)
