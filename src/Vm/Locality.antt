-- ===== src/Vm/Locality.antt =====
-- src/vm/executor/opt_core.rs: an arm of the loop reads no byte of the code but those of its
-- instruction.
use ruruby.Prelude.{
  ℕ, ◌+◌, ◌≤◌, ◌<◌, ◌≡◌, refl, ◌∙◌, sym, ap, Bool, true, false, Option, none, some, arith, leb,
  ◌==◌, if◌then◌else◌, length, get_elem?, drop, take-agree, get_elem?-drop,
}
use ruruby.Prelude.Int.{ℤ, as_i32}
use ruruby.ISeq.{ISeq, slice, read_bytes, from_bytes, read16, read32, read64, read_disp}
use ruruby.ISeq.Inst.{Inst, inst_size}
use ruruby.Vm.{
  Memory, Exec, Ended, returns, raises, panics, RubyErrorKind, ◌>>=◌, unwrap, pure, stack_pop,
}
use ruruby.Vm.Executor.{Executor}
use ruruby.Vm.Arm.{
  Next, operand8, operand16, operand32, operand64, immediate, displacement, method_operand, settle,
  try_push, try_no_push,
}
use ruruby.Vm.Jump.{found_or_else, dispatch_integer}
use ruruby.Vm.Run.{exec}

-- Two codes of one length with the same `n` bytes from `pc` on.
pub record SameBytes (s s' : ISeq) (pc n : ℕ) : Type 0 where
  pub lengths : length s ≡ length s'
  pub bytes : (k : ℕ) → k < n → get_elem? s (pc + k) ≡ get_elem? s' (pc + k)

-- Two computations with the same end from each memory.
pub record Alike {S A : Type 0} (a b : Exec S A) : Type 0 where
  pub same : (m : S) → a m ≡ b m

module _ {S : Type 0} where
  pub Alike-refl : {A : Type 0} (a : Exec S A) → Alike a a
  Alike-refl a = record { same = λ m. refl }

  pub Alike-path : {A : Type 0} {a b : Exec S A} → a ≡ b → Alike a b
  Alike-path e = record { same = λ m. ap (λ f. f m) e }

  bind_same :
      {A B : Type 0} (k k' : A → Exec S B) (r : Ended S A)
      → ((x : A) → Alike (k x) (k' x))
      → elim r [ returns x m ↦ k x m | raises e m ↦ raises e m | panics ↦ panics ]
        ≡ elim r [ returns x m ↦ k' x m | raises e m ↦ raises e m | panics ↦ panics ]
  bind_same k k' (returns x m) h = (h x).same m
  bind_same k k' (raises e m) h = refl
  bind_same k k' panics h = refl

  Alike-bind :
      {A B : Type 0} {a a' : Exec S A} {k k' : A → Exec S B}
      → Alike a a'
      → ((x : A) → Alike (k x) (k' x))
      → Alike (a >>= k) (a' >>= k')
  unfolding ◌>>=◌
  Alike-bind {a' = a'} {k = k} {k' = k'} p h = record {
    same = λ m. rw (p.same m, ◌>>=◌) (bind_same k k' (a' m) h);
  }

  Alike-if :
      {A : Type 0} (b : Bool) {x x' y y' : Exec S A}
      → Alike x x'
      → Alike y y'
      → Alike (if b then x else y) (if b then x' else y')
  Alike-if true p q = p
  Alike-if false p q = q

module _ {W : Type 0} where
  settle_same :
      (k k' : Exec (Memory W) Next) (r : Ended (Memory W) (Unit {0}))
      → Alike k k'
      → settle k r ≡ settle k' r
  unfolding settle
  settle_same k k' (returns u m) h = h.same m
  settle_same k k' (raises RubyErrorKind.block_return m) h = h.same m
  settle_same k k' (raises RubyErrorKind.method_return m) h = refl
  settle_same k k' (raises _ m) h = refl
  settle_same k k' panics h = refl

  Alike-try_push :
      {c c' : Exec (Memory W) (Unit {0})} {k k' : Exec (Memory W) Next}
      → Alike c c'
      → Alike k k'
      → Alike (try_push c k) (try_push c' k')
  unfolding try_push
  Alike-try_push {c' = c'} {k = k} {k' = k'} p q = record {
    same = λ m. rw (p.same m, try_push) (settle_same k k' (c' m) q);
  }

  Alike-try_no_push :
      {c c' : Exec (Memory W) (Unit {0})} {k k' : Exec (Memory W) Next}
      → Alike c c'
      → Alike k k'
      → Alike (try_no_push c k) (try_no_push c' k')
  unfolding try_no_push
  Alike-try_no_push {c' = c'} {k = k} {k' = k'} p q = record {
    same = λ m.
        rw (p.same m, try_no_push)
          (settle_same (stack_pop >>= λ v. k) (stack_pop >>= λ v. k') (c' m)
            (Alike-bind (Alike-refl stack_pop) λ v. q));
  }

module _ (s s' : ISeq) (pc n : ℕ) (h : SameBytes s s' pc n) where
  slice_same : (k w : ℕ) → k + w ≤ n → slice s (pc + k) w ≡ slice s' (pc + k) w
  unfolding slice
  slice_same k w l =
      let part =
        take-agree w (drop (pc + k) s) (drop (pc + k) s')
          (λ j jl. get_elem?-drop (pc + k) j s ∙ at j jl ∙ sym (get_elem?-drop (pc + k) j s')) in
      rw (h.lengths, part)
    where
      at : (j : ℕ) → j < w → get_elem? s (pc + k + j) ≡ get_elem? s' (pc + k + j)
      at j jl = ground (arith, h.bytes (k + j))

  le_of : (k w : ℕ) → leb (k + w) n ≡ true → k + w ≤ n
  le_of k w e = ground arith

  read_bytes_same :
      (k w : ℕ) → leb (k + w) n ≡ true → read_bytes s (pc + k) w ≡ read_bytes s' (pc + k) w
  read_bytes_same k w l =
      ap (λ r. elim r [ none ↦ none | some bs ↦ some (from_bytes bs) ])
        (slice_same k w (le_of k w l))

  module _ {W : Type 0} where
    operand8_same : (k : ℕ) → leb (k + 1) n ≡ true → operand8 {W = W} s pc k ≡ operand8 s' pc k
    unfolding operand8
    operand8_same k l =
        let inside = le_of k 1 l in
        let byte : get_elem? s (pc + k) ≡ get_elem? s' (pc + k) = h.bytes k (omega arith) in
        ap unwrap byte

    operand16_same : (k : ℕ) → leb (k + 2) n ≡ true → operand16 {W = W} s pc k ≡ operand16 s' pc k
    unfolding operand16 read16
    operand16_same k l = ap unwrap (read_bytes_same k 2 l)

    operand32_same : (k : ℕ) → leb (k + 4) n ≡ true → operand32 {W = W} s pc k ≡ operand32 s' pc k
    unfolding operand32 read32
    operand32_same k l = ap unwrap (read_bytes_same k 4 l)

    operand64_same : (k : ℕ) → leb (k + 8) n ≡ true → operand64 {W = W} s pc k ≡ operand64 s' pc k
    unfolding operand64 read64
    operand64_same k l = ap unwrap (read_bytes_same k 8 l)

    pub immediate_same :
        (k : ℕ) → leb (k + 4) n ≡ true → immediate {W = W} s pc k ≡ immediate s' pc k
    unfolding immediate
    immediate_same k l = ap (λ r. r >>= λ i. pure (as_i32 i)) (operand32_same k l)

    displacement_same :
        (k : ℕ) → leb (k + 4) n ≡ true → displacement {W = W} s pc k ≡ displacement s' pc k
    unfolding displacement read_disp read32
    displacement_same k l =
        ap (λ r. unwrap (elim r [ none ↦ none | some i ↦ some (as_i32 i) ])) (read_bytes_same k 4 l)

    method_operand_same :
        (k : ℕ) → leb (k + 4) n ≡ true → method_operand {W = W} s pc k ≡ method_operand s' pc k
    unfolding method_operand
    method_operand_same k l =
        ap (λ r. r >>= λ i. if i == 0 then (λ m. panics) else pure i) (operand32_same k l)

    module _ (o : Executor W) where
      found_or_else-Alike :
          (disp : Option ℤ)
          → leb 9 n ≡ true
          → Alike (found_or_else o s pc disp) (found_or_else o s' pc disp)
      unfolding found_or_else
      found_or_else-Alike (some disp) l = Alike-refl (pure disp)
      found_or_else-Alike none l = Alike-path (displacement_same 5 l)

      dispatch_integer-Alike :
          (i : Option ℤ)
          → leb 9 n ≡ true
          → Alike (dispatch_integer o s pc i) (dispatch_integer o s' pc i)
      unfolding dispatch_integer
      dispatch_integer-Alike none l = Alike-path (displacement_same 5 l)
      dispatch_integer-Alike (some i) l =
          let four : leb 5 n ≡ true = ground arith in
          search
            (
              Alike-bind,
              Alike-refl,
              Alike-if,
              Alike-path,
              displacement_same 5 l,
              operand32_same 1 four,
            )
            depth 10

ruleset alike = (
  Alike-refl, Alike-bind, Alike-if, Alike-path, Alike-try_push, Alike-try_no_push, operand8_same,
  operand16_same, operand32_same, operand64_same, immediate_same, displacement_same,
  method_operand_same, found_or_else-Alike, dispatch_integer-Alike, refl,
)

-- An arm reads its operands within the instruction: two codes of the same length with the same bytes there
-- do the same.
pub exec-Alike :
    {W : Type 0} (o : Executor W) (self_value : ℕ) (s s' : ISeq) (pc : ℕ) (i : Inst)
    → SameBytes s s' pc (inst_size i)
    → Alike (exec o self_value s pc i) (exec o self_value s' pc i)
unfolding exec inst_size
exec-Alike o self_value s s' pc Inst.push_fixnum h = search alike depth 20
exec-Alike o self_value s s' pc _ h = search alike depth 20
