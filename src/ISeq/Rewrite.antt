-- ===== src/ISeq/Rewrite.antt =====
-- src/vm/iseq.rs: the body of the loop of `optimize` at an unconditional and at a conditional jump.
use ruruby.Prelude.{
  ℕ, ◌+◌, ◌-◌, ◌≤◌, ◌<◌, ◌^◌, ◌≡◌, ◌≢◌, true, false, some, arith, length, get_elem?, length-set,
  get_elem?-set_ne, get_elem?-set_self, get_elem?-lt, Bool-cases, inl, inr, ◌∙◌, ◌⊎◌, ap,
}
use ruruby.Prelude.Int.{ℤ}
use ruruby.ISeq.{ISeq, add_disp, sub_usize, read_disp, write_disp}
use ruruby.ISeq.Patch.{write_disp_target}
use ruruby.ISeq.Optimize.{
  dest, code, set5, is_jump, is_terminator, is_branch, jump_target, target_before, rewrite_at,
  rewrite_jump, rewrite_branch,
}
use ruruby.ISeq.Chase.{Hops, StopsAt, chase-answer, answer}

-- The bytes outside `lo .. hi` are as before.
abbrev pub KeepsOutside : ℕ → ℕ → ISeq → ISeq → Type 0
KeepsOutside lo hi s s' =
    (length s' ≡ length s) × ((i : ℕ) → (i < lo) ⊎ (hi ≤ i) → get_elem? s' i ≡ get_elem? s i)

set5_lem :
    (s : ISeq) (p b : ℕ)
    → p + 5 ≤ length s
    → (get_elem? (set5 s p b) p ≡ some b) × KeepsOutside p (p + 5) s (set5 s p b)
set5_lem s p b room = (
  get_elem?-set_ne _ (p + 4) p b (omega arith)
      ∙ get_elem?-set_ne _ (p + 3) p b (omega arith)
      ∙ get_elem?-set_ne _ (p + 2) p b (omega arith)
      ∙ get_elem?-set_ne _ (p + 1) p b (omega arith)
      ∙ get_elem?-set_self s p b (omega arith),
  (
    simp length-set,
    λ i out.
        get_elem?-set_ne _ (p + 4) i b (away i out (p + 4) (omega arith) (omega arith))
        ∙ get_elem?-set_ne _ (p + 3) i b (away i out (p + 3) (omega arith) (omega arith))
        ∙ get_elem?-set_ne _ (p + 2) i b (away i out (p + 2) (omega arith) (omega arith))
        ∙ get_elem?-set_ne _ (p + 1) i b (away i out (p + 1) (omega arith) (omega arith))
        ∙ get_elem?-set_ne _ p i b (away i out p (omega arith) (omega arith)),
  ),
)
  where
    away : (i : ℕ) → (i < p) ⊎ (p + 5 ≤ i) → (k : ℕ) → p ≤ k → k < p + 5 → k ≢ i
    away i (inl h) k a c = omega arith
    away i (inr h) k a c = omega arith

pub target_before_lem :
    (s : ISeq) (p : ℕ) → p + 5 < 2 ^ 64 → target_before s (p + 5) ≡ jump_target s p
unfolding target_before jump_target sub_usize
target_before_lem s p h = ground arith

-- The instruction at `p`, whose jump ended at the instruction `c` in position `q`, has become that
-- instruction, if it is a terminator, and else jumps to `q` itself.
pub data Shortened (s' : ISeq) (p b q c : ℕ) : Type 0 where
  returns : is_terminator c ≡ true → get_elem? s' p ≡ some c → Shortened s' p b q c
  jumps :
      is_terminator c ≡ false
      → get_elem? s' p ≡ some b
      → target_before s' (p + 5) ≡ some q
      → Shortened s' p b q c

sub_usize-le : (a b : ℕ) → b ≤ a → a < 2 ^ 64 → sub_usize a b ≡ a - b
unfolding sub_usize
sub_usize-le a b h small = ground arith

target_from :
    (s' : ISeq) (next q : ℕ) {d : ℤ}
    → 4 ≤ next
    → next < 2 ^ 64
    → read_disp s' (next - 4) ≡ some d
    → add_disp next d ≡ q
    → target_before s' next ≡ some q
unfolding target_before
target_from s' next q lo small e f = rw (sub_usize-le next 4 lo small, e, target_before) (ap some f)

patched :
    (s : ISeq) (p n q b : ℕ)
    → 5 ≤ n
    → p + n ≤ length s
    → length s < 2 ^ 31
    → q < length s
    → get_elem? s p ≡ some b
    → (s' : ISeq) × (write_disp s (p + n) q ≡ some s')
      × (get_elem? s' p ≡ some b)
      × (target_before s' (p + n) ≡ some q)
      × KeepsOutside (p + n - 4) (p + n) s s'
patched s p n q b five room small inside at =
    let r = write_disp_target s (p + n) q (omega arith) room (omega arith) (omega arith) in
    (
      r.0,
      r.1,
      r.4 p (inl (omega arith)) ∙ at,
      target_from r.0 (p + n) q (omega arith) (omega arith) r.2.1 r.2.2,
      (r.3, r.4),
    )

-- A change within a part of the bytes is one within a larger part.
pub KeepsOutside-wider :
    (s s' : ISeq) (lo lo' hi : ℕ) → lo ≤ lo' → KeepsOutside lo' hi s s' → KeepsOutside lo hi s s'
KeepsOutside-wider s s' lo lo' hi l k =
    (k.0, λ i out. k.1 i (elim out [ inl e ↦ inl (omega arith) | inr e ↦ inr e ]))

answer_conditional : (c q : ℕ) → answer c q false ≡ dest q
answer_conditional c q = ground arith

module _ (fuel : ℕ) (s : ISeq) (p b q₀ q c n : ℕ) (at : get_elem? s p ≡ some b)
    (hops : Hops s q₀ q n) (stop : StopsAt s q c) (enough : n < fuel)
    (small : length s < 2 ^ 31) where
  inside : q < length s
  inside = get_elem?-lt s q stop.at

  -- A jump at `p` that leads, over `n` further jumps, to the instruction `c` at `q`, in a buffer of
  -- less than 2 ^ 31 bytes: with more than `n` fuel the step gives code in which the jump is
  -- shortened, and no other byte has changed.
  pub rewrite_at-jump :
      is_jump b ≡ true
      → p + 5 ≤ length s
      → target_before s (p + 5) ≡ some q₀
      → (s' : ISeq) × (rewrite_at fuel s p b 5 ≡ code s')
        × Shortened s' p b q c
        × KeepsOutside p (p + 5) s s'
  rewrite_at-jump jump room leads =
      let found = chase-answer fuel c true hops stop enough in
      elim (Bool-cases (is_terminator c)) [
        | inl term ↦
            let r = set5_lem s p c room in
            (
              set5 s p c,
              unfold rewrite_at rewrite_jump in
                  rw (jump, leads, found, term, rewrite_at) (ground arith),
              returns term r.0,
              r.1,
            )
        | inr on ↦
            let r = patched s p 5 q b (omega arith) room small inside at in
            (
              r.0,
              unfold rewrite_at rewrite_jump in rw (jump, leads, found, on, rewrite_at) (rw r.1),
              jumps on r.2 r.3,
              KeepsOutside-wider s r.0 p (p + 5 - 4) (p + 5) (omega arith) r.4,
            )
      ]

  -- A conditional jump of `m` bytes that leads, over `n` jumps, to an instruction at `q`, in a
  -- buffer of less than 2 ^ 31 bytes: with more than `n` fuel the step makes it lead to `q` itself,
  -- whatever instruction stands there, and no byte but the four of its displacement has changed.
  pub rewrite_at-branch :
      (m : ℕ)
      → 5 ≤ m
      → is_jump b ≡ false
      → is_branch b ≡ true
      → p + m ≤ length s
      → target_before s (p + m) ≡ some q₀
      → (s' : ISeq) × (rewrite_at fuel s p b m ≡ code s')
        × (get_elem? s' p ≡ some b)
        × (target_before s' (p + m) ≡ some q)
        × KeepsOutside (p + m - 4) (p + m) s s'
  rewrite_at-branch m five no_jump branch room leads =
      let found = chase-answer fuel c false hops stop enough in
      let r = patched s p m q b five room small inside at in
      (
        r.0,
        unfold rewrite_at rewrite_branch in
            rw (no_jump, branch, leads, found, answer_conditional c q, rewrite_at) (rw r.1),
        r.2,
        r.3,
        r.4,
      )
