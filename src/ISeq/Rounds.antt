-- ===== src/ISeq/Rounds.antt =====
-- src/vm/iseq.rs: the loop of `optimize` ends.
use ruruby.Prelude.{
  ℕ, zero, suc, ◌+◌, ◌≤◌, ◌<◌, ◌≢◌, ◌≡◌, ◌⊎◌, refl, sym, ◌∙◌, true, false, some, arith, ltb, leb,
  length, get_elem?, Bool-cases, Option-cases, inl, inr, length-set, ltb→lt,
}
use ruruby.ISeq.{ISeq, write_disp}
use ruruby.ISeq.Inst.{Inst, decode, inst_size}
use ruruby.ISeq.Optimize.{
  Chased, Rewritten, written, set5, size_of, is_jump, is_branch, target_before, chase, rewrite_jump,
  rewrite_branch, rewrite_at, optimize_from,
}

inst_size-positive : (i : Inst) → 1 ≤ inst_size i
unfolding inst_size
inst_size-positive Inst.push_fixnum = omega arith
inst_size-positive _ = omega arith

size_of-positive : (b n : ℕ) → size_of b ≡ some n → 1 ≤ n
unfolding size_of
size_of-positive b n e = elim (Option-cases (decode b)) [
  | inl d ↦ cc (e, d)
  | inr (i, d) ↦
      let q : some (inst_size i) ≡ some n = sym (rw (d, size_of) refl) ∙ e in
      let m : inst_size i ≡ n = cc q in omega (arith, inst_size-positive i)
]

-- A rewriting step that gives a buffer keeps its length.
abbrev KeepsLength : ISeq → Rewritten → Type 0
KeepsLength s (Rewritten.code s') = length s' ≡ length s
KeepsLength s Rewritten.out_of_rounds = ⊥
KeepsLength s _ = Unit

write_disp-length : (s : ISeq) (src dest : ℕ) → KeepsLength s (written (write_disp s src dest))
unfolding write_disp
write_disp-length s src dest = elim (Bool-cases (leb 4 src)) [
  | inl t ↦ elim (Bool-cases (leb src (length s))) [
    | inl u ↦ rw (t, u, write_disp) (simp length-set)
    | inr u ↦ rw (t, u, write_disp) tt
  ]
  | inr t ↦ rw (t, write_disp) tt
]

set5-length : (s : ISeq) (p b : ℕ) → length (set5 s p b) ≡ length s
set5-length s p b = simp length-set

rewrite_jump-length : (s : ISeq) (p next : ℕ) (c : Chased) → KeepsLength s (rewrite_jump s p next c)
unfolding rewrite_jump
rewrite_jump-length s p next (Chased.dest q) = write_disp-length s next q
rewrite_jump-length s p next (Chased.inst b) = elim (Bool-cases (ltb (p + 4) (length s))) [
  | inl t ↦ rw t (set5-length s p b)
  | inr t ↦ rw t tt
]
rewrite_jump-length s p next Chased.fault = tt
rewrite_jump-length s p next Chased.unfinished = tt

rewrite_branch-length : (s : ISeq) (next : ℕ) (c : Chased) → KeepsLength s (rewrite_branch s next c)
unfolding rewrite_branch
rewrite_branch-length s next (Chased.dest q) = write_disp-length s next q
rewrite_branch-length s next (Chased.inst b) = tt
rewrite_branch-length s next Chased.fault = tt
rewrite_branch-length s next Chased.unfinished = tt

rewrite_at-length : (fuel : ℕ) (s : ISeq) (p b n : ℕ) → KeepsLength s (rewrite_at fuel s p b n)
unfolding rewrite_at
rewrite_at-length fuel s p b n = elim (Option-cases (target_before s (p + n))) [
  | inl e ↦ elim (Bool-cases (is_jump b)) [
    | inl j ↦ rw (j, e, rewrite_at) tt
    | inr j ↦ elim (Bool-cases (is_branch b)) [
      | inl c ↦ rw (j, c, e, rewrite_at) tt
      | inr c ↦ rw (j, c, rewrite_at) refl
    ]
  ]
  | inr (q, e) ↦ elim (Bool-cases (is_jump b)) [
    | inl j ↦ rw (j, e, rewrite_at) (rewrite_jump-length s p (p + n) (chase fuel s q true))
    | inr j ↦ elim (Bool-cases (is_branch b)) [
      | inl c ↦ rw (j, c, e, rewrite_at) (rewrite_branch-length s (p + n) (chase fuel s q false))
      | inr c ↦ rw (j, c, rewrite_at) refl
    ]
  ]
]

Rewritten-cases :
    (s : ISeq) (r : Rewritten)
    → KeepsLength s r
    → ((s' : ISeq) × (r ≡ Rewritten.code s') × (length s' ≡ length s))
      ⊎ ((r ≡ Rewritten.panicked) ⊎ (r ≡ Rewritten.diverged))
Rewritten-cases s (Rewritten.code s') h = inl (s', refl, h)
Rewritten-cases s Rewritten.panicked h = inr (inl refl)
Rewritten-cases s Rewritten.diverged h = inr (inr refl)
Rewritten-cases s Rewritten.out_of_rounds h = absurd h

-- The rounds of `optimize` are enough: from `p` on, a number of rounds that is larger than the number of
-- bytes left does not run out.
pub optimize_from-rounds :
    (rounds fuel : ℕ) (s : ISeq) (p : ℕ)
    → length s < p + rounds
    → 1 ≤ rounds
    → optimize_from rounds fuel s p ≢ Rewritten.out_of_rounds
unfolding optimize_from
optimize_from-rounds zero fuel s p h l = absurd (omega arith)
optimize_from-rounds (suc k) fuel s p h l = elim (Bool-cases (ltb p (length s))) [
  | inr t ↦ rw (t, optimize_from) (λ e. cc e)
  | inl t ↦ elim (Option-cases (get_elem? s p)) [
    | inl e ↦ rw (t, e, optimize_from) (λ q. cc q)
    | inr (b, e) ↦ elim (Option-cases (size_of b)) [
      | inl z ↦ rw (t, e, z, optimize_from) (λ q. cc q)
      | inr (n, z) ↦
          let moves = size_of-positive b n z in
          let more = ltb→lt p (length s) t in
          elim (Rewritten-cases s (rewrite_at fuel s p b n) (rewrite_at-length fuel s p b n)) [
            | inr (inl c) ↦ rw (t, e, z, c, optimize_from) (λ q. cc q)
            | inr (inr c) ↦ rw (t, e, z, c, optimize_from) (λ q. cc q)
            | inl (s', c, kept) ↦
                rw (t, e, z, c, optimize_from)
                  (optimize_from-rounds k fuel s' (p + n) (omega arith) (omega arith))
          ]
    ]
  ]
]
