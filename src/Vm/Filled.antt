-- ===== src/Vm/Filled.antt =====
-- src/vm/context.rs: where the arguments of a context go.
use ruruby.Prelude.{
  ℕ, zero, suc, ◌+◌, ◌-◌, ◌≤◌, ◌<◌, ◌≡◌, refl, sym, subst, ap, ◌∙◌, ◌⊎◌, inl, inr, List, ◌++◌,
  Option, some, arith, length, take, drop, set, replicate, leb, length-append, length-set,
  length-take, length-drop, ge→ltb, le→leb, gt→leb, lt→ltb, Bool-cases,
}
use mathlib.Core.Option
use ruruby.Prelude.Parts.{
  overwrite, overwrite-left, overwrite-nothing, set-append_left, set-append_right, overwrite-right,
  overwrite-set, overwrite-across, length-overwrite,
}
use ruruby.Vm.{Context}
use ruruby.Vm.Locals.{index_mut, lvar_array_size}
use ruruby.Vm.Params.{copy_range, copy_parts, copy_from_slice, copy_from_slice0, fill}

-- The local variables, as one list.
unfoldable pub lvars : Context → List ℕ
lvars c = c.lvar_ary ++ c.lvar_vec

-- The outcome of a write: the array keeps its length, the variables are these.
unfoldable pub Wrote : Option Context → List ℕ → Type 0
Wrote r vals =
    (c' : Context) × (r ≡ some c') × (length c'.lvar_ary ≡ lvar_array_size) × (lvars c' ≡ vals)

copy_range_lem :
    (xs : List ℕ) (i : ℕ) (ys : List ℕ)
    → i + length ys ≤ length xs
    → copy_range xs i ys ≡ some (overwrite xs i ys)
unfolding copy_range
copy_range_lem xs i ys h = rw (le→leb (i + length ys) (length xs) h)

pub le_or_gt : (a b : ℕ) → (a ≤ b) ⊎ (b < a)
le_or_gt a b = elim (Bool-cases (leb a b)) [
  | inl h ↦ inl (ground arith)
  | inr h ↦ inr (ground arith)
]

-- A slice that lies in the array and in the vector.
copy_parts_lem :
    (c : Context) (index n : ℕ) (slice : List ℕ)
    → length c.lvar_ary ≡ lvar_array_size
    → index + length slice ≤ length (lvars c)
    → index + n ≡ lvar_array_size
    → n ≤ length slice
    → Wrote (copy_parts c index (take n slice) (drop n slice)) (overwrite (lvars c) index slice)
unfolding copy_parts lvars Wrote Option.bind
copy_parts_lem c index n slice four room at_end long = (
  record c {
    lvar_ary = overwrite c.lvar_ary index (take n slice);
    lvar_vec = overwrite c.lvar_vec 0 (drop n slice);
  },
  rw (
    copy_range_lem c.lvar_ary index (take n slice) left,
    copy_range_lem c.lvar_vec 0 (drop n slice) right,
  ),
  length-overwrite c.lvar_ary index (take n slice) left ∙ four,
  overwrite-across c.lvar_ary c.lvar_vec index n slice (omega arith) long,
)
  where
    left : index + length (take n slice) ≤ length c.lvar_ary
    left = omega (arith, length-take n slice)

    right : 0 + length (drop n slice) ≤ length c.lvar_vec
    right = omega (arith, length-drop n slice, length-append c.lvar_ary c.lvar_vec)

pub copy_from_slice_lem :
    (c : Context) (index : ℕ) (slice : List ℕ)
    → length c.lvar_ary ≡ lvar_array_size
    → index + length slice ≤ length (lvars c)
    → Wrote (copy_from_slice c index slice) (overwrite (lvars c) index slice)
unfolding copy_from_slice lvars Wrote Option.bind
copy_from_slice_lem c index slice four room =
    elim (le_or_gt (index + length slice) lvar_array_size) [
      | inl short ↦ rw (le→leb (index + length slice) lvar_array_size short) (
        record c { lvar_ary = overwrite c.lvar_ary index slice },
        rw (copy_range_lem c.lvar_ary index slice (omega arith)),
        length-overwrite c.lvar_ary index slice (omega arith) ∙ four,
        overwrite-left c.lvar_ary c.lvar_vec index slice (omega arith),
      )
      | inr long ↦
          rw (gt→leb (index + length slice) lvar_array_size long)
            (elim (le_or_gt lvar_array_size index) [
              | inl behind ↦
                  rw (le→leb lvar_array_size index behind, sym four)
                    (
                      record c {
                        lvar_vec = overwrite c.lvar_vec (index - length c.lvar_ary) slice;
                      },
                      rw (
                          copy_range_lem c.lvar_vec (index - length c.lvar_ary) slice
                            (omega (arith, length-append c.lvar_ary c.lvar_vec))),
                      refl,
                      overwrite-right c.lvar_ary c.lvar_vec index slice (omega arith),
                    )
              | inr across ↦ rw (gt→leb lvar_array_size index across) (
                  copy_parts_lem c index (lvar_array_size - index) slice four room (omega arith)
                    (omega arith))
            ])
    ]

pub copy_from_slice0_lem :
    (c : Context) (slice : List ℕ)
    → length c.lvar_ary ≡ lvar_array_size
    → length slice ≤ length (lvars c)
    → Wrote (copy_from_slice0 c slice) (overwrite (lvars c) 0 slice)
unfolding copy_from_slice0 lvars Wrote Option.bind
copy_from_slice0_lem c slice four room = elim (le_or_gt (length slice) lvar_array_size) [
  | inl short ↦ rw (le→leb (length slice) lvar_array_size short) (
    record c { lvar_ary = overwrite c.lvar_ary 0 slice },
    rw (copy_range_lem c.lvar_ary 0 slice (omega arith)),
    length-overwrite c.lvar_ary 0 slice (omega arith) ∙ four,
    overwrite-left c.lvar_ary c.lvar_vec 0 slice (omega arith),
  )
  | inr long ↦
      rw (gt→leb (length slice) lvar_array_size long)
        (copy_parts_lem c 0 lvar_array_size slice four (omega arith) refl (omega arith))
]

pub index_mut_lem :
    (c : Context) (i val : ℕ)
    → length c.lvar_ary ≡ lvar_array_size
    → i < length (lvars c)
    → Wrote (index_mut c i val) (set (lvars c) i val)
unfolding index_mut lvars Wrote
index_mut_lem c i val four room = elim (le_or_gt lvar_array_size i) [
  | inl behind ↦
      rw
        (
          ge→ltb i lvar_array_size behind,
          lt→ltb (i - lvar_array_size) (length c.lvar_vec)
              (omega (arith, length-append c.lvar_ary c.lvar_vec)),
          sym four,
        )
        (
          record c { lvar_vec = set c.lvar_vec (i - length c.lvar_ary) val },
          refl,
          refl,
          sym (set-append_right c.lvar_ary c.lvar_vec i val (omega arith)),
        )
  | inr before ↦
      rw (lt→ltb i lvar_array_size before, lt→ltb i (length c.lvar_ary) (omega arith))
        (
          record c { lvar_ary = set c.lvar_ary i val },
          refl,
          length-set c.lvar_ary i val ∙ four,
          sym (set-append_left c.lvar_ary c.lvar_vec i val (omega arith)),
        )
]

-- One write after another.
pub Wrote-bind :
    (r : Option Context) (k : Context → Option Context) (vals vals' : List ℕ)
    → Wrote r vals
    → ((c : Context) → length c.lvar_ary ≡ lvar_array_size → lvars c ≡ vals → Wrote (k c) vals')
    → Wrote (Option.bind r k) vals'
unfolding Wrote Option.bind
Wrote-bind r k vals vals' w h = rw (w.1) (h w.0 w.2 w.3)

pub fill_lem :
    (n i val : ℕ) (c : Context)
    → length c.lvar_ary ≡ lvar_array_size
    → i + n ≤ length (lvars c)
    → Wrote (fill n i val c) (overwrite (lvars c) i (replicate n val))
unfolding fill
fill_lem zero i val c four room =
    unfold Wrote in (c, refl, four, sym (overwrite-nothing (lvars c) i))
fill_lem (suc n) i val c four room =
    Wrote-bind (index_mut c i val) (fill n (suc i) val) (set (lvars c) i val)
      (overwrite (lvars c) i (replicate (suc n) val)) (index_mut_lem c i val four (omega arith))
      (λ c' four' vals.
        subst (Wrote (fill n (suc i) val c'))
          (ap (λ xs. overwrite xs (suc i) (replicate n val)) vals
            ∙ overwrite-set (lvars c) i val (replicate n val) (omega arith))
          (fill_lem n (suc i) val c' four'
            (omega (arith, ap length vals, length-set (lvars c) i val))))
