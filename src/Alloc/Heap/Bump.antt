-- ===== src/Alloc/Heap/Bump.antt =====
-- src/alloc.rs: `alloc` from the current page.
use ruruby.Prelude.{
  ℕ, ◌+◌, ◌*◌, ◌<◌, ◌≡◌, ◌⊎◌, inl, inr, Bool, List, [], none, arith, ◌∙◌, ap, sym, subst, ◌==◌,
  Bool-cases, ==→eq, ==→ne,
}
use ruruby.Value.{RValue}
use ruruby.Alloc.{Allocator, store, data_len}
use ruruby.Alloc.Links.{In}
use ruruby.Alloc.Heap.{
  IsUsed, IsHeap, IsAllocated, cell_page, store_self, store_other, Chain-store, cell-IsAddress,
  new_cell,
}

module _ (v : RValue) (a : Allocator) (xs : List ℕ) (h : IsHeap a xs) where
  -- The next cell of the current page.
  abbrev pub from_current : Bool → ℕ × Allocator
  from_current flag = (
    a.current + a.used_in_current * 64,
    record a {
      allocated = a.allocated + 1;
      alloc_flag = flag;
      used_in_current = a.used_in_current + 1;
      cells = store a.cells (a.current + a.used_in_current * 64) (new_cell v);
    },
  )

  next_unused : a.used_in_current < data_len → ¬ IsUsed a (a.current + a.used_in_current * 64)
  next_unused b u = elim u [
    | IsUsed.in_page p i k kb e ↦ h.current_apart (
        subst (λ q. In q a.pages)
          (sym (
            cell_page a.current a.used_in_current p k h.current_page.aligned
              (h.each_page p i).aligned b kb e))
          i)
    | IsUsed.in_current k kb e ↦ absurd (omega arith)
  ]

  IsUsed-current : (flag : Bool) (x : ℕ) → IsUsed a x → IsUsed (from_current flag).1 x
  IsUsed-current flag x (IsUsed.in_page p i k b e) = IsUsed.in_page p i k b e
  IsUsed-current flag x (IsUsed.in_current k b e) = IsUsed.in_current k (omega arith) e

  current-IsUsed :
      (flag : Bool) (x : ℕ)
      → IsUsed (from_current flag).1 x
      → (x ≡ a.current + a.used_in_current * 64) ⊎ IsUsed a x
  current-IsUsed flag x (IsUsed.in_page p i k b e) = inr (IsUsed.in_page p i k b e)
  current-IsUsed flag x (IsUsed.in_current k b e) = elim (Bool-cases (k == a.used_in_current)) [
    | inl t ↦ inl (e ∙ ap (λ n. a.current + n * 64) (==→eq k a.used_in_current t))
    | inr t ↦ let ne = ==→ne k a.used_in_current t in inr (IsUsed.in_current k (omega arith) e)
  ]

  pub from_current_lem :
      (flag : Bool)
      → a.free ≡ none
      → a.used_in_current < data_len
      → xs ≡ []
      → IsAllocated v a xs (from_current flag) xs
  from_current_lem flag e b s =
      let ptr = a.current + a.used_in_current * 64 in
      let new : (x : ℕ) → ¬ In x xs = λ x i. subst (In x) s i in
      record {
        heap = record {
          chain = Chain-store a.cells a.free xs ptr (new_cell v) h.chain (new ptr);
          distinct = h.distinct;
          counted = h.counted;
          once_used = λ x i. absurd (new x i);
          bound = omega arith;
          current_page = h.current_page;
          each_page = h.each_page;
          free_page = h.free_page;
          current_apart = h.current_apart;
          pages_distinct = h.pages_distinct;
          free_distinct = h.free_distinct;
          free_apart = h.free_apart;
        };
        address = cell-IsAddress a.current a.used_in_current h.current_page b;
        not_live = λ l. next_unused b l.0;
        live = λ x. (
          λ l. elim (current-IsUsed flag x l.0) [ inl q ↦ inl q | inr q ↦ inr (q, l.1) ],
          λ o. elim o [
            | inl q ↦ (IsUsed.in_current a.used_in_current (omega arith) q, new x)
            | inr l ↦ (IsUsed-current flag x l.0, l.1)
          ],
        );
        stored = store_self a.cells ptr (new_cell v);
        others = λ x ne. store_other a.cells ptr x (new_cell v) ne;
      }
