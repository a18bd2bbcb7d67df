-- ===== src/Alloc/Heap/FreeList.antt =====
-- src/alloc.rs: `alloc` from the free list.
use ruruby.Prelude.{
  ℕ, ◌+◌, ◌-◌, ◌≡◌, inl, inr, refl, List, ◌∷◌, some, arith, length, ap, sym, subst, ◌==◌,
  Bool-cases, ==→eq, ==→ne,
}
use ruruby.Value.{RValue}
use ruruby.Value.Store.{IsAddress}
use ruruby.Alloc.{Allocator, store}
use ruruby.Alloc.Links.{In, Distinct, Chain}
use ruruby.Alloc.Heap.{
  IsUsed, IsHeap, IsAllocated, store_self, store_other, Chain-store, cell-IsAddress, new_cell,
}

module _ (v : RValue) (a : Allocator) (xs : List ℕ) (h : IsHeap a xs) where
  used-IsAddress : (x : ℕ) → IsUsed a x → IsAddress x
  used-IsAddress x (IsUsed.in_page p i k b e) =
      subst IsAddress (sym e) (cell-IsAddress p k (h.each_page p i) b)
  used-IsAddress x (IsUsed.in_current k b e) =
      subst IsAddress (sym e) (cell-IsAddress a.current k h.current_page (omega (arith, h.bound)))

  -- The first cell of the free list.
  abbrev pub from_list : ℕ → ℕ × Allocator
  from_list g = (
    g,
    record a {
      allocated = a.allocated + 1;
      free = (a.cells g).next;
      cells = store a.cells g (new_cell v);
      free_list_count = a.free_list_count - 1;
    },
  )

  IsUsed-list : (g x : ℕ) → IsUsed a x → IsUsed (from_list g).1 x
  IsUsed-list g x (IsUsed.in_page p i k b e) = IsUsed.in_page p i k b e
  IsUsed-list g x (IsUsed.in_current k b e) = IsUsed.in_current k b e

  list-IsUsed : (g x : ℕ) → IsUsed (from_list g).1 x → IsUsed a x
  list-IsUsed g x (IsUsed.in_page p i k b e) = IsUsed.in_page p i k b e
  list-IsUsed g x (IsUsed.in_current k b e) = IsUsed.in_current k b e

  pub from_list_lem :
      (g : ℕ) (ys : List ℕ) → a.free ≡ some g → xs ≡ g ∷ ys → IsAllocated v a xs (from_list g) ys
  from_list_lem g ys e s =
      let c : Chain a.cells a.free (g ∷ ys) = subst (Chain a.cells a.free) s h.chain in
      let d : Distinct (g ∷ ys) = subst Distinct s h.distinct in
      let used : (x : ℕ) → In x (g ∷ ys) → IsUsed a x =
        λ x i. h.once_used x (subst (In x) (sym s) i) in
      record {
        heap = record {
          chain = Chain-store a.cells (a.cells g).next ys g (new_cell v) c.1 d.0;
          distinct = d.1;
          counted = omega (arith, h.counted, ap length s);
          once_used = λ x i. IsUsed-list g x (used x (inr i));
          bound = h.bound;
          current_page = h.current_page;
          each_page = h.each_page;
          free_page = h.free_page;
          current_apart = h.current_apart;
          pages_distinct = h.pages_distinct;
          free_distinct = h.free_distinct;
          free_apart = h.free_apart;
        };
        address = used-IsAddress g (used g (inl refl));
        not_live = λ l. l.1 (subst (In g) (sym s) (inl refl));
        live = λ x. (
          λ l. elim (Bool-cases (x == g)) [
            | inl t ↦ inl (==→eq x g t)
            | inr t ↦ inr (
              list-IsUsed g x l.0,
              λ i. elim (subst (In x) s i) [ inl q ↦ ==→ne x g t q | inr q ↦ l.1 q ],
            )
          ],
          λ o. elim o [
            | inl q ↦ (
              IsUsed-list g x (subst (IsUsed a) (sym q) (used g (inl refl))),
              λ i. d.0 (subst (λ z. In z ys) q i),
            )
            | inr l ↦ (IsUsed-list g x l.0, λ i. l.1 (subst (In x) (sym s) (inr i)))
          ],
        );
        stored = store_self a.cells g (new_cell v);
        others = λ x ne. store_other a.cells g x (new_cell v) ne;
      }
