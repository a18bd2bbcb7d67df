-- ===== src/Alloc/Allocate.antt =====
-- src/alloc.rs: `alloc` hands out cells that are not in use.
use ruruby.Prelude.{
  ℕ, ◌≡◌, inl, inr, refl, Bool, true, false, ◌&&◌, List, [], ◌∷◌, none, some, arith, sym, subst,
  ◌==◌, Bool-cases, Option-cases, if◌then◌else◌, ==→eq, ==→ne,
}
use ruruby.Value.{RValue}
use ruruby.Alloc.{Allocator, alloc, data_len, threshold, get_data_ptr, pop_page}
use ruruby.Alloc.Links.{In, Distinct, Chain}
use ruruby.Alloc.Heap.{IsHeap, IsFresh, IsAllocated, first_cell}
use ruruby.Alloc.Heap.FreeList.{from_list, from_list_lem}
use ruruby.Alloc.Heap.Bump.{from_current, from_current_lem}
use ruruby.Alloc.Heap.NewPage.{from_page, from_page_lem}

module _ (v : RValue) (a : Allocator) (xs : List ℕ) (h : IsHeap a xs) where
  empty-Chain : a.free ≡ none → (ys : List ℕ) → Chain a.cells a.free ys → ys ≡ []
  empty-Chain e [] c = refl
  empty-Chain e (y ∷ ys) c = cc (e, c.0)

  first_of_Chain :
      (g : ℕ)
      → a.free ≡ some g
      → (ys : List ℕ) → Chain a.cells a.free ys
      → (zs : List ℕ) × (ys ≡ g ∷ zs)
  first_of_Chain g e [] c = cc (e, c)
  first_of_Chain g e (y ∷ ys) c = (ys, cc (e, c.0))

  alloc_list : (fresh g : ℕ) → a.free ≡ some g → alloc fresh v a ≡ from_list v a xs h g
  unfolding alloc
  alloc_list fresh g e = rw (e, alloc) refl

  alloc_current :
      (fresh : ℕ)
      → a.free ≡ none
      → (a.used_in_current == data_len) ≡ false
      → (flag : Bool) × (alloc fresh v a ≡ from_current v a xs h flag)
  unfolding alloc get_data_ptr
  alloc_current fresh e b = (
    if a.used_in_current == threshold && a.gc_enabled then true else a.alloc_flag,
    rw (e, b, alloc) (rw e refl),
  )

  alloc_page :
      (fresh : ℕ)
      → a.free ≡ none
      → (a.used_in_current == data_len) ≡ true
      → alloc fresh v a ≡ from_page v a xs h (pop_page a.free_pages fresh)
  unfolding alloc get_data_ptr
  alloc_page fresh e b = rw (e, b, alloc) (rw (first_cell (pop_page a.free_pages fresh).0, e) refl)

  from_new_page :
      (fresh : ℕ)
      → IsFresh a fresh
      → a.free ≡ none
      → a.used_in_current ≡ data_len
      → xs ≡ []
      → IsAllocated v a xs (from_page v a xs h (pop_page a.free_pages fresh)) xs
  from_new_page fresh new e full s = go a.free_pages refl
    where
      go :
          (ps : List ℕ)
          → a.free_pages ≡ ps
          → IsAllocated v a xs (from_page v a xs h (pop_page ps fresh)) xs
      go [] q =
          from_page_lem v a xs h fresh [] e full s new.0 (new.1, new.2) (λ i. i) tt
            (λ r i. absurd i)
      go (p ∷ ps) q =
          let d : Distinct (p ∷ ps) = subst Distinct q h.free_distinct in
          let within : (r : ℕ) → In r (p ∷ ps) → In r a.free_pages =
            λ r i. subst (In r) (sym q) i in
          from_page_lem v a xs h p ps e full s (h.free_page p (within p (inl refl)))
            (h.free_apart p (within p (inl refl))) d.0 d.1 (λ r i. within r (inr i))

  -- In a well-formed heap, `alloc` answers the address of a cell that was not in use, with the
  -- object stored in it: it is in use afterwards, as is every cell that was and no other, no other
  -- cell is written, and the heap is well-formed again, with the number of free cells as
  -- `free_list_count`. `fresh` is any page of the system that the heap does not have yet.
  pub alloc_lem :
      (fresh : ℕ) → IsFresh a fresh → (ys : List ℕ) × IsAllocated v a xs (alloc fresh v a) ys
  alloc_lem fresh new = elim (Option-cases a.free) [
    | inl e ↦
        let s = empty-Chain e xs h.chain in
        (
          xs,
          elim (Bool-cases (a.used_in_current == data_len)) [
            | inl t ↦
                subst (λ r. IsAllocated v a xs r xs) (sym (alloc_page fresh e t))
                  (from_new_page fresh new e (==→eq _ _ t) s)
            | inr t ↦
                let r = alloc_current fresh e t in
                let ne = ==→ne _ _ t in
                subst (λ r. IsAllocated v a xs r xs) (sym r.1)
                  (from_current_lem v a xs h r.0 e (omega (arith, h.bound)) s)
          ],
        )
    | inr (g, e) ↦
        let r = first_of_Chain g e xs h.chain in
        (
          r.0,
          subst (λ q. IsAllocated v a xs q r.0) (sym (alloc_list fresh g e))
              (from_list_lem v a xs h g r.0 e r.1),
        )
  ]
