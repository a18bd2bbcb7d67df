-- ===== src/Alloc/Reclaim.antt =====
-- src/alloc.rs: a sweep keeps the heap well-formed.
use ruruby.Prelude.{ℕ, ◌≡◌, ◌↔◌, inl, inr, refl, List, ◌∷◌, length}
use ruruby.Alloc.{Allocator}
use ruruby.Alloc.Sweep.{sweep}
use ruruby.Alloc.Links.{In}
use ruruby.Alloc.Collect.{IsLaidOut, Garbage, sweep-collects}
use ruruby.Alloc.Heap.{IsUsed, IsHeap, IsLive}

module _ (a : Allocator) (ys : List ℕ) (h : IsHeap a ys)
    (bitmaps : (p : ℕ) → In p (a.current ∷ a.pages) → length (a.marks p) ≡ 63) where
  laid_out : IsLaidOut a
  laid_out = record {
    current_page = record {
      aligned = h.current_page.aligned;
      bitmap = bitmaps a.current (inl refl);
    };
    each_page = λ p i. record { aligned = (h.each_page p i).aligned; bitmap = bitmaps p (inr i) };
    distinct = (h.current_apart, h.pages_distinct);
    used = h.bound;
  }

  Garbage-IsUsed : (x : ℕ) → Garbage a x → IsUsed (sweep a) x
  unfolding sweep
  Garbage-IsUsed x (Garbage.in_page p i d) = IsUsed.in_page p i d.index d.below d.at
  Garbage-IsUsed x (Garbage.in_current d) = IsUsed.in_current d.index d.below d.at

  keep-IsUsed : (x : ℕ) → IsUsed a x ↔ IsUsed (sweep a) x
  unfolding sweep
  keep-IsUsed x = (
    λ u. elim u [
      | IsUsed.in_page p i k b e ↦ IsUsed.in_page p i k b e
      | IsUsed.in_current k b e ↦ IsUsed.in_current k b e
    ],
    λ u. elim u [
      | IsUsed.in_page p i k b e ↦ IsUsed.in_page p i k b e
      | IsUsed.in_current k b e ↦ IsUsed.in_current k b e
    ],
  )

  -- Where the heap is well-formed and each page has its bitmap of 63 words, a sweep leaves a well-
  -- formed heap, with a new free list. The objects in use afterwards are the cells once handed out
  -- that are not garbage: those that are marked.
  pub sweep-IsHeap :
      (xs : List ℕ) × IsHeap (sweep a) xs
      × ((x : ℕ) → IsLive (sweep a) xs x ↔ (IsUsed a x × (¬ Garbage a x)))
  sweep-IsHeap =
      let s = sweep-collects a laid_out in
      (
        s.0,
        unfold sweep in
            record {
              chain = s.1;
              distinct = s.2;
              counted = s.4;
              once_used = λ x i. Garbage-IsUsed x ((s.3 x).0 i);
              bound = h.bound;
              current_page = h.current_page;
              each_page = h.each_page;
              free_page = h.free_page;
              current_apart = h.current_apart;
              pages_distinct = h.pages_distinct;
              free_distinct = h.free_distinct;
              free_apart = h.free_apart;
            },
        λ x. (
          λ l. ((keep-IsUsed x).1 l.0, λ g. l.1 ((s.3 x).1 g)),
          λ u. ((keep-IsUsed x).0 u.0, λ i. u.1 ((s.3 x).0 i)),
        ),
      )
