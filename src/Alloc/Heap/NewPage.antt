-- ===== src/Alloc/Heap/NewPage.antt =====
-- src/alloc.rs: `alloc` from another page.
use ruruby.Prelude.{
  ℕ, ◌+◌, ◌*◌, ◌≤◌, ◌≡◌, ◌≢◌, ◌⊎◌, inl, inr, refl, List, [], ◌∷◌, ◌++◌, none, arith, ◌∙◌, ap, sym,
  subst,
}
use ruruby.Value.{RValue}
use ruruby.Value.Store.{IsAddress}
use ruruby.Alloc.{Allocator, store, data_len}
use ruruby.Alloc.Links.{In, Distinct}
use ruruby.Alloc.DeadBits.{In-append, Distinct-append}
use ruruby.Alloc.Heap.{
  IsSystemPage, IsUsed, IsHeap, IsAllocated, cell_page, store_self, store_other, Chain-store,
  cell-IsAddress, new_cell,
}

module _ (v : RValue) (a : Allocator) (xs : List ℕ) (h : IsHeap a xs) where
  -- The first cell of another page.
  abbrev pub from_page : ℕ × List ℕ → ℕ × Allocator
  from_page page = (
    page.0,
    record a {
      allocated = a.allocated + 1;
      used_in_current = 1;
      pages = a.pages ++ a.current ∷ [];
      current = page.0;
      free_pages = page.1;
      cells = store a.cells page.0 (new_cell v);
    },
  )

  IsUsed-page :
      (page : ℕ × List ℕ) (x : ℕ)
      → a.used_in_current ≤ data_len
      → IsUsed a x
      → IsUsed (from_page page).1 x
  IsUsed-page page x b (IsUsed.in_page p i k kb e) =
      IsUsed.in_page p ((In-append p a.pages (a.current ∷ [])).1 (inl i)) k kb e
  IsUsed-page page x b (IsUsed.in_current k kb e) =
      IsUsed.in_page a.current ((In-append a.current a.pages (a.current ∷ [])).1 (inr (inl refl))) k
        (omega arith) e

  page-IsUsed :
      (page : ℕ × List ℕ) (x : ℕ)
      → a.used_in_current ≡ data_len
      → IsUsed (from_page page).1 x
      → (x ≡ page.0) ⊎ IsUsed a x
  page-IsUsed page x full (IsUsed.in_page p i k b e) =
      elim ((In-append p a.pages (a.current ∷ [])).0 i) [
        | inl j ↦ inr (IsUsed.in_page p j k b e)
        | inr j ↦ elim j [
          | inl q ↦ inr (IsUsed.in_current k (omega arith) (e ∙ ap (λ n. n + k * 64) q))
          | inr f ↦ absurd f
        ]
      ]
  page-IsUsed page x full (IsUsed.in_current k b e) = inl (omega arith)

  old_page : (p : ℕ) → In p (a.pages ++ a.current ∷ []) → (p ≡ a.current) ⊎ In p a.pages
  old_page p i = elim ((In-append p a.pages (a.current ∷ [])).0 i) [
    | inl j ↦ inr j
    | inr j ↦ elim j [ inl q ↦ inl q | inr f ↦ absurd f ]
  ]

  pub from_page_lem :
      (p : ℕ) (ps : List ℕ)
      → a.free ≡ none
      → a.used_in_current ≡ data_len
      → xs ≡ []
      → IsSystemPage p
      → (p ≢ a.current) × (¬ In p a.pages)
      → (¬ In p ps)
      → Distinct ps
      → ((q : ℕ) → In q ps → In q a.free_pages)
      → IsAllocated v a xs (from_page (p, ps)) xs
  from_page_lem p ps e full s ok apart out d within =
      let new : (x : ℕ) → ¬ In x xs = λ x i. subst (In x) s i in
      let outside : ¬ In p (a.pages ++ a.current ∷ []) =
        λ i. elim (old_page p i) [ inl q ↦ apart.0 q | inr j ↦ apart.1 j ] in
      record {
        heap = record {
          chain = Chain-store a.cells a.free xs p (new_cell v) h.chain (new p);
          distinct = h.distinct;
          counted = h.counted;
          once_used = λ x i. absurd (new x i);
          bound = omega arith;
          current_page = ok;
          each_page = λ q i. elim (old_page q i) [
            | inl z ↦ subst IsSystemPage (sym z) h.current_page
            | inr j ↦ h.each_page q j
          ];
          free_page = λ q i. h.free_page q (within q i);
          current_apart = outside;
          pages_distinct =
              Distinct-append a.pages (a.current ∷ []) h.pages_distinct ((λ f. f), tt)
                (λ q i j. elim j [
                  | inl z ↦ h.current_apart (subst (λ y. In y a.pages) z i)
                  | inr f ↦ f
                ]);
          free_distinct = d;
          free_apart = λ q i. (
            λ z. out (subst (λ y. In y ps) z i),
            λ j. elim (old_page q j) [
              | inl z ↦ (h.free_apart q (within q i)).0 z
              | inr k ↦ (h.free_apart q (within q i)).1 k
            ],
          );
        };
        address = subst IsAddress (omega arith) (cell-IsAddress p 0 ok (omega arith));
        not_live = λ l. elim l.0 [
          | IsUsed.in_page q i k b z ↦ apart.1 (
              subst (λ y. In y a.pages)
                (sym (
                  cell_page p 0 q k ok.aligned (h.each_page q i).aligned (omega arith) b
                    (omega arith)))
                i)
          | IsUsed.in_current k b z ↦ apart.0 (
              cell_page p 0 a.current k ok.aligned h.current_page.aligned (omega arith)
                (omega arith) (omega arith))
        ];
        live = λ x. (
          λ l. elim (page-IsUsed (p, ps) x full l.0) [ inl q ↦ inl q | inr q ↦ inr (q, l.1) ],
          λ o. elim o [
            | inl q ↦ (IsUsed.in_current 0 (omega arith) (omega arith), new x)
            | inr l ↦ (IsUsed-page (p, ps) x h.bound l.0, l.1)
          ],
        );
        stored = store_self a.cells p (new_cell v);
        others = λ x ne. store_other a.cells p x (new_cell v) ne;
      }
