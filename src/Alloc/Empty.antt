-- ===== src/Alloc/Empty.antt =====
-- src/alloc.rs: which pages `dealloc_empty_pages` gives up.
use ruruby.Prelude.{
  ℕ, zero, suc, ◌≡◌, ◌≢◌, ◌==◌, ==→ne, arith, get_elem?, some, ◌↔◌, ◌⊎◌, inl, inr, refl, ◌∙◌, ap,
  true, false, List, [], ◌∷◌, Bool-cases,
}
use ruruby.Alloc.{Allocator, Memory}
use ruruby.Alloc.Sweep.{all_dead, visit_page, dealloc_pages, dealloc_empty_pages}
use ruruby.Alloc.Links.{In}

module _ (marks : ℕ → List ℕ) (m : Memory) (free_pages : List ℕ) where
  abbrev kept : List ℕ → List ℕ
  kept ps = (dealloc_pages marks ps free_pages m).0

  abbrev freed : List ℕ → List ℕ
  freed ps = (dealloc_pages marks ps free_pages m).1

  step_dead :
      (p : ℕ) (ps : List ℕ)
      → all_dead (marks p) ≡ true
      → (kept (p ∷ ps) ≡ kept ps) × (freed (p ∷ ps) ≡ p ∷ freed ps)
  unfolding dealloc_pages visit_page
  step_dead p ps t =
      let r = dealloc_pages marks ps free_pages m in
      (ap (λ b. (visit_page b p r).0) t, ap (λ b. (visit_page b p r).1) t)

  step_live :
      (p : ℕ) (ps : List ℕ)
      → all_dead (marks p) ≡ false
      → (kept (p ∷ ps) ≡ p ∷ kept ps) × (freed (p ∷ ps) ≡ freed ps)
  unfolding dealloc_pages visit_page
  step_live p ps t =
      let r = dealloc_pages marks ps free_pages m in
      (ap (λ b. (visit_page b p r).0) t, ap (λ b. (visit_page b p r).1) t)

  In-kept : (ps : List ℕ) (x : ℕ) → In x (kept ps) ↔ (In x ps × (all_dead (marks x) ≡ false))
  In-kept [] x = unfold dealloc_pages in (λ i. absurd i, λ i. absurd i.0)
  In-kept (p ∷ ps) x =
      let rest = In-kept ps x in
      elim (Bool-cases (all_dead (marks p))) [
        | inl t ↦ rw ((step_dead p ps t).0) (
          λ i. let r = rest.0 i in (inr r.0, r.1),
          λ i. elim i.0 [
            | inl e ↦ cc (t, i.1, ap (λ q. all_dead (marks q)) e)
            | inr j ↦ rest.1 (j, i.1)
          ],
        )
        | inr t ↦ rw ((step_live p ps t).0) (
          λ i. elim i [
            | inl e ↦ (inl e, ap (λ q. all_dead (marks q)) e ∙ t)
            | inr j ↦ let r = rest.0 j in (inr r.0, r.1)
          ],
          λ i. elim i.0 [ inl e ↦ inl e | inr j ↦ inr (rest.1 (j, i.1)) ],
        )
      ]

  In-freed :
      (ps : List ℕ) (x : ℕ)
      → In x (freed ps) ↔ ((In x ps × (all_dead (marks x) ≡ true)) ⊎ In x free_pages)
  In-freed [] x =
      unfold dealloc_pages in (λ i. inr i, λ i. elim i [ inl e ↦ absurd e.0 | inr j ↦ j ])
  In-freed (p ∷ ps) x =
      let rest = In-freed ps x in
      elim (Bool-cases (all_dead (marks p))) [
        | inl t ↦ rw ((step_dead p ps t).1) (
          λ i. elim i [
            | inl e ↦ inl (inl e, ap (λ q. all_dead (marks q)) e ∙ t)
            | inr j ↦ elim (rest.0 j) [ inl r ↦ inl (inr r.0, r.1) | inr r ↦ inr r ]
          ],
          λ i. elim i [
            | inl r ↦ elim r.0 [ inl e ↦ inl e | inr j ↦ inr (rest.1 (inl (j, r.1))) ]
            | inr j ↦ inr (rest.1 (inr j))
          ],
        )
        | inr t ↦ rw ((step_live p ps t).1) (
          λ i. elim (rest.0 i) [ inl r ↦ inl (inr r.0, r.1) | inr r ↦ inr r ],
          λ i. elim i [
            | inl r ↦ elim r.0 [
              | inl e ↦ cc (t, r.1, ap (λ q. all_dead (marks q)) e)
              | inr j ↦ rest.1 (inl (j, r.1))
            ]
            | inr j ↦ rest.1 (inr j)
          ],
        )
      ]

-- A word of the bitmap has a mark.
abbrev pub HasMark : List ℕ → Type 0
HasMark words = (k : ℕ) × (w : ℕ) × (get_elem? words k ≡ some w) × (w ≢ 0)

all_dead-HasMark : (words : List ℕ) → all_dead words ≡ true → ¬ HasMark words
unfolding all_dead
all_dead-HasMark [] h (k, w, at, ne) = cc at
all_dead-HasMark (b ∷ rest) h (zero, w, at, ne) = ground arith
all_dead-HasMark (b ∷ rest) h (suc k, w, at, ne) = elim (Bool-cases (b == 0)) [
  | inl t ↦ all_dead-HasMark rest (rw t at h) (k, w, at, ne)
  | inr t ↦ cc (rw t at h)
]

live-HasMark : (words : List ℕ) → all_dead words ≡ false → HasMark words
unfolding all_dead
live-HasMark [] h = cc h
live-HasMark (b ∷ rest) h = elim (Bool-cases (b == 0)) [
  | inl t ↦ let r = live-HasMark rest (rw t at h) in (suc r.0, r.1, r.2, r.3)
  | inr t ↦ (0, b, refl, ==→ne b 0 t)
]

HasMark-iff :
    (words : List ℕ)
    → ((all_dead words ≡ false) ↔ HasMark words) × ((all_dead words ≡ true) ↔ (¬ HasMark words))
HasMark-iff words = elim (Bool-cases (all_dead words)) [
  | inl t ↦ (
    (λ h. cc (t, h), λ h. absurd (all_dead-HasMark words t h)),
    (λ h. all_dead-HasMark words h, λ n. t),
  )
  | inr t ↦ (
    (λ h. live-HasMark words h, λ h. t),
    (λ h. cc (t, h), λ n. absurd (n (live-HasMark words t))),
  )
]

-- `dealloc_empty_pages` keeps the pages whose bitmap has a mark, a word that is not 0, and adds those
-- without one to the free pages; no page is lost and none is made up. The current page stays.
pub dealloc_empty_pages_lem :
    (a : Allocator) (x : ℕ)
    → (In x (dealloc_empty_pages a).pages ↔ (In x a.pages × HasMark (a.marks x)))
      × (In x (dealloc_empty_pages a).free_pages
          ↔ ((In x a.pages × (¬ HasMark (a.marks x))) ⊎ In x a.free_pages))
      × ((dealloc_empty_pages a).current ≡ a.current)
unfolding dealloc_empty_pages
dealloc_empty_pages_lem a x =
    let k = In-kept a.marks a.cells a.free_pages a.pages x in
    let f = In-freed a.marks a.cells a.free_pages a.pages x in
    let m = HasMark-iff (a.marks x) in
    (
      (λ i. let r = k.0 i in (r.0, m.0.0 (r.1)), λ i. k.1 (i.0, m.0.1 (i.1))),
      (
        λ i. elim (f.0 i) [ inl r ↦ inl (r.0, m.1.0 (r.1)) | inr r ↦ inr r ],
        λ i. f.1 (elim i [ inl r ↦ inl (r.0, m.1.1 (r.1)) | inr r ↦ inr r ]),
      ),
      refl,
    )
