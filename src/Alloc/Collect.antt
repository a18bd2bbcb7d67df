-- ===== src/Alloc/Collect.antt =====
-- src/alloc.rs: what `sweep` leaves behind.
use ruruby.Prelude.{
  ℕ, ◌*◌, ◌/◌, ◌%◌, ◌^◌, ◌≤◌, ◌≡◌, ◌↔◌, inl, inr, refl, Bool, List, [], ◌∷◌, ◌++◌, arith, length,
  ◌∙◌, sym, subst,
}
use ruruby.Alloc.{Allocator, data_len, free_rvalue, get_data_ptr}
use ruruby.Alloc.Sweep.{Links, sweep, sweep_pages, sweep_current, no_links}
use ruruby.Alloc.Dead.{
  dead_words, dead_pages, dead_current, link_all, link_all-append, sweep_pages-dead,
  sweep_current-dead,
}
use ruruby.Alloc.Links.{
  In, Distinct, Chain, Chain-link_all, count_link_all, freed_cells, keep_cells,
}
use ruruby.Alloc.DeadBits.{IsDead, In-append, Distinct-append}
use ruruby.Alloc.Members.{
  In-dead_words, In-dead_current, Distinct-dead_words, Distinct-dead_current, bitmap_bit,
}

-- The pages of the heap: aligned to their size, all different, each with its bitmap.
pub record IsPage (a : Allocator) (p : ℕ) : Type 0 where
  pub aligned : p % 2 ^ 18 ≡ 0
  pub bitmap : length (a.marks p) ≡ 63

pub record IsLaidOut (a : Allocator) : Type 0 where
  pub current_page : IsPage a a.current
  pub each_page : (p : ℕ) → In p a.pages → IsPage a p
  pub distinct : Distinct (a.current ∷ a.pages)
  pub used : a.used_in_current ≤ data_len

-- A cell that was handed out and is not marked.
pub data Garbage (a : Allocator) (x : ℕ) : Type 0 where
  in_page : (p : ℕ) → In p a.pages → IsDead data_len (bitmap_bit (a.marks p)) p x → Garbage a x
  in_current : IsDead a.used_in_current (bitmap_bit (a.marks a.current)) a.current x → Garbage a x

page_of :
    {n p x : ℕ} {bits : ℕ → Bool}
    → IsDead n bits p x
    → n ≤ data_len
    → p % 2 ^ 18 ≡ 0
    → x / 2 ^ 18 ≡ p / 2 ^ 18
page_of d small al = omega (arith, d.below, d.at)

same_page :
    (p q x : ℕ)
    → p % 2 ^ 18 ≡ 0
    → q % 2 ^ 18 ≡ 0
    → x / 2 ^ 18 ≡ p / 2 ^ 18
    → x / 2 ^ 18 ≡ q / 2 ^ 18
    → p ≡ q
same_page p q x hp hq a b = omega arith

module _ (a : Allocator) (ok : IsLaidOut a) where
  -- The list that the sweep links.
  abbrev pub dead : List ℕ
  dead = dead_pages a.marks a.pages ++ dead_current (a.marks a.current) a.used_in_current a.current

  full :
      (p x : ℕ)
      → IsPage a p
      → In x (dead_words (a.marks p) p) ↔ IsDead data_len (bitmap_bit (a.marks p)) p x
  full p x page =
      let size : 64 * length (a.marks p) ≡ data_len = omega (arith, page.bitmap) in
      subst (λ n. In x (dead_words (a.marks p) p) ↔ IsDead n (bitmap_bit (a.marks p)) p x) size
        (In-dead_words (a.marks p) p x)

  current :
      (x : ℕ)
      → In x (dead_current (a.marks a.current) a.used_in_current a.current)
        ↔ IsDead a.used_in_current (bitmap_bit (a.marks a.current)) a.current x
  current x =
      In-dead_current (a.marks a.current) a.used_in_current a.current x ok.current_page.bitmap
        ok.used

  In-dead_pages :
      (ps : List ℕ) (x : ℕ)
      → ((p : ℕ) → In p ps → IsPage a p)
      → In x (dead_pages a.marks ps)
        ↔ ((p : ℕ) × In p ps × IsDead data_len (bitmap_bit (a.marks p)) p x)
  unfolding dead_pages
  In-dead_pages [] x each = (λ i. absurd i, λ d. absurd d.1)
  In-dead_pages (q ∷ ps) x each =
      let both = In-append x (dead_words (a.marks q) q) (dead_pages a.marks ps) in
      let front = full q x (each q (inl refl)) in
      let rest = In-dead_pages ps x (λ p i. each p (inr i)) in
      (
        λ i. elim (both.0 i) [
          | inl e ↦ (q, inl refl, front.0 e)
          | inr e ↦ let r = rest.0 e in (r.0, inr r.1, r.2)
        ],
        λ d. both.1 (elim d.1 [
          | inl e ↦ inl (front.1 (subst (λ p. IsDead data_len (bitmap_bit (a.marks p)) p x) e d.2))
          | inr e ↦ inr (rest.1 (d.0, e, d.2))
        ]),
      )

  Distinct-dead_pages :
      (ps : List ℕ)
      → ((p : ℕ) → In p ps → IsPage a p)
      → Distinct ps
      → Distinct (dead_pages a.marks ps)
  unfolding dead_pages
  Distinct-dead_pages [] each d = tt
  Distinct-dead_pages (q ∷ ps) each d =
      let page = each q (inl refl) in
      let later = λ (p : ℕ) (i : In p ps). each p (inr i) in
      Distinct-append (dead_words (a.marks q) q) (dead_pages a.marks ps)
        (Distinct-dead_words (a.marks q) q) (Distinct-dead_pages ps later d.1)
        λ x i j.
          let r = (In-dead_pages ps x later).0 j in
          let here = page_of ((full q x page).0 i) (omega arith) page.aligned in
          let there = page_of r.2 (omega arith) (later r.0 r.1).aligned in
          let e = same_page r.0 q x (later r.0 r.1).aligned page.aligned there here in
          d.0 (subst (λ p. In p ps) e r.1)

  Distinct-dead : Distinct dead
  Distinct-dead =
      Distinct-append (dead_pages a.marks a.pages) _
        (Distinct-dead_pages a.pages ok.each_page ok.distinct.1)
        (Distinct-dead_current (a.marks a.current) a.used_in_current a.current
          ok.current_page.bitmap)
        λ x i j.
          let r = (In-dead_pages a.pages x ok.each_page).0 i in
          let c = (current x).0 j in
          let page = ok.each_page r.0 r.1 in
          let here = page_of c ok.used ok.current_page.aligned in
          let there = page_of r.2 (omega arith) page.aligned in
          let e = same_page r.0 a.current x page.aligned ok.current_page.aligned there here in
          ok.distinct.0 (subst (λ p. In p a.pages) e r.1)

  -- The list holds exactly the garbage.
  In-dead : (x : ℕ) → In x dead ↔ Garbage a x
  In-dead x =
      let both = In-append x (dead_pages a.marks a.pages) _ in
      (
        λ i. elim (both.0 i) [
          | inl e ↦
              let r = (In-dead_pages a.pages x ok.each_page).0 e in Garbage.in_page r.0 r.1 r.2
          | inr e ↦ Garbage.in_current ((current x).0 e)
        ],
        λ g. both.1 (elim g [
          | Garbage.in_page p i d ↦ inl ((In-dead_pages a.pages x ok.each_page).1 (p, i, d))
          | Garbage.in_current d ↦ inr ((current x).1 d)
        ]),
      )

  sweep_lem :
      ◌≡◌ {A = Links}
        (sweep_current
          (a.marks a.current)
          a.used_in_current
          (get_data_ptr a.current 0)
          (sweep_pages a.marks a.pages (no_links a.cells)))
        (link_all dead (no_links a.cells))
  sweep_lem =
      let start : get_data_ptr a.current 0 ≡ a.current = unfold get_data_ptr in omega arith in
      rw (start, sweep_pages-dead a.marks a.pages (no_links a.cells))
        (sweep_current-dead (a.marks a.current) a.used_in_current a.current _ ok.current_page.bitmap
            ok.used
          ∙ sym (link_all-append (dead_pages a.marks a.pages) _ (no_links a.cells)))

  linked : Links
  linked = link_all dead (no_links a.cells)

  -- Where the pages are aligned and different and have bitmaps of 63 words, a sweep makes the free
  -- list a chain through all the garbage, each cell once, with its length as `free_list_count`.
  -- Garbage is freed, and no other cell is touched.
  pub sweep-collects :
      (xs : List ℕ) × Chain (sweep a).cells (sweep a).free xs
      × Distinct xs
      × ((x : ℕ) → In x xs ↔ Garbage a x)
      × ((sweep a).free_list_count ≡ length xs)
      × ((x : ℕ) → Garbage a x → ((sweep a).cells x).inner ≡ free_rvalue (a.cells x).inner)
      × ((x : ℕ) → (¬ Garbage a x) → (sweep a).cells x ≡ a.cells x)
  unfolding sweep linked
  sweep-collects = rw sweep_lem (
    dead,
    Chain-link_all dead (no_links a.cells) Distinct-dead (λ x e. cc) refl,
    Distinct-dead,
    In-dead,
    count_link_all dead (no_links a.cells) ∙ omega arith,
    λ x g. freed_cells dead x (no_links a.cells) Distinct-dead ((In-dead x).1 g),
    λ x n. keep_cells dead x (no_links a.cells) (λ i. n ((In-dead x).0 i)) (λ e. cc),
  )
