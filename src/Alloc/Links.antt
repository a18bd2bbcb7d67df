-- ===== src/Alloc/Links.antt =====
-- src/alloc.rs: the free list that a sweep builds through the cells' `next` fields.
use ruruby.Prelude.{
  ℕ, ◌+◌, ◌≡◌, ◌≢◌, refl, ◌⊎◌, inl, inr, List, [], ◌∷◌, Option, none, some, arith, length, ◌∙◌, ap,
  sym, subst, eq→==,
}
use ruruby.Alloc.{Memory, free_rvalue}
use ruruby.Alloc.Sweep.{Links, link}
use ruruby.Alloc.Dead.{link_all}

abbrev pub In : ℕ → List ℕ → Type 0
In x [] = ⊥
In x (y ∷ ys) = (x ≡ y) ⊎ In x ys

abbrev pub Distinct : List ℕ → Type 0
Distinct [] = Unit
Distinct (x ∷ xs) = (¬ In x xs) × Distinct xs

-- The `next` fields lead from `o` through the cells of a list, in order, and end there.
abbrev pub Chain : Memory → Option ℕ → List ℕ → Type 0
Chain m o [] = o ≡ none
Chain m o (x ∷ xs) = (o ≡ some x) × Chain m (m x).next xs

-- Where the list under construction goes on.
abbrev pub entry : Links → Option ℕ → Option ℕ
entry l none = l.anchor
entry l (some h) = (l.cells h).next

link_cell_self : (p : ℕ) (l : Links) → ((link p l).cells p).next ≡ none
unfolding link
link_cell_self p l = rw (eq→== p p refl)

entry-link : (p : ℕ) (l : Links) → l.head ≢ some p → entry (link p l) l.head ≡ some p
unfolding link
entry-link p l ne = ground arith

-- A link touches no cell but the new one and the one before it.
link_other : (p x : ℕ) (l : Links) → x ≢ p → l.head ≢ some x → (link p l).cells x ≡ l.cells x
unfolding link
link_other p x l ne nh = ground arith

link_head : (p : ℕ) (l : Links) → (link p l).head ≡ some p
unfolding link
link_head p l = refl

link_inner : (p x : ℕ) (l : Links) → x ≢ p → ((link p l).cells x).inner ≡ (l.cells x).inner
unfolding link
link_inner p x l ne = ground arith

link_freed : (p : ℕ) (l : Links) → ((link p l).cells p).inner ≡ free_rvalue (l.cells p).inner
unfolding link
link_freed p l = ground arith

link_anchor : (p h : ℕ) (l : Links) → l.head ≡ some h → (link p l).anchor ≡ l.anchor
unfolding link
link_anchor p h l e = ground arith

keep_anchor :
    (ps : List ℕ) (h : ℕ) (l : Links) → l.head ≡ some h → (link_all ps l).anchor ≡ l.anchor
unfolding link_all
keep_anchor [] h l e = refl
keep_anchor (p ∷ ps) h l e = keep_anchor ps p (link p l) (link_head p l) ∙ link_anchor p h l e

-- Cells outside the list, and not the head, are untouched.
pub keep_cells :
    (ps : List ℕ) (x : ℕ) (l : Links)
    → (¬ In x ps)
    → l.head ≢ some x
    → (link_all ps l).cells x ≡ l.cells x
unfolding link_all
keep_cells [] x l out nh = refl
keep_cells (p ∷ ps) x l out nh =
    keep_cells ps x (link p l) (λ i. out (inr i)) (λ e. out (inl (cc (link_head p l))))
    ∙ link_other p x l (λ e. out (inl e)) nh

keep_inner :
    (ps : List ℕ) (x : ℕ) (l : Links)
    → (¬ In x ps)
    → ((link_all ps l).cells x).inner ≡ (l.cells x).inner
unfolding link_all
keep_inner [] x l out = refl
keep_inner (p ∷ ps) x l out =
    keep_inner ps x (link p l) (λ i. out (inr i)) ∙ link_inner p x l (λ e. out (inl e))

-- Every cell of the list is freed.
pub freed_cells :
    (ps : List ℕ) (x : ℕ) (l : Links)
    → Distinct ps
    → In x ps
    → ((link_all ps l).cells x).inner ≡ free_rvalue (l.cells x).inner
unfolding link_all
freed_cells [] x l d i = absurd i
freed_cells (p ∷ ps) x l d (inl e) = rw e (keep_inner ps p (link p l) d.0 ∙ link_freed p l)
freed_cells (p ∷ ps) x l d (inr i) =
    freed_cells ps x (link p l) d.1 i ∙ ap free_rvalue (link_inner p x l (λ e. d.0 (rw (← e) i)))

link_c : (p : ℕ) (l : Links) → (link p l).c ≡ l.c + 1
unfolding link
link_c p l = ground arith

pub count_link_all : (ps : List ℕ) (l : Links) → (link_all ps l).c ≡ l.c + length ps
unfolding link_all
count_link_all [] l = omega arith
count_link_all (p ∷ ps) l = omega (arith, count_link_all ps (link p l), link_c p l)

keep_entry :
    (ps : List ℕ) (o : Option ℕ) (p : ℕ) (l : Links)
    → l.head ≡ some p
    → o ≢ some p
    → ((x : ℕ) → o ≡ some x → ¬ In x ps)
    → entry (link_all ps l) o ≡ entry l o
keep_entry ps none p l e ne out = keep_anchor ps p l e
keep_entry ps (some x) p l e ne out =
    ap (λ c. c.next) (keep_cells ps x l (out x refl) (λ h. ne (sym h ∙ e)))

Chain-rest :
    (ps : List ℕ) (p : ℕ) (l : Links)
    → Chain (link_all ps (link p l)).cells (entry (link_all ps (link p l)) (link p l).head) ps
    → Chain (link_all ps (link p l)).cells ((link_all ps (link p l)).cells p).next ps
Chain-rest ps p l c =
    let r = link_all ps (link p l) in subst (λ h. Chain r.cells (entry r h) ps) (link_head p l) c

entry-link_self : (p : ℕ) (l : Links) → entry (link p l) (link p l).head ≡ none
entry-link_self p l = rw (link_head p l) (link_cell_self p l)

-- The free list leads through all the linked cells, in the order in which they were linked.
pub Chain-link_all :
    (ps : List ℕ) (l : Links)
    → Distinct ps
    → ((x : ℕ) → l.head ≡ some x → ¬ In x ps)
    → entry l l.head ≡ none
    → Chain (link_all ps l).cells (entry (link_all ps l) l.head) ps
unfolding link_all
Chain-link_all [] l d out e = e
Chain-link_all (p ∷ ps) l d out e =
    let ne : l.head ≢ some p = λ h. out p h (inl refl) in
    (
      keep_entry ps l.head p (link p l) (link_head p l) ne (λ x h i. out x h (inr i))
          ∙ entry-link p l ne,
      Chain-rest ps p l (
          Chain-link_all ps (link p l) d.1 (λ x h i. d.0 (subst (λ y. In y ps) (same x h) i))
            (entry-link_self p l)),
    )
  where
    same : (x : ℕ) → (link p l).head ≡ some x → x ≡ p
    same x h = cc (link_head p l)
