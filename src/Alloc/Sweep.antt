-- ===== src/Alloc/Sweep.antt =====
-- src/alloc.rs: `sweep_bits`, `sweep` and `dealloc_empty_pages`.
use Prim.Native.Nat.{bit_and}
use ruruby.Prelude.{
  ℕ, zero, suc, ◌+◌, ◌-◌, ◌*◌, ◌/◌, ◌%◌, ◌^◌, Bool, true, false, ◌&&◌, List, [], ◌∷◌, Option, none,
  some, ltb, ◌==◌, if◌then◌else◌, get_elem?, take,
}
use ruruby.Alloc.{
  Allocator, Memory, store, free_rvalue, get_data_ptr, gcbox_size, bitmap_len, data_len,
}

-- The cells with the free list under construction: `anchor` is `anchor.next`, and `head` is the cell
-- behind which the next one goes, `none` for the anchor itself.
pub record Links : Type 0 where
  pub cells : Memory
  pub anchor : Option ℕ
  pub head : Option ℕ
  pub c : ℕ

-- `(**head).next = Some(ptr)`.
abbrev pub set_next : ℕ → Links → Links
set_next ptr l = elim l.head [
  | none ↦ record l { anchor = some ptr }
  | some h ↦ record l { cells = store l.cells h (record (l.cells h) { next = some ptr }) }
]

-- The four statements for a dead cell.
unfoldable pub link : ℕ → Links → Links
unfolding free_rvalue
link ptr l =
    let l1 = set_next ptr l in
    record l1 {
      head = some ptr;
      cells = store l1.cells ptr (record { inner = free_rvalue (l1.cells ptr).inner; next = none });
      c = l1.c + 1;
    }

-- The number of ones at the low end of a word of `n` bits.
unfoldable pub trailing_ones : ℕ → ℕ → ℕ
trailing_ones zero map = 0
trailing_ones (suc n) map = if map % 2 == 1 then suc (trailing_ones n (map / 2)) else 0

-- The loop `for _ in min..bit`, of `n` rounds.
unfoldable pub sweep_loop : ℕ → ℕ → ℕ → Links → ℕ × Links
unfolding link
sweep_loop zero map ptr l = (ptr, l)
sweep_loop (suc n) map ptr l =
    sweep_loop n (map / 2) (ptr + gcbox_size) (if bit_and map 1 == 0 then link ptr l else l)

-- `Allocator::sweep_bits`: the pointer behind the word, and the links with the dead cells added.
unfoldable pub sweep_bits : ℕ → ℕ → ℕ → Links → ℕ × Links
unfolding sweep_loop trailing_ones
sweep_bits bit map ptr l =
    let min = trailing_ones 64 map in
    let map' = if ltb min 64 then map / 2 ^ min else 0 in
    sweep_loop (bit - min) map' (ptr + min * gcbox_size) l

-- A loop over whole words.
unfoldable pub sweep_words : List ℕ → ℕ → Links → ℕ × Links
unfolding sweep_bits
sweep_words [] ptr l = (ptr, l)
sweep_words (map ∷ maps) ptr l = let r = sweep_bits 64 map ptr l in sweep_words maps r.0 r.1

unfoldable pub sweep_pages : (ℕ → List ℕ) → List ℕ → Links → Links
unfolding sweep_words get_data_ptr
sweep_pages marks [] l = l
sweep_pages marks (p ∷ ps) l = sweep_pages marks ps (sweep_words (marks p) (get_data_ptr p 0) l).1

-- The current page: its first `used / 64` words, and `used % 64` bits of the one after. A bitmap
-- without that word would panic; `used < data_len` rules it out.
unfoldable pub sweep_current : List ℕ → ℕ → ℕ → Links → Links
unfolding sweep_words sweep_bits
sweep_current bitmap used ptr l =
    let i = used / 64 in
    let r = sweep_words (take i bitmap) ptr l in
    if ltb i bitmap_len
    then elim (get_elem? bitmap i) [
      | none ↦ r.1
      | some map ↦ (sweep_bits (used % 64) map r.0 r.1).1
    ]
    else r.1

abbrev pub no_links : Memory → Links
no_links m = record { cells = m; anchor = none; head = none; c = 0 }

-- The assertion that `used_in_current` is at most `DATA_LEN` is left out.
unfoldable pub sweep : Allocator → Allocator
unfolding sweep_pages sweep_current
sweep a =
    let l = sweep_pages a.marks a.pages (no_links a.cells) in
    let l' = sweep_current (a.marks a.current) a.used_in_current (get_data_ptr a.current 0) l in
    record a { cells = l'.cells; free = l'.anchor; free_list_count = l'.c }

-- `PageRef::all_dead` and `PageRef::free_page`.
unfoldable pub all_dead : List ℕ → Bool
all_dead [] = true
all_dead (bits ∷ rest) = bits == 0 && all_dead rest

unfoldable pub free_cells : ℕ → ℕ → Memory → Memory
unfolding free_rvalue
free_cells zero ptr m = m
free_cells (suc n) ptr m =
    free_cells n (ptr + gcbox_size)
      (store m ptr (record { inner = free_rvalue (m ptr).inner; next = (m ptr).next }))

unfoldable pub free_page : ℕ → Memory → Memory
unfolding free_cells get_data_ptr
free_page page m = free_cells data_len (get_data_ptr page 0) m

-- `dealloc_empty_pages` walks the pages from the last to the first. The pages that are kept, the
-- dead ones on top of `free_pages`, and the cells; `dead` is whether the page `p` has no mark.
unfoldable pub visit_page : Bool → ℕ → List ℕ × List ℕ × Memory → List ℕ × List ℕ × Memory
unfolding free_page
visit_page true p r = (r.0, p ∷ r.1, free_page p r.2)
visit_page false p r = (p ∷ r.0, r.1, r.2)

unfoldable pub dealloc_pages : (ℕ → List ℕ) → List ℕ → List ℕ → Memory → List ℕ × List ℕ × Memory
unfolding all_dead visit_page
dealloc_pages marks [] free_pages m = ([], free_pages, m)
dealloc_pages marks (p ∷ ps) free_pages m =
    visit_page (all_dead (marks p)) p (dealloc_pages marks ps free_pages m)

unfoldable pub dealloc_empty_pages : Allocator → Allocator
unfolding dealloc_pages
dealloc_empty_pages a =
    let (kept, freed, m) = dealloc_pages a.marks a.pages a.free_pages a.cells in
    record a { pages = kept; free_pages = freed; cells = m }
