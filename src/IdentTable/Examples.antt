-- ===== src/IdentTable/Examples.antt =====
-- src/id_table.rs at concrete names.
use Prim.Native.String.{String}
use ruruby.Prelude.{◌≡◌, ◌↔◌, arith, refl, some, none, true, false, Option, ℕ}
use ruruby.IdentTable.{IdentifierTable, new, get_ident_id, next_id}
use ruruby.IdentTable.Laws.{Identified, new-IsValid, get_ident_id_lem, get_ident_id-injective}

get_ident_id_lem_example :
    (id : ℕ) × (t' : IdentifierTable) × (get_ident_id true "foo" new ≡ some (id, t'))
    × Identified "foo" new id t'
get_ident_id_lem_example = get_ident_id_lem true "foo" new new-IsValid (unfold new in omega arith)

abbrev plus : String
plus = "+"

get_ident_id-injective_example :
    (i : ℕ) × (t' : IdentifierTable) × (j : ℕ) × (t'' : IdentifierTable) × (get_ident_id true "+"
        new
      ≡ some (i, t'))
    × (get_ident_id true "foo" t' ≡ some (j, t''))
    × ((i ≡ j) ↔ (plus ≡ "foo"))
get_ident_id-injective_example =
    get_ident_id-injective true plus "foo" new new-IsValid (unfold new in omega arith)

id_of : Option (ℕ × IdentifierTable) → Option ℕ
id_of none = none
id_of (some (id, t)) = some id

known : id_of (get_ident_id true "method_missing" new) ≡ some 26
unfolding get_ident_id new id_of
known = refl

fresh : id_of (get_ident_id true "foo" new) ≡ some 40
unfolding get_ident_id new id_of
fresh = refl

-- The last `u32`.
last : next_id true 0xffffffff ≡ none
unfolding next_id
last = refl

wrapped : next_id false 0xffffffff ≡ some 0
unfolding next_id
wrapped = refl
