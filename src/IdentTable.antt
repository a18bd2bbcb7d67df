-- ===== src/IdentTable.antt =====
-- src/id_table.rs: the table of identifiers. The hash map is an association list whose keys are
-- different; its order stands for the unspecified one of the map. An `IdentId` is its number.
pub mod Laws
mod Examples
use Prim.Native.String.{String}
use text.Mathlib.Text.{starts_with}
use text.Mathlib.Text.{◌==◌ as ◌=text=◌}
use ruruby.Prelude.{
  ℕ, ◌+◌, ◌%◌, ◌^◌, ◌&&◌, not, ltb, Bool, List, [], ◌∷◌, Option, none, some, ◌==◌, if◌then◌else◌,
}

abbrev pub Table : Type 0
Table = List (String × ℕ)

-- `ident_id` is a `u32`.
pub record IdentifierTable : Type 0 where
  pub table : Table
  pub ident_id : ℕ

-- `HashMap::get`, and `HashMap::insert`, which replaces the value of a key that is there.
unfoldable pub get : Table → String → Option ℕ
get [] name = none
get ((key, id) ∷ rest) name = if key =text= name then some id else get rest name

unfoldable pub insert : Table → String → ℕ → Table
insert [] name id = (name, id) ∷ []
insert ((key, old) ∷ rest) name id =
    if key =text= name then (key, id) ∷ rest else (key, old) ∷ insert rest name id

unfoldable pub set_ident_id : String → ℕ → IdentifierTable → IdentifierTable
unfolding insert
set_ident_id name id t = record t { table = insert t.table name id }

-- `self.ident_id += 1` on `u32`: where it overflows, a build that checks overflow panics, and another one
-- wraps around.
unfoldable pub next_id : Bool → ℕ → Option ℕ
next_id overflow_checks id =
    if overflow_checks && not (ltb (id + 1) (2 ^ 32)) then none else some ((id + 1) % 2 ^ 32)

-- The identifier of a name, and the table afterwards; `none` is the panic.
unfoldable pub get_ident_id : Bool → String → IdentifierTable → Option (ℕ × IdentifierTable)
unfolding get insert next_id
get_ident_id overflow_checks name t = elim (get t.table name) [
  | some id ↦ some (id, t)
  | none ↦
      let id = t.ident_id in
      elim (next_id overflow_checks id) [
        | none ↦ none
        | some next ↦ some (id, record t { table = insert t.table name id; ident_id = next })
      ]
]

-- `find(|(_, v)| **v == id)`; `none` is the panic of `unwrap`.
unfoldable pub find_id : Table → ℕ → Option String
find_id [] id = none
find_id ((key, v) ∷ rest) id = if v == id then some key else find_id rest id

unfoldable pub get_name : IdentifierTable → ℕ → Option String
unfolding find_id
get_name t id = find_id t.table id

-- `IdentifierTable::starts_with`.
unfoldable pub starts_with_id : IdentifierTable → ℕ → String → Option Bool
unfolding get_name
starts_with_id t id pat = elim (get_name t id) [
  | none ↦ none
  | some name ↦ some (starts_with name pat)
]

-- The constants of `IdentId`, in order from 0, and `IdentifierTable::new`.
abbrev pub reserved : List String
reserved =
    "<null>" ∷ "initialize" ∷ "Object" ∷ "new" ∷ "name" ∷ "+" ∷ "-" ∷ "*" ∷ "**" ∷ "<<" ∷ "%" ∷ "=="
    ∷ "!=" ∷ ">" ∷ ">=" ∷ "/" ∷ "<" ∷ "<=" ∷ "<=>" ∷ "===" ∷ "/enum" ∷ "[]" ∷ "[]=" ∷ "to_s" ∷ ">>"
    ∷ "/alias_method" ∷ "method_missing" ∷ "each" ∷ "map" ∷ []

unfoldable pub set_all : List String → ℕ → IdentifierTable → IdentifierTable
unfolding set_ident_id
set_all [] id t = t
set_all (name ∷ names) id t = set_all names (id + 1) (set_ident_id name id t)

unfoldable pub new : IdentifierTable
unfolding set_all
new = set_all reserved 0 (record { table = []; ident_id = 40 })
