-- ===== src/IdentTable/Laws.antt =====
-- src/id_table.rs: identifiers and names correspond.
use Prim.Native.String.{String}
use text.Mathlib.Text.{◌==◌ as ◌=text=◌}
use text.Mathlib.TextEquality.{eq_iff}
use text.Mathlib.TextPositions.{eq_refl}
use ruruby.Prelude.{
  ℕ, ◌+◌, ◌^◌, ◌≤◌, Bool, true, ltb, lt→ltb, ◌<◌, ◌≡◌, ◌≢◌, ◌↔◌, refl, sym, ◌∙◌, ap, subst, false,
  [], ◌∷◌, ◌++◌, none, some, arith, ◌==◌, if◌then◌else◌, Bool-cases, Option-cases, inl, inr, eq→==,
  ne→==,
}
use ruruby.IdentTable.{
  Table, IdentifierTable, get, insert, next_id, get_ident_id, find_id, get_name, new,
}

-- No key and no identifier occurs twice.
abbrev pub IsOneToOne : Table → Type 0
IsOneToOne [] = Unit
IsOneToOne ((key, id) ∷ rest) = (get rest key ≡ none) × (find_id rest id ≡ none) × IsOneToOne rest

abbrev pub IsBelow : ℕ → Table → Type 0
IsBelow n [] = Unit
IsBelow n ((key, id) ∷ rest) = (id < n) × IsBelow n rest

pub record IsValid (t : IdentifierTable) : Type 0 where
  pub one_to_one : IsOneToOne t.table
  pub below : IsBelow t.ident_id t.table

IsBelow-suc : (n : ℕ) (t : Table) → IsBelow n t → IsBelow (n + 1) t
IsBelow-suc n [] b = tt
IsBelow-suc n ((key, id) ∷ rest) b = (omega (arith, b.0), IsBelow-suc n rest b.1)

find_id_fresh : (n : ℕ) (t : Table) → IsBelow n t → find_id t n ≡ none
unfolding find_id
find_id_fresh n [] b = refl
find_id_fresh n ((key, id) ∷ rest) b =
    rw (ne→== id n (omega (arith, b.0))) (find_id_fresh n rest b.1)

-- The key of the first entry is not the one looked for.
get_ne :
    (key name : String) (id : ℕ) (rest : Table)
    → get ((key, id) ∷ rest) name ≡ none
    → ((key =text= name) ≡ false) × (get rest name ≡ none)
unfolding get
get_ne key name id rest e = elim (Bool-cases (key =text= name)) [
  | inl t ↦ cc (subst (λ b. (if b then some id else get rest name) ≡ none) t e)
  | inr t ↦ (t, subst (λ b. (if b then some id else get rest name) ≡ none) t e)
]

-- A name that is not there is added at the end.
insert_absent :
    (t : Table) (name : String) (id : ℕ)
    → get t name ≡ none
    → insert t name id ≡ t ++ (name, id) ∷ []
unfolding insert
insert_absent [] name id e = refl
insert_absent ((key, old) ∷ rest) name id e =
    let n = get_ne key name old rest e in rw (n.0, insert_absent rest name id n.1) refl

-- An entry that is found stays found.
get-append :
    (t u : Table) (name : String) (id : ℕ) → get t name ≡ some id → get (t ++ u) name ≡ some id
unfolding get
get-append [] u name id e = cc e
get-append ((key, v) ∷ rest) u name id e = elim (Bool-cases (key =text= name)) [
  | inl t ↦ rw t (subst (λ b. (if b then some v else get rest name) ≡ some id) t e)
  | inr t ↦
      rw t (
        get-append rest u name id
          (subst (λ b. (if b then some v else get rest name) ≡ some id) t e))
]

find_id-append :
    (t u : Table) (id : ℕ) (name : String)
    → find_id t id ≡ some name
    → find_id (t ++ u) id ≡ some name
unfolding find_id
find_id-append [] u id name e = cc e
find_id-append ((key, v) ∷ rest) u id name e = elim (Bool-cases (v == id)) [
  | inl t ↦ rw t (subst (λ b. (if b then some key else find_id rest id) ≡ some name) t e)
  | inr t ↦ rw t (
      find_id-append rest u id name
        (subst (λ b. (if b then some key else find_id rest id) ≡ some name) t e))
]

get-append_absent :
    (t u : Table) (name : String) → get t name ≡ none → get (t ++ u) name ≡ get u name
unfolding get
get-append_absent [] u name e = refl
get-append_absent ((key, v) ∷ rest) u name e =
    let n = get_ne key name v rest e in rw n.0 (get-append_absent rest u name n.1)

find_id-append_fresh : (t u : Table) (n : ℕ) → IsBelow n t → find_id (t ++ u) n ≡ find_id u n
unfolding find_id
find_id-append_fresh [] u n b = refl
find_id-append_fresh ((key, v) ∷ rest) u n b =
    rw (ne→== v n (omega (arith, b.0))) (find_id-append_fresh rest u n b.1)

-- What is found by its name is found by its identifier.
find_id_of_get :
    (t : Table) (name : String) (id : ℕ)
    → IsOneToOne t
    → get t name ≡ some id
    → find_id t id ≡ some name
unfolding get find_id
find_id_of_get [] name id o e = cc e
find_id_of_get ((key, v) ∷ rest) name id o e = elim (Bool-cases (key =text= name)) [
  | inl t ↦
      let same : some v ≡ some id =
        subst (λ b. (if b then some v else get rest name) ≡ some id) t e in
      let here : v ≡ id = cc same in rw (eq→== v id here) (ap some ((eq_iff key name).0 t))
  | inr t ↦
      let later : get rest name ≡ some id =
        subst (λ b. (if b then some v else get rest name) ≡ some id) t e in
      let found = find_id_of_get rest name id o.2 later in
      let ne : v ≢ id = λ q. cc (o.1, found, q) in rw (ne→== v id ne) found
]

IsBelow-append :
    (n : ℕ) (t : Table) (name : String) → IsBelow n t → IsBelow (n + 1) (t ++ (name, n) ∷ [])
IsBelow-append n [] name b = (omega arith, tt)
IsBelow-append n ((key, id) ∷ rest) name b = (omega (arith, b.0), IsBelow-append n rest name b.1)

find_id-append_fresh_single :
    (t : Table) (n id : ℕ) (name : String)
    → find_id t id ≡ none
    → id < n
    → find_id (t ++ (name, n) ∷ []) id ≡ none
unfolding find_id
find_id-append_fresh_single [] n id name e b = rw (ne→== n id (omega arith)) refl
find_id-append_fresh_single ((key, v) ∷ rest) n id name e b = elim (Bool-cases (v == id)) [
  | inl t ↦ cc (subst (λ b. (if b then some key else find_id rest id) ≡ none) t e)
  | inr t ↦ rw t (
      find_id-append_fresh_single rest n id name
        (subst (λ b. (if b then some key else find_id rest id) ≡ none) t e) b)
]

get_other :
    (n : ℕ) (name key : String) → (key =text= name) ≡ false → get ((name, n) ∷ []) key ≡ none
unfolding get
get_other n name key f = elim (Bool-cases (name =text= key)) [
  | inl t ↦ let same : key ≡ name = sym ((eq_iff name key).0 t) in cc (f, (eq_iff key name).1 same)
  | inr t ↦ rw t refl
]

IsOneToOne-append :
    (n : ℕ) (t : Table) (name : String)
    → IsBelow n t
    → get t name ≡ none
    → IsOneToOne t
    → IsOneToOne (t ++ (name, n) ∷ [])
IsOneToOne-append n [] name b e o = unfold get find_id in (refl, refl, tt)
IsOneToOne-append n ((key, id) ∷ rest) name b e o =
    let ne = get_ne key name id rest e in
    (
      get-append_absent rest ((name, n) ∷ []) key o.0 ∙ get_other n name key ne.0,
      find_id-append_fresh_single rest n id name o.1 (omega (arith, b.0)),
      IsOneToOne-append n rest name b.1 ne.1 o.2,
    )

found_last : (n : ℕ) (name : String) → find_id ((name, n) ∷ []) n ≡ some name
unfolding find_id
found_last n name = rw (eq→== n n refl) refl

get_last : (n : ℕ) (name : String) → get ((name, n) ∷ []) name ≡ some n
unfolding get
get_last n name = rw (eq_refl name) refl

next_id-small : (checks : Bool) (id : ℕ) → id + 1 < 2 ^ 32 → next_id checks id ≡ some (id + 1)
unfolding next_id
next_id-small true id h =
    let small : ltb (id + 1) (2 ^ 32) ≡ true = lt→ltb (id + 1) (2 ^ 32) h in
    rw small (ap some (omega (arith, h)))
next_id-small false id h = ap some (omega (arith, h))

-- A table that has a new name.
abbrev added : String → IdentifierTable → IdentifierTable
added name t = record t { table = t.table ++ (name, t.ident_id) ∷ []; ident_id = t.ident_id + 1 }

new_ident_id :
    (checks : Bool) (name : String) (t : IdentifierTable)
    → get t.table name ≡ none
    → t.ident_id + 1 < 2 ^ 32
    → get_ident_id checks name t ≡ some (t.ident_id, added name t)
unfolding get_ident_id
new_ident_id checks name t e small =
    rw
      (
        e,
        next_id-small checks t.ident_id small,
        insert_absent t.table name t.ident_id e,
        get_ident_id,
      )
      refl

found_ident_id :
    (checks : Bool) (name : String) (t : IdentifierTable) (id : ℕ)
    → get t.table name ≡ some id
    → get_ident_id checks name t ≡ some (id, t)
unfolding get_ident_id
found_ident_id checks name t id e = rw (e, get_ident_id) refl

-- What `get_ident_id` does to a table.
pub record Identified (name : String) (t : IdentifierTable) (id : ℕ) (t' : IdentifierTable)
    : Type 0 where
  pub valid : IsValid t'
  pub named : get_name t' id ≡ some name
  pub known : get t'.table name ≡ some id
  pub kept : (i : ℕ) (old : String) → get_name t i ≡ some old → get_name t' i ≡ some old
  pub one_more : t'.ident_id ≤ t.ident_id + 1

-- In a valid table whose next identifier is no more than 2 ^ 32 - 2, `get_ident_id` answers an identifier
-- whose name is the one given, whether it was there or is new, and does not panic. The table stays
-- one-to-one, with all identifiers below the next one, which grows by no more than 1; the name is found in
-- it; and no identifier changes its name.
pub get_ident_id_lem :
    (checks : Bool) (name : String) (t : IdentifierTable)
    → IsValid t
    → t.ident_id + 1 < 2 ^ 32
    → (id : ℕ) × (t' : IdentifierTable) × (get_ident_id checks name t ≡ some (id, t'))
      × Identified name t id t'
unfolding get_name
get_ident_id_lem checks name t v small = elim (Option-cases (get t.table name)) [
  | inl e ↦ (
    t.ident_id,
    added name t,
    new_ident_id checks name t e small,
    record {
      valid = record {
        one_to_one = IsOneToOne-append t.ident_id t.table name v.below e v.one_to_one;
        below = IsBelow-append t.ident_id t.table name v.below;
      };
      named = find_id-append_fresh t.table _ t.ident_id v.below ∙ found_last t.ident_id name;
      known = get-append_absent t.table _ name e ∙ get_last t.ident_id name;
      kept = λ i old h. find_id-append t.table _ i old h;
      one_more = omega arith;
    },
  )
  | inr (id, e) ↦ (
    id,
    t,
    found_ident_id checks name t id e,
    record {
      valid = v;
      named = find_id_of_get t.table name id v.one_to_one e;
      known = e;
      kept = λ i old h. h;
      one_more = omega arith;
    },
  )
]

-- In a valid table whose next identifier is no more than 2 ^ 32 - 3, two names that are asked for one after
-- the other are both answered, and have the same identifier just if they are the same name.
pub get_ident_id-injective :
    (checks : Bool) (a b : String) (t : IdentifierTable)
    → IsValid t
    → t.ident_id + 2 < 2 ^ 32
    → (i : ℕ) × (t' : IdentifierTable) × (j : ℕ) × (t'' : IdentifierTable) × (get_ident_id checks a
          t
        ≡ some (i, t'))
      × (get_ident_id checks b t' ≡ some (j, t''))
      × ((i ≡ j) ↔ (a ≡ b))
unfolding get_name
get_ident_id-injective checks a b t v small =
    let r = get_ident_id_lem checks a t v (omega arith) in
    let q = get_ident_id_lem checks b r.1 r.3.valid (omega (arith, r.3.one_more)) in
    let old = q.3.kept r.0 a r.3.named in
    let new = q.3.named in
    (
      r.0,
      r.1,
      q.0,
      q.1,
      r.2,
      q.2,
      (
        λ e. cc (new, old, e),
        λ e.
            let again : get_ident_id checks b r.1 ≡ some (r.0, r.1) =
              found_ident_id checks b r.1 r.0 (rw (sym e) r.3.known) in
            let answer = q.2 in cc (again, answer),
      ),
    )

pub new-IsValid : IsValid new
unfolding new get find_id
new-IsValid = record { one_to_one = ground arith; below = ground arith }
