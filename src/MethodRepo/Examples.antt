-- ===== src/MethodRepo/Examples.antt =====
-- src/vm/method.rs with one call site, of the method 7, and a class 1 that has it.
use ruruby.Prelude.{
  ℕ, zero, suc, ◌≡◌, refl, false, [], ◌∷◌, Option, none, some, arith, get_elem?, ◌==◌,
  if◌then◌else◌,
}
use ruruby.MethodRepo.{
  MethodRepo, Class, Walk, get_method_of, inc_class_version, find_method, find_method_inline_cache,
}
use ruruby.MethodRepo.Coherence.{
  IsCoherent, Finds, find_method_lem, find_method_inline_cache_lem, inc_class_version-IsCoherent,
}

abbrev methods : ℕ → ℕ → Option ℕ
methods c name = if c == 1 then (if name == 7 then some 100 else none) else none

abbrev redefined : ℕ → ℕ → Option ℕ
redefined c name = if c == 1 then some 200 else none

abbrev site : ℕ → ℕ
site id = 7

abbrev repo : MethodRepo
repo = record { class_version = 0; i_cache = none ∷ []; i_cache_id = 1; m_cache = λ c name. none }

no_entry :
    (A : Type 0) (x : A) (id : ℕ) → get_elem? {A = Option A} (none ∷ []) id ≡ some (some x) → ⊥
no_entry A x zero e = cc e
no_entry A x (suc id) e = cc e

repo-IsCoherent : IsCoherent methods site repo
repo-IsCoherent = record {
  global = λ c name e h. cc h;
  inline = λ id e h. absurd (no_entry _ e id h);
}

find_method_lem_example : Finds methods site repo 1 7 (find_method methods 1 7 repo)
find_method_lem_example = find_method_lem methods site repo 1 7 repo-IsCoherent

find_method_inline_cache_lem_example :
    (r : Option ℕ × MethodRepo) × (find_method_inline_cache methods 0 1 7 repo ≡ some r)
    × Finds methods site repo 1 7 r
find_method_inline_cache_lem_example =
    find_method_inline_cache_lem methods site repo 0 1 repo-IsCoherent (omega arith)

inc_class_version-IsCoherent_example : IsCoherent redefined site (inc_class_version repo)
inc_class_version-IsCoherent_example =
    inc_class_version-IsCoherent methods redefined site repo repo-IsCoherent (omega arith)

-- Class 2 has no method of its own; a prepended module's place, 3, stands between it and 1.
abbrev classes : ℕ → Class
classes c = record {
  upper = if c == 2 then some 3 else (if c == 3 then some 1 else none);
  has_prepend = c == 3;
  is_singleton = false;
  class = 0;
  method_table = methods c;
}

inherited : get_method_of 3 classes 2 7 ≡ Walk.done (some 100)
unfolding get_method_of
inherited = refl
