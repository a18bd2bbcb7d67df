-- ===== src/MethodRepo.antt =====
-- src/vm/method.rs: the global and the inline method cache, and src/value/class.rs: the search of a
-- method along the chain of classes. A class, a name, and a method are their numbers; a hash map
-- is a function. `get_entry` on a call site that does not exist panics: `none` of the outer option.
pub mod Coherence
mod Examples
use ruruby.Prelude.{
  ℕ, zero, suc, ◌+◌, ◌%◌, ◌^◌, Bool, true, false, ◌&&◌, List, [], ◌∷◌, ◌++◌, Option, none, some,
  ◌==◌, if◌then◌else◌, get_elem?, set,
}

-- `ClassInfo`, as much as the search reads.
pub record Class : Type 0 where
  pub upper : Option ℕ
  pub has_prepend : Bool
  pub is_singleton : Bool
  pub class : ℕ
  pub method_table : ℕ → Option ℕ

-- The end of a loop, or its fuel spent: a chain that runs in a circle has no end.
pub data Walk (A : Type 0) : Type 0 where
  done : A → Walk A
  unfinished : Walk A

-- `ClassInfo::upper`.
unfoldable pub upper_from : ℕ → (ℕ → Class) → Option ℕ → Walk (Option ℕ)
upper_from zero classes upper = Walk.unfinished
upper_from (suc fuel) classes none = Walk.done none
upper_from (suc fuel) classes (some m) = elim (classes m).has_prepend [
  | false ↦ Walk.done (some m)
  | true ↦ upper_from fuel classes (classes m).upper
]

-- The loop of `Module::get_method`, where `first` is the class that the search began with.
unfoldable pub get_method_from : ℕ → (ℕ → Class) → ℕ → ℕ → Bool → ℕ → Walk (Option ℕ)
unfolding upper_from
get_method_from zero classes first class singleton_flag method = Walk.unfinished
get_method_from (suc fuel) classes first class singleton_flag method =
    elim ((classes class).method_table method) [
      | some m ↦ Walk.done (some m)
      | none ↦ elim (upper_from fuel classes (classes class).upper) [
        | Walk.unfinished ↦ Walk.unfinished
        | Walk.done (some super) ↦ get_method_from fuel classes first super singleton_flag method
        | Walk.done none ↦ elim singleton_flag [
          | true ↦ get_method_from fuel classes first (classes first).class false method
          | false ↦ Walk.done none
        ]
      ]
    ]

unfoldable pub get_method_of : ℕ → (ℕ → Class) → ℕ → ℕ → Walk (Option ℕ)
unfolding get_method_from
get_method_of fuel classes class method =
    get_method_from fuel classes class class (classes class).is_singleton method

pub record InlineCacheEntry : Type 0 where
  pub version : ℕ
  pub class : ℕ
  pub method : ℕ

pub record MethodCacheEntry : Type 0 where
  pub method : ℕ
  pub version : ℕ

-- `MethodRepo`, without the table of the methods' code: the inline cache (`table` and `id`) and
-- the global one.
pub record MethodRepo : Type 0 where
  pub class_version : ℕ
  pub i_cache : List (Option InlineCacheEntry)
  pub i_cache_id : ℕ
  pub m_cache : ℕ → ℕ → Option MethodCacheEntry

unfoldable pub inc_class_version : MethodRepo → MethodRepo
inc_class_version repo = record repo { class_version = (repo.class_version + 1) % 2 ^ 32 }

unfoldable pub add_inline_cache_entry : MethodRepo → ℕ × MethodRepo
add_inline_cache_entry repo = (
  repo.i_cache_id,
  record repo { i_cache_id = (repo.i_cache_id + 1) % 2 ^ 32; i_cache = repo.i_cache ++ none ∷ [] },
)

-- `MethodCache::add_entry`, `HashMap::insert` of a key of two parts.
abbrev pub add_entry :
    ℕ → ℕ → MethodCacheEntry → (ℕ → ℕ → Option MethodCacheEntry) → ℕ → ℕ → Option MethodCacheEntry
add_entry class id e m c i = if class == c && id == i then some e else m c i

-- `MethodCache::get_method`; `search` is the search along the chain, `Module::get_method`.
unfoldable pub search_cache : (ℕ → ℕ → Option ℕ) → ℕ → ℕ → MethodRepo → Option ℕ × MethodRepo
search_cache search rec_class name repo = elim (search rec_class name) [
  | none ↦ (none, repo)
  | some method ↦ (
    some method,
    record repo {
      m_cache =
          add_entry rec_class name (record { method = method; version = repo.class_version })
            repo.m_cache;
    },
  )
]

unfoldable pub find_method : (ℕ → ℕ → Option ℕ) → ℕ → ℕ → MethodRepo → Option ℕ × MethodRepo
unfolding search_cache
find_method search rec_class name repo = elim (repo.m_cache rec_class name) [
  | some e ↦
      if e.version == repo.class_version
      then (some e.method, repo)
      else search_cache search rec_class name repo
  | none ↦ search_cache search rec_class name repo
]

-- The lookup that follows a miss of the inline cache.
unfoldable pub update_inline : (ℕ → ℕ → Option ℕ) → ℕ → ℕ → ℕ → MethodRepo → Option ℕ × MethodRepo
unfolding find_method
update_inline search id rec_class name repo =
    let r = find_method search rec_class name repo in
    elim r.0 [
      | none ↦ (none, r.1)
      | some method ↦ (
        some method,
        record r.1 {
          i_cache =
              set r.1.i_cache id (
                some (record { version = repo.class_version; class = rec_class; method = method }));
        },
      )
    ]

unfoldable pub find_method_inline_cache :
    (ℕ → ℕ → Option ℕ) → ℕ → ℕ → ℕ → MethodRepo → Option (Option ℕ × MethodRepo)
unfolding update_inline
find_method_inline_cache search id rec_class name repo = elim (get_elem? repo.i_cache id) [
  | none ↦ none
  | some none ↦ some (update_inline search id rec_class name repo)
  | some (some e) ↦
      if e.version == repo.class_version && e.class == rec_class
      then some (some e.method, repo)
      else some (update_inline search id rec_class name repo)
]
