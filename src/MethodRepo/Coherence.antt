-- ===== src/MethodRepo/Coherence.antt =====
-- src/vm/method.rs: the caches answer what the search along the class chain would.
use ruruby.Prelude.{
  ℕ, ◌+◌, ◌%◌, ◌^◌, ◌≤◌, ◌<◌, ◌≡◌, ◌⊎◌, refl, sym, ◌∙◌, ap, subst, true, ◌&&◌, List, Option, none,
  some, arith, ◌==◌, if◌then◌else◌, get_elem?, set, length, Bool-cases, Option-cases, inl, inr,
  ==→eq, ==→ne, get_elem?-set_self, get_elem?-set_ne, get_elem?-lt, get_elem?-none, length-set,
}
use ruruby.MethodRepo.{
  MethodRepo, InlineCacheEntry, MethodCacheEntry, inc_class_version, add_entry, search_cache,
  find_method, update_inline, find_method_inline_cache,
}

-- An entry of the current version holds what the search finds; none is of a later version. The call
-- site `id` calls the method `site id`.
pub record IsCoherent (search : ℕ → ℕ → Option ℕ) (site : ℕ → ℕ) (repo : MethodRepo) : Type 0 where
  pub global :
      (c name : ℕ) (e : MethodCacheEntry)
      → repo.m_cache c name ≡ some e
      → (e.version ≤ repo.class_version)
        × (e.version ≡ repo.class_version → search c name ≡ some e.method)
  pub inline :
      (id : ℕ) (e : InlineCacheEntry)
      → get_elem? repo.i_cache id ≡ some (some e)
      → (e.version ≤ repo.class_version)
        × (e.version ≡ repo.class_version → search e.class (site id) ≡ some e.method)

module _ (search : ℕ → ℕ → Option ℕ) (site : ℕ → ℕ) where
  -- A lookup answers what the search finds, and leaves coherent caches of the same version and size.
  pub record Finds (repo : MethodRepo) (c name : ℕ) (r : Option ℕ × MethodRepo) : Type 0 where
    pub answer : r.0 ≡ search c name
    pub coherent : IsCoherent search site r.1
    pub version : r.1.class_version ≡ repo.class_version
    pub size : length r.1.i_cache ≡ length repo.i_cache

  both_keys : (c d n k : ℕ) → (c == d && n == k) ≡ true → (c ≡ d) × (n ≡ k)
  both_keys c d n k h = ground arith

  cached :
      (m : ℕ → ℕ → Option MethodCacheEntry) (c name : ℕ) (e : MethodCacheEntry) (d other : ℕ)
      (f : MethodCacheEntry)
      → add_entry c name e m d other ≡ some f
      → ((c ≡ d) × (name ≡ other) × (e ≡ f)) ⊎ (m d other ≡ some f)
  cached m c name e d other f h = elim (Bool-cases (c == d && name == other)) [
    | inl t ↦
        let keys = both_keys c d name other t in
        let same : some e ≡ some f = subst (λ b. (if b then some e else m d other) ≡ some f) t h in
        inl (keys.0, keys.1, cc same)
    | inr t ↦ inr (subst (λ b. (if b then some e else m d other) ≡ some f) t h)
  ]

  -- An entry for what the search found keeps the caches coherent.
  added :
      (repo : MethodRepo) (c name m : ℕ)
      → IsCoherent search site repo
      → search c name ≡ some m
      → IsCoherent search site (record repo {
        m_cache =
            add_entry c name (record { method = m; version = repo.class_version }) repo.m_cache;
      })
  added repo c name m ok e = record {
    global = λ d other f h. elim (cached repo.m_cache c name _ d other f h) [
      | inl r ↦
          let v : repo.class_version ≡ f.version = ap (λ x. x.version) r.2 in
          let w : m ≡ f.method = ap (λ x. x.method) r.2 in
          (omega arith, λ _. rw (← r.0) (rw (← r.1) (e ∙ ap some w)))
      | inr r ↦ ok.global d other f r
    ];
    inline = ok.inline;
  }

  search_cache_lem :
      (repo : MethodRepo) (c name : ℕ)
      → IsCoherent search site repo
      → Finds repo c name (search_cache search c name repo)
  unfolding search_cache
  search_cache_lem repo c name ok = elim (Option-cases (search c name)) [
    | inl e ↦
        rw (e, search_cache) (record { answer = sym e; coherent = ok; version = refl; size = refl })
    | inr (m, e) ↦
        rw (e, search_cache)
          (record {
            answer = sym e;
            coherent = added repo c name m ok e;
            version = refl;
            size = refl;
          })
  ]

  -- The global cache, if coherent, answers what the search along the chain finds, from an entry or
  -- by the search itself, and stays coherent.
  pub find_method_lem :
      (repo : MethodRepo) (c name : ℕ)
      → IsCoherent search site repo
      → Finds repo c name (find_method search c name repo)
  unfolding find_method
  find_method_lem repo c name ok = elim (Option-cases (repo.m_cache c name)) [
    | inl e ↦ rw (e, find_method) (search_cache_lem repo c name ok)
    | inr (f, e) ↦ elim (Bool-cases (f.version == repo.class_version)) [
      | inl t ↦
          let found = (ok.global c name f e).1 (==→eq _ _ t) in
          rw (e, t, find_method)
            (record { answer = sym found; coherent = ok; version = refl; size = refl })
      | inr t ↦ rw (e, t, find_method) (search_cache_lem repo c name ok)
    ]
  ]

  entry_of :
      (l : List (Option InlineCacheEntry)) (id : ℕ) (x f : InlineCacheEntry)
      → get_elem? (set l id (some x)) id ≡ some (some f)
      → x ≡ f
  entry_of l id x f h =
      let b : id < length l =
        omega (arith, get_elem?-lt (set l id (some x)) id h, length-set l id (some x)) in
      let e : some (some x) ≡ some (some f) = sym (get_elem?-set_self l id (some x) b) ∙ h in cc e

  -- An inline entry for what the search found.
  written :
      (repo : MethodRepo) (id c v m : ℕ)
      → IsCoherent search site repo
      → v ≡ repo.class_version
      → search c (site id) ≡ some m
      → IsCoherent search site (record repo {
        i_cache = set repo.i_cache id (some (record { version = v; class = c; method = m }));
      })
  written repo id c v m ok same e = record {
    global = ok.global;
    inline = λ j f h. elim (Bool-cases (id == j)) [
      | inl t ↦
          let x : InlineCacheEntry = record { version = v; class = c; method = m } in
          let q = ==→eq id j t in
          let own =
            entry_of repo.i_cache id x f
              (subst (λ k. get_elem? (set repo.i_cache id (some x)) k ≡ some (some f)) (sym q) h) in
          let ev : v ≡ f.version = ap (λ y. y.version) own in
          let ec : c ≡ f.class = ap (λ y. y.class) own in
          let em : m ≡ f.method = ap (λ y. y.method) own in
          (omega arith, λ _. rw (← ec) (rw (← q) (e ∙ ap some em)))
      | inr t ↦ ok.inline j f (sym (get_elem?-set_ne repo.i_cache id j _ (==→ne id j t)) ∙ h)
    ];
  }

  update_inline_lem :
      (repo : MethodRepo) (id c : ℕ)
      → IsCoherent search site repo
      → Finds repo c (site id) (update_inline search id c (site id) repo)
  unfolding update_inline
  update_inline_lem repo id c ok =
      let r = find_method_lem repo c (site id) ok in
      elim (Option-cases (find_method search c (site id) repo).0) [
        | inl e ↦
            rw (e, update_inline)
              (record {
                answer = sym e ∙ r.answer;
                coherent = r.coherent;
                version = r.version;
                size = r.size;
              })
        | inr (m, e) ↦
            rw (e, update_inline)
              (record {
                answer = sym e ∙ r.answer;
                coherent =
                    written (find_method search c (site id) repo).1 id c repo.class_version m
                      r.coherent (sym r.version) (sym r.answer ∙ e);
                version = r.version;
                size = length-set _ id _ ∙ r.size;
              })
      ]

  -- At a call site that exists, coherent caches answer what the search along the chain finds for
  -- the site's method, whichever class the receiver has, and they stay coherent.
  pub find_method_inline_cache_lem :
      (repo : MethodRepo) (id c : ℕ)
      → IsCoherent search site repo
      → id < length repo.i_cache
      → (r : Option ℕ × MethodRepo) × (find_method_inline_cache search id c (site id) repo ≡ some r)
        × Finds repo c (site id) r
  unfolding find_method_inline_cache
  find_method_inline_cache_lem repo id c ok b = elim (Option-cases (get_elem? repo.i_cache id)) [
    | inl e ↦ absurd (omega (arith, get_elem?-none repo.i_cache id e))
    | inr (none, e) ↦ (
      update_inline search id c (site id) repo,
      rw (e, find_method_inline_cache) refl,
      update_inline_lem repo id c ok,
    )
    | inr (some f, e) ↦ elim (Bool-cases (f.version == repo.class_version && f.class == c)) [
      | inl t ↦
          let keys = both_keys f.version repo.class_version f.class c t in
          let found = (ok.inline id f e).1 keys.0 in
          (
            (some f.method, repo),
            rw (e, t, find_method_inline_cache) refl,
            record {
              answer = sym found ∙ ap (λ d. search d (site id)) keys.1;
              coherent = ok;
              version = refl;
              size = refl;
            },
          )
      | inr t ↦ (
        update_inline search id c (site id) repo,
        rw (e, t, find_method_inline_cache) refl,
        update_inline_lem repo id c ok,
      )
    ]
  ]

-- A new version makes coherent caches coherent with whatever the search finds from then on: a
-- method that was redefined, or a module that was included. The counter must not be at its end,
-- since it wraps around to versions that old entries may have.
pub inc_class_version-IsCoherent :
    (search search' : ℕ → ℕ → Option ℕ) (site : ℕ → ℕ) (repo : MethodRepo)
    → IsCoherent search site repo
    → repo.class_version + 1 < 2 ^ 32
    → IsCoherent search' site (inc_class_version repo)
unfolding inc_class_version
inc_class_version-IsCoherent search search' site repo ok small =
    let next : (repo.class_version + 1) % 2 ^ 32 ≡ repo.class_version + 1 = omega arith in
    rw next (record {
      global = λ c name e h.
          let old = (ok.global c name e h).0 in (omega arith, λ v. absurd (omega arith));
      inline = λ id e h. let old = (ok.inline id e h).0 in (omega arith, λ v. absurd (omega arith));
    })
