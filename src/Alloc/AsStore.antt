-- ===== src/Alloc/AsStore.antt =====
-- src/alloc.rs fills the interface of Value.Store: the allocator's heap, read through an address.
use ruruby.Prelude.{ℕ, List, ap}
use ruruby.Value.Store.{ObjectStore}
use ruruby.Alloc.{Allocator, alloc}
use ruruby.Alloc.Heap.{IsHeap, IsFresh}
use ruruby.Alloc.Allocate.{alloc_lem}

-- The heap, where `fresh` is the page that the system hands out next in a state. The heap is ready
-- if it is well-formed and the system has a page left.
abbrev pub allocator_store : (Allocator → ℕ) → ObjectStore
allocator_store fresh = record {
  Store = Allocator;
  IsReady = λ a. (xs : List ℕ) × IsHeap a xs × IsFresh a (fresh a);
  alloc = λ v a. alloc (fresh a) v a;
  read = λ a p. (a.cells p).inner;
  alloc-IsAddress = λ v a ok. (alloc_lem v a ok.0 ok.1 (fresh a) ok.2).1.address;
  read-alloc = λ v a ok. ap (λ c. c.inner) (alloc_lem v a ok.0 ok.1 (fresh a) ok.2).1.stored;
}
