-- ===== src/Codegen/Reach.antt =====
-- src/vm/executor/opt_core.rs: what steps of the loop lead to, and which computations leave the stack
-- alone.
use ruruby.Prelude.{ℕ, ◌≡◌, refl, List, [], ◌++◌, Option, none, some}
use ruruby.ISeq.{ISeq}
use ruruby.Vm.{Memory, Exec, Ended, returns, raises, panics}
use ruruby.Vm.Executor.{Executor}
use ruruby.Vm.Arm.{Next, goto}
use ruruby.Vm.Run.{step}
use ruruby.Codegen.Eval.{continue}

module _ {W : Type 0} where
  -- The memory with another stack.
  abbrev pub with_stack : List ℕ → Memory W → Memory W
  with_stack vals m = record m { exec_stack = vals }

  -- The same end of a computation with another stack.
  unfoldable pub on_stack : {A : Type 0} → List ℕ → Ended (Memory W) A → Ended (Memory W) A
  on_stack vals (returns a m) = returns a (with_stack vals m)
  on_stack vals (raises e m) = raises e (with_stack vals m)
  on_stack vals panics = panics

  -- A computation that neither reads nor changes the stack.
  pub record IsNeutral {A : Type 0} (a : Exec (Memory W) A) : Type 0 where
    pub neutral : (vals : List ℕ) (m : Memory W) → a (with_stack vals m) ≡ on_stack vals (a m)

module _ {W : Type 0} (o : Executor W) (self_value : ℕ) (t : ISeq) where
  -- The loop gets from one place to another.
  pub data Reaches : ℕ → Memory W → ℕ → Memory W → Type 0 where
    stays : {p : ℕ} {m : Memory W} → Reaches p m p m
    steps :
        {p q r : ℕ} {m m' m'' : Memory W}
        → step o self_value t p m ≡ returns (goto q) m'
        → Reaches q m' r m''
        → Reaches p m r m''

  pub Reaches-append :
      {p q r : ℕ} {m m' m'' : Memory W} → Reaches p m q m' → Reaches q m' r m'' → Reaches p m r m''
  Reaches-append stays b = b
  Reaches-append (steps e a) b = steps e (Reaches-append a b)

  -- The code from `p` on does what ends so: it goes on where `q` says, with `vals` and what `out` gives on
  -- the stack, or stops with the same error, or panics.
  unfoldable pub Follows :
      {A : Type 0}
      → (A → List ℕ)
      → (A → ℕ)
      → ℕ
      → Memory W
      → List ℕ
      → Option (Ended (Memory W) A)
      → Type 0
  Follows out q p m vals none = Unit {0}
  Follows out q p m vals (some (returns a m')) = Reaches p m (q a) (with_stack (out a ++ vals) m')
  Follows out q p m vals (some (raises e m')) =
      (p₁ : ℕ) × (m₁ : Memory W) × (m₂ : Memory W) × Reaches p m p₁ m₁
      × (step o self_value t p₁ m₁ ≡ raises e m₂)
      × (with_stack [] m₂ ≡ with_stack [] m')
  Follows out q p m vals (some panics) =
      (p₁ : ℕ) × (m₁ : Memory W) × Reaches p m p₁ m₁ × (step o self_value t p₁ m₁ ≡ panics)

  -- Steps in front.
  pub Follows-after :
      {A : Type 0} (out : A → List ℕ) (r : A → ℕ) (p q : ℕ) (m m' : Memory W) (vals : List ℕ)
      (end : Option (Ended (Memory W) A))
      → Reaches p m q m'
      → Follows out r q m' vals end
      → Follows out r p m vals end
  unfolding Follows
  Follows-after out r p q m m' vals none a b = tt
  Follows-after out r p q m m' vals (some (returns x k)) a b = Reaches-append a b
  Follows-after out r p q m m' vals (some (raises e k)) a b =
      (b.0, b.1, b.2, Reaches-append a (b.3), b.4, b.5)
  Follows-after out r p q m m' vals (some panics) a b = (b.0, b.1, Reaches-append a (b.2), b.3)

  -- One computation after another.
  pub Follows-continue :
      {A B : Type 0} (out : A → List ℕ) (out' : B → List ℕ) (q : A → ℕ) (r : B → ℕ) (p : ℕ)
      (m : Memory W) (vals vals' : List ℕ) (end : Option (Ended (Memory W) A))
      (k : A → Memory W → Option (Ended (Memory W) B))
      → Follows out q p m vals end
      → ((a : A) (m' : Memory W)
          → Follows out' r (q a) (with_stack (out a ++ vals) m') vals' (k a m'))
      → Follows out' r p m vals' (continue k end)
  unfolding Follows continue
  Follows-continue out out' q r p m vals vals' none k f h = tt
  Follows-continue out out' q r p m vals vals' (some (returns a m')) k f h =
      Follows-after out' r p (q a) m (with_stack (out a ++ vals) m') vals' (k a m') f (h a m')
  Follows-continue out out' q r p m vals vals' (some (raises e m')) k f h = f
  Follows-continue out out' q r p m vals vals' (some panics) k f h = f

  -- What one instruction does that ends with a value pushed.
  unfoldable pub pushed :
      {A : Type 0} → (A → List ℕ) → (A → ℕ) → List ℕ → Ended (Memory W) A → Ended (Memory W) Next
  pushed out q vals (returns a m) = returns (goto (q a)) (with_stack (out a ++ vals) m)
  pushed out q vals (raises e m) = raises e (with_stack vals m)
  pushed out q vals panics = panics

  pub Follows-step :
      {A : Type 0} (out : A → List ℕ) (q : A → ℕ) (p : ℕ) (m : Memory W) (vals : List ℕ)
      (end : Ended (Memory W) A)
      → step o self_value t p m ≡ pushed out q vals end
      → Follows out q p m vals (some end)
  unfolding Follows pushed
  Follows-step out q p m vals (returns a m') e = steps e stays
  Follows-step out q p m vals (raises k m') e = (p, m, with_stack vals m', stays, e, refl)
  Follows-step out q p m vals panics e = (p, m, stays, e)
