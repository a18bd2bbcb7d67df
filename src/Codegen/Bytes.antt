-- ===== src/Codegen/Bytes.antt =====
-- src/vm/iseq.rs: what a code keeps of the codes that it grew out of, and what is read in it.
use ruruby.Prelude.{
  ℕ, ◌+◌, ◌%◌, ◌^◌, ◌≤◌, ◌<◌, ◌≡◌, refl, sym, ap, subst, ◌∙◌, [], ◌++◌, none, some, arith, length,
  length-append, drop, get_elem?, get_elem?-append_left, get_elem?-append_right, get_elem?-drop,
  take-agree, le→leb,
}
use mathlib.Core.List.{append-nil}
use ruruby.Prelude.Outcome.{Outcome, ok, err, panic, ◌>>=◌}
use ruruby.ISeq.{ISeq, slice, from_bytes, read32, read64}
use ruruby.ISeq.Codec.{bytes4, bytes8, push32_lem, push64_lem, read-push}
use ruruby.Codegen.Gen.{Code, ◌then◌, nothing}

-- The first bytes of `s'` are those of `s`.
pub record Extends (s s' : ISeq) : Type 0 where
  pub longer : length s ≤ length s'
  pub kept : (k : ℕ) → k < length s → get_elem? s' k ≡ get_elem? s k

-- `t` has the bytes of `s` from `lo` on, and maybe more behind them.
pub record Holds (t s : ISeq) (lo : ℕ) : Type 0 where
  pub room : length s ≤ length t
  pub same : (k : ℕ) → lo ≤ k → k < length s → get_elem? t k ≡ get_elem? s k

pub Extends-refl : (s : ISeq) → Extends s s
Extends-refl s = record { longer = omega arith; kept = λ k h. refl }

pub Extends-trans : {s s' s'' : ISeq} → Extends s s' → Extends s' s'' → Extends s s''
Extends-trans {s = s} {s' = s'} a b = record {
  longer = omega (arith, a.longer, b.longer);
  kept = λ k h. b.kept k (omega (arith, a.longer)) ∙ a.kept k h;
}

pub Extends-append : (s bytes : ISeq) → Extends s (s ++ bytes)
Extends-append s bytes = record {
  longer = omega (arith, length-append s bytes);
  kept = λ k h. get_elem?-append_left s bytes k h;
}

pub Holds-part : {t s s' : ISeq} {lo : ℕ} → Holds t s' lo → Extends s s' → Holds t s lo
Holds-part h e = record {
  room = omega (arith, h.room, e.longer);
  same = λ k l r. h.same k l (omega (arith, e.longer)) ∙ e.kept k r;
}

pub Holds-from : {t s : ISeq} {lo lo' : ℕ} → Holds t s lo → lo ≤ lo' → Holds t s lo'
Holds-from h l = record { room = h.room; same = λ k a r. h.same k (omega arith) r }

-- Code that only adds to the buffer.
pub record Grows (code : Code) : Type 0 where
  pub grows : (s s' : ISeq) → code s ≡ ok s' → Extends s s'

-- The parts of a `?` that succeeds.
pub bind-ok :
    {A B : Type 0} (r : Outcome A) (k : A → Outcome B) (b : B)
    → (r >>= k) ≡ ok b
    → (a : A) × (r ≡ ok a) × (k a ≡ ok b)
bind-ok (ok a) k b e = (a, refl, e)
bind-ok (err x) k b e = cc
bind-ok panic k b e = cc

pub Grows-then : {a b : Code} → Grows a → Grows b → Grows (a then b)
unfolding ◌then◌
Grows-then {a = a} {b = b} x y = record {
  grows = λ s s' e.
      let m = bind-ok (a s) b s' e in Extends-trans (x.grows s m.0 m.1) (y.grows m.0 s' m.2);
}

pub Grows-nothing : Grows nothing
unfolding nothing
Grows-nothing = record { grows = λ s s' e. subst (Extends s) (cc e) (Extends-refl s) }

-- The place of some bytes in a code.
pub record At (t : ISeq) (p : ℕ) (bytes : ISeq) : Type 0 where
  pub inside : p + length bytes ≤ length t
  pub byte : (k : ℕ) → k < length bytes → get_elem? t (p + k) ≡ get_elem? bytes k

pub At-Holds : (t s bytes : ISeq) → Holds t (s ++ bytes) (length s) → At t (length s) bytes
At-Holds t s bytes h = record {
  inside = omega (arith, h.room, length-append s bytes);
  byte = λ k l.
      h.same (length s + k) (omega arith) (omega (arith, length-append s bytes))
      ∙ get_elem?-append_right s bytes k;
}

-- What is read inside the bytes is read in the code.
slice-At :
    (t : ISeq) (p : ℕ) (bytes : ISeq) (k w : ℕ)
    → At t p bytes
    → k + w ≤ length bytes
    → slice t (p + k) w ≡ slice bytes k w
unfolding slice
slice-At t p bytes k w a l =
    rw (le→leb (p + k + w) (length t) (omega (arith, a.inside)), le→leb (k + w) (length bytes) l)
      (ap some (
        take-agree w (drop (p + k) t) (drop k bytes)
          λ j r. get_elem?-drop (p + k) j t ∙ there j r ∙ sym (get_elem?-drop k j bytes)))
  where
    there : (j : ℕ) → j < w → get_elem? t (p + k + j) ≡ get_elem? bytes (k + j)
    there j r = ground (arith, a.byte (k + j))

pub read32-At :
    (t : ISeq) (p : ℕ) (front : ISeq) (n : ℕ) (back : ISeq)
    → At t p (front ++ bytes4 n ++ back)
    → read32 t (p + length front) ≡ some (n % 2 ^ 32)
unfolding read32
read32-At t p front n back a =
    ap (λ r. elim r [ none ↦ none | some bs ↦ some (from_bytes bs) ])
      (slice-At t p (front ++ bytes4 n ++ back) (length front) 4 a
        (omega (arith, length-append (front ++ bytes4 n) back, length-append front (bytes4 n))))
    ∙ rw push32_lem at ((read-push front back n).1)

pub read64-At :
    (t : ISeq) (p : ℕ) (front : ISeq) (n : ℕ)
    → At t p (front ++ bytes8 n)
    → read64 t (p + length front) ≡ some (n % 2 ^ 64)
unfolding read64
read64-At t p front n a =
    ap (λ r. elim r [ none ↦ none | some bs ↦ some (from_bytes bs) ])
      (slice-At t p (front ++ bytes8 n) (length front) 8 a
        (omega (arith, length-append front (bytes8 n))))
    ∙ rw (push64_lem, append-nil) at ((read-push front [] n).2)
