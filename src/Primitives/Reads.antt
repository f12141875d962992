-- ===== src/Primitives/Reads.antt =====
-- What a reader action takes from the front of what is left.
use army.Common.{
  ℕ, ◌+◌, ◌-◌, ◌≤◌, ◌≡◌, refl, sym, ap, ◌∙◌, arith, Bool, true, false, List, [], ◌++◌, length,
  length-append, drop, take-append_length, drop-append_length, drop-drop, append_assoc, length-drop,
  le→ltb,
}
use native.Mathlib.Nat.{add-zero}
use army.Common.Int.{pos}
use army.Exec.{ok, Exec, pure, ◌>>=◌, ◌>>◌, raise_if, Error}
use army.Primitives.{ByteReader, read_exact, ensure_finished, remaining, reader, read_payload}

-- `left` is still to be read.
pub record At (r : ByteReader) (left : List ℕ) : Type 0 where
  pub inside : r.offset ≤ length r.bytes
  pub rest : drop r.offset r.bytes ≡ left
  pub limit : r.max_string_bytes ≡ pos 0xffff

abbrev pub advance : ℕ → ByteReader → ByteReader
advance n r = record r { offset = r.offset + n }

pub At-advance :
    (r : ByteReader) (bs rest : List ℕ) → At r (bs ++ rest) → At (advance (length bs) r) rest
At-advance r bs rest at = record {
  inside = omega (
    arith,
    length-drop r.offset r.bytes,
    length-append bs rest,
    ap (length {A = ℕ}) at.rest,
    at.inside,
  );
  rest =
      drop-drop r.offset (length bs) r.bytes
      ∙ ap (drop (length bs)) at.rest
      ∙ drop-append_length bs rest;
  limit = at.limit;
}

pub At-remaining : (r : ByteReader) (left : List ℕ) → At r left → remaining r ≡ length left
unfolding remaining
At-remaining r left at = omega (arith, length-drop r.offset r.bytes, ap (length {A = ℕ}) at.rest)

pub reader-At : (bs : List ℕ) → At (reader bs) bs
reader-At bs = record { inside = omega arith; rest = refl; limit = refl }

-- `m` reads exactly `bs`, whatever follows, and returns `a`.
pub record Reads {ℓ} {A : Type ℓ} (m : Exec ByteReader A) (a : A) (bs : List ℕ) : Type ℓ where
  pub run :
      (r : ByteReader) (rest : List ℕ) → At r (bs ++ rest) → m r ≡ (ok a, advance (length bs) r)

pub Reads-exact : (bs : List ℕ) → Reads (read_exact (pos (length bs))) bs bs
unfolding read_exact
Reads-exact bs = record {
  run = λ r rest at. rw (
    le→ltb (length r.bytes) (r.offset + length bs) (At-advance r bs rest at).inside,
    at.rest,
    take-append_length,
  );
}

advance-advance :
    (r : ByteReader) (xs ys : List ℕ)
    → advance (length ys) (advance (length xs) r) ≡ advance (length (xs ++ ys)) r
advance-advance r xs ys =
    ap (λ (n : ℕ). record r { offset = n }) (omega (arith, length-append xs ys))

pub Reads-pure {ℓ} : {A : Type ℓ} (a : A) → Reads (pure a) a []
Reads-pure a = record {
  run = λ r rest at. ap (λ (n : ℕ). (ok a, record r { offset = n })) (sym (add-zero r.offset));
}

module _ {ℓ κ} {A : Type ℓ} {B : Type κ} (m : Exec ByteReader A) (f : A → Exec ByteReader B) {a : A}
    {b : B} {xs ys : List ℕ} where
  pub Reads-bind : Reads m a xs → Reads (f a) b ys → Reads (m >>= f) b (xs ++ ys)
  Reads-bind hm hf = record {
    run = λ r rest at.
        let at' : At r (xs ++ (ys ++ rest)) = rw append_assoc at at in
        rw (
          hm.run r (ys ++ rest) at',
          hf.run (advance (length xs) r) rest (At-advance r xs (ys ++ rest) at'),
          advance-advance r xs ys,
        );
  }

-- `m` returns `a` when exactly `bs` is left.
pub record Whole {ℓ} {A : Type ℓ} (m : Exec ByteReader A) (a : A) (bs : List ℕ) : Type ℓ where
  pub run : (r : ByteReader) → At r bs → (m r).0 ≡ ok a

pub Whole-pure {ℓ} : {A : Type ℓ} (a : A) → Whole (pure a) a []
Whole-pure a = record { run = λ r at. refl }

pub Whole-ensure {ℓ} :
    {A : Type ℓ} (k : Exec ByteReader A) {a : A} → Whole k a [] → Whole (ensure_finished >> k) a []
unfolding ensure_finished remaining
Whole-ensure k h = record {
  run = λ r at.
      let none_left : length r.bytes - r.offset ≡ 0 =
        omega (arith, length-drop r.offset r.bytes, ap (length {A = ℕ}) at.rest) in
      rw none_left (h.run r at);
}

module _ {ℓ κ} {A : Type ℓ} {B : Type κ} (m : Exec ByteReader A) (f : A → Exec ByteReader B) {a : A}
    {b : B} {xs ys : List ℕ} where
  pub Whole-bind : Reads m a xs → Whole (f a) b ys → Whole (m >>= f) b (xs ++ ys)
  Whole-bind hm hf = record {
    run = λ r at. rw (hm.run r ys at) (hf.run (advance (length xs) r) (At-advance r xs ys at));
  }

pub read_payload-Whole {ℓ} :
    {A : Type ℓ} (m : Exec ByteReader A) {a : A} {bs : List ℕ}
    → Whole m a bs
    → read_payload m bs ≡ ok a
read_payload-Whole m {a} {bs} h = h.run (reader bs) (reader-At bs)

-- A test that does not raise.
pub Whole-raise_if {ℓ} :
    {A : Type ℓ} (test : Bool) (x : Error) (m : Exec ByteReader A) {a : A} {bs : List ℕ}
    → test ≡ false
    → Whole m a bs
    → Whole (raise_if test x >> m) a bs
Whole-raise_if true x m e h = absurd (cc e)
Whole-raise_if false x m e h = h
