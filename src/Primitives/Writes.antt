-- ===== src/Primitives/Writes.antt =====
-- What a writer action appends when it does not raise.
use army.Common.{
  ℕ, ◌≡◌, refl, sym, ap, ◌∙◌, Bool, true, false, List, [], ◌++◌, append_assoc, append-nil,
}
use army.Exec.{Result, ok, err, Exec, pure, ◌>>=◌, ◌>>◌, raise_if, lift, Error, continue, >>_assoc}
use mathlib.Core.Path.{subst}
use army.Primitives.{ByteWriter, buffer_of, written, write_bytes, byte_writer}

-- The bytes that `w` appends have the property `P`.
pub record Writes {ℓ} (w : Exec ByteWriter (Unit {0})) (P : List ℕ → Type ℓ) : Type ℓ where
  pub appended :
      (buf out : ByteWriter)
      → w buf ≡ (ok tt, out)
      → (bs : List ℕ) × (out.buffer ≡ buf.buffer ++ bs) × P bs

pub state_eq :
    {r s : Result (Unit {0})} {w out : ByteWriter}
    → ◌≡◌ {A = Result (Unit {0}) × ByteWriter} (r, w) (s, out)
    → w ≡ out
state_eq e = ap (λ (t : Result (Unit {0}) × ByteWriter). t.1) e

pub result_eq :
    {r s : Result (Unit {0})} {w out : ByteWriter}
    → ◌≡◌ {A = Result (Unit {0}) × ByteWriter} (r, w) (s, out)
    → r ≡ s
result_eq e = ap (λ (t : Result (Unit {0}) × ByteWriter). t.0) e

module _ {ℓ} (P : List ℕ → Type ℓ) where
  pub Writes-bytes : (bs : List ℕ) → P bs → Writes (write_bytes bs) P
  unfolding write_bytes
  Writes-bytes bs p = record {
    appended = λ buf out e. (bs, ap ByteWriter.buffer (sym (state_eq e)), p);
  }

  pub Writes-pure : P [] → Writes (pure tt) P
  Writes-pure p = record {
    appended =
        λ buf out e. ([], sym (ap ByteWriter.buffer (state_eq e)) ∙ sym (append-nil buf.buffer), p);
  }

  pub Writes-raise_if :
      (test : Bool) (x : Error) (w : Exec ByteWriter (Unit {0}))
      → (test ≡ false → Writes w P)
      → Writes (raise_if test x >> w) P
  Writes-raise_if true x w h = record { appended = λ buf out e. absurd (cc (result_eq e)) }
  Writes-raise_if false x w h = h refl

  pub Writes-assoc :
      (a b c : Exec ByteWriter (Unit {0})) → Writes (a >> (b >> c)) P → Writes (a >> b >> c) P
  Writes-assoc a b c h = record {
    appended = λ buf out e. h.appended buf out (sym (>>_assoc a b c buf) ∙ e);
  }

  pub Writes-lift {κ} :
      {A : Type κ} (r : Result A) (k : A → Exec ByteWriter (Unit {0}))
      → ((a : A) → r ≡ ok a → Writes (k a) P)
      → Writes (lift r >>= k) P
  Writes-lift (ok a) k h = h a refl
  Writes-lift (err x) k h = record { appended = λ buf out e. absurd (cc (result_eq e)) }

  pub Writes-mono {κ} :
      (Q : List ℕ → Type κ) (w : Exec ByteWriter (Unit {0}))
      → Writes w P
      → ((bs : List ℕ) → P bs → Q bs)
      → Writes w Q
  Writes-mono Q w h f = record {
    appended = λ buf out e. let (bs, same, p) = h.appended buf out e in (bs, same, f bs p);
  }

  pub written-Writes :
      (w : Exec ByteWriter (Unit {0})) (bs : List ℕ) → Writes w P → written w ≡ ok bs → P bs
  written-Writes w bs h e = taken (w byte_writer) refl e
    where
      taken :
          (run : Result (Unit {0}) × ByteWriter)
          → w byte_writer ≡ run
          → buffer_of run ≡ ok bs
          → P bs
      taken (err x, out) f e = absurd (cc e)
      taken (ok u, out) f e =
          let (xs, same, p) = h.appended byte_writer out f in
          let xs_eq : xs ≡ bs = sym same ∙ cc e in subst P xs_eq p

module _ {ℓ κ μ} (P : List ℕ → Type ℓ) (Q : List ℕ → Type κ) (R : List ℕ → Type μ)
    (join : (xs ys : List ℕ) → P xs → Q ys → R (xs ++ ys)) where
  pub Writes-then :
      (w w' : Exec ByteWriter (Unit {0})) → Writes w P → Writes w' Q → Writes (w >> w') R
  Writes-then w w' h h' = record { appended = λ buf out e. split buf out (w buf) refl e }
    where
      split :
          (buf out : ByteWriter) (run : Result (Unit {0}) × ByteWriter)
          → w buf ≡ run
          → continue run.0 (λ _. w') run.1 ≡ (ok tt, out)
          → (bs : List ℕ) × (out.buffer ≡ buf.buffer ++ bs) × R bs
      split buf out (err x, mid) f e = absurd (cc (result_eq e))
      split buf out (ok u, mid) f e =
          let (xs, same, p) = h.appended buf mid f in
          let (ys, same', q) = h'.appended mid out e in
          (
            xs ++ ys,
            same' ∙ ap (λ (t : List ℕ). t ++ ys) same ∙ append_assoc buf.buffer xs ys,
            join xs ys p q,
          )
