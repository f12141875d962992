-- ===== src/Primitives/Codec.antt =====
-- Rules for the codecs of whole messages: a writer that fills the payload, and a reader that ends
-- with its last byte.
mod Base
pub use Base.{
  Codec, Codec-bytes, Codec-then, Codec-last, Codec-u8, Codec-u16, Codec-u32, Codec-string16,
}
use army.Common.{◌≡◌, refl, Bool, true, false, List, [], ◌∷◌, ◌++◌, append-nil, ℕ}
use army.Exec.{Result, ok, Exec, pure, ◌>>=◌, ◌>>◌, raise_if, Error}
use army.Primitives.{ByteReader, ByteWriter, written, read_payload}
use army.Primitives.Reads.{Reads, Whole, Whole-bind, read_payload-Whole}
use army.Primitives.Writes.{Writes, Writes-then, Writes-mono, Writes-raise_if, written-Writes}

-- What `w` writes, if it does not raise, is a payload that `m` reads as `a`, to its end.
abbrev pub Message {ℓ} : {A : Type ℓ} → Exec ByteWriter (Unit {0}) → Exec ByteReader A → A → Type ℓ
Message w m a = Writes w (Whole m a)

module _ {ℓ κ} {A : Type ℓ} {B : Type κ} (w w' : Exec ByteWriter (Unit {0})) (m : Exec ByteReader A)
    (f : A → Exec ByteReader B) {a : A} {b : B} where
  pub Message-then : Codec w m a → Message w' (f a) b → Message (w >> w') (m >>= f) b
  Message-then =
      Writes-then (Reads m a) (Whole (f a) b) (Whole (m >>= f) b) (λ xs ys. Whole-bind m f) w w'

module _ {ℓ κ} {A : Type ℓ} {B : Type κ} (w : Exec ByteWriter (Unit {0})) (m : Exec ByteReader A)
    (f : A → Exec ByteReader B) {a : A} {b : B} where
  -- The last field.
  pub Message-last : Codec w m a → Whole (f a) b [] → Message w (m >>= f) b
  Message-last h k =
      Writes-mono (Reads m a) (Whole (m >>= f) b) w h
        (λ bs r. rw append-nil at (Whole-bind m f r k))

-- A test of the reader that the written value passes.
pub Message-check {ℓ} :
    {A : Type ℓ} (test : Bool) (x : Error) (w : Exec ByteWriter (Unit {0})) (m : Exec ByteReader A)
    {a : A}
    → test ≡ false
    → Message w m a
    → Message w (raise_if test x >> m) a
Message-check true x w m e h = absurd (cc e)
Message-check false x w m e h = h

pub read_payload-written {ℓ} :
    {A : Type ℓ} (w : Exec ByteWriter (Unit {0})) (m : Exec ByteReader A) {a : A} (bs : List ℕ)
    → Message w m a
    → written w ≡ ok bs
    → read_payload m bs ≡ ok a
read_payload-written w m {a} bs h e = read_payload-Whole m (written-Writes (Whole m a) w bs h e)
