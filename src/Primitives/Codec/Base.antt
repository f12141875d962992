-- ===== src/Primitives/Codec/Base.antt =====
-- The pairs of primitives.py that read back what they write.
use army.Common.{
  ℕ, ◌-◌, ◌^◌, ◌≤◌, ◌<◌, ◌≡◌, refl, arith, false, not, List, [], ◌∷◌, length, append-nil, ltb,
  le→leb,
}
use army.Common.Int.{ℤ, pos, negsuc, leb_ℤ}
use army.Bytes.{to_bytes, from_bytes, from_bytes-to_bytes, length-to_bytes}
use army.Utf8.{utf8_encode, utf8_decode}
use army.Utf8.RoundTrip.{utf8_decode-utf8_encode}
use army.Exec.{ok, Exec, pure, gets, ◌>>=◌, ◌>>◌, raise_if, lift, encode_error, decode_error}
use army.Primitives.{ByteReader, ByteWriter, validate_uint, write_bytes}
use army.Primitives.{write_u8, write_u16, write_u32, write_string16, read_exact, read_u8, read_u16}
use army.Primitives.{read_u32, read_string16, first, or_decode_error}
use army.Primitives.Reads.{Reads, Reads-bind, Reads-pure, Reads-exact}
use army.Primitives.Writes.{
  Writes, Writes-bytes, Writes-raise_if, Writes-lift, Writes-then, Writes-mono,
}

-- What `w` writes, if it does not raise, `m` reads back as `a`.
abbrev pub Codec {ℓ} : {A : Type ℓ} → Exec ByteWriter (Unit {0}) → Exec ByteReader A → A → Type ℓ
Codec w m a = Writes w (Reads m a)

pub Codec-bytes : (bs : List ℕ) → Codec (write_bytes bs) (read_exact (pos (length bs))) bs
Codec-bytes bs = Writes-bytes (Reads (read_exact (pos (length bs))) bs) bs (Reads-exact bs)

module _ {ℓ κ} {A : Type ℓ} {B : Type κ} (w w' : Exec ByteWriter (Unit {0})) (m : Exec ByteReader A)
    (f : A → Exec ByteReader B) {a : A} {b : B} where
  pub Codec-then : Codec w m a → Codec w' (f a) b → Codec (w >> w') (m >>= f) b
  Codec-then =
      Writes-then (Reads m a) (Reads (f a) b) (Reads (m >>= f) b) (λ xs ys. Reads-bind m f) w w'

module _ {ℓ κ} {A : Type ℓ} {B : Type κ} (w : Exec ByteWriter (Unit {0})) (m : Exec ByteReader A)
    (f : A → Exec ByteReader B) {a : A} {b : B} where
  pub Codec-last : Codec w m a → Reads (f a) b [] → Codec w (m >>= f) b
  Codec-last h k =
      Writes-mono (Reads m a) (Reads (m >>= f) b) w h
        (λ bs r. rw append-nil at (Reads-bind m f r k))

-- A number that `_validate_uint` lets through.
valid_uint : (v : ℤ) (bits n : ℕ) → validate_uint v bits ≡ ok n → (v ≡ pos n) × (n ≤ 2 ^ bits - 1)
unfolding validate_uint
valid_uint (negsuc k) bits n e = cc
valid_uint (pos k) bits n e = ground arith

-- A number read from `width` bytes.
Reads-uint :
    (width n : ℕ)
    → n < 256 ^ width
    → Reads
        (do value ← read_exact (pos width); pure (pos (from_bytes value)))
        (pos n)
        (to_bytes width n)
Reads-uint width n h =
    let exact : Reads (read_exact (pos width)) (to_bytes width n) (to_bytes width n) =
      rw (length-to_bytes width n) at (Reads-exact (to_bytes width n)) in
    rw (append-nil, from_bytes-to_bytes width n h) at
      (Reads-bind (read_exact (pos width)) (λ value. pure (pos (from_bytes value))) exact
        (Reads-pure (pos (from_bytes (to_bytes width n)))))

module _ (bits width : ℕ) (positive : 0 < 2 ^ bits) (wide : 2 ^ bits ≡ 256 ^ width) where
  Codec-uint :
      (v : ℤ)
      → Codec
          (do n ← lift (validate_uint v bits); write_bytes (to_bytes width n))
          (do value ← read_exact (pos width); pure (pos (from_bytes value)))
          v
  Codec-uint v =
      Writes-lift (Reads (do value ← read_exact (pos width); pure (pos (from_bytes value))) v)
        (validate_uint v bits) (λ n. write_bytes (to_bytes width n))
        (λ n e.
          let (same, small) = valid_uint v bits n e in
          Writes-bytes _ (to_bytes width n)
            (rw same (Reads-uint width n (omega (arith, wide, positive)))))

pub Codec-u16 : (v : ℤ) → Codec (write_u16 v) read_u16 v
unfolding write_u16 read_u16
Codec-u16 = Codec-uint 16 2 (omega arith) refl

pub Codec-u32 : (v : ℤ) → Codec (write_u32 v) read_u32 v
unfolding write_u32 read_u32
Codec-u32 = Codec-uint 32 4 (omega arith) refl

Reads-u8 : (n : ℕ) → Reads read_u8 (pos n) (n ∷ [])
unfolding read_u8
Reads-u8 n =
    Reads-bind (read_exact (pos 1)) (λ value. lift (first value)) (Reads-exact (n ∷ []))
      (Reads-pure (pos n))

pub Codec-u8 : (v : ℤ) → Codec (write_u8 v) read_u8 v
unfolding write_u8
Codec-u8 v =
    Writes-lift (Reads read_u8 v) (validate_uint v 8) (λ n. write_bytes (n ∷ []))
      (λ n e. Writes-bytes _ (n ∷ []) (rw (valid_uint v 8 n e).0 (Reads-u8 n)))

-- The text behind its length, which has passed the test on it.
Reads-text :
    (raw text : List ℕ)
    → length raw ≤ 0xffff
    → utf8_decode raw ≡ ok text
    → Reads
        (do
          limit ← gets (λ r. r.max_string_bytes)
          raise_if (not (leb_ℤ (pos (length raw)) limit)) decode_error
          raw ← read_exact (pos (length raw))
          lift (or_decode_error (utf8_decode raw)))
        text
        raw
unfolding or_decode_error
Reads-text raw text small e = record {
  run = λ r rest at.
      let allowed : not (leb_ℤ (pos (length raw)) r.max_string_bytes) ≡ false =
        rw (at.limit, le→leb (length raw) 0xffff small) in
      rw (allowed, (Reads-exact raw).run r rest at, e);
}

pub Codec-string16 : (text : List ℕ) → Codec (write_string16 text) read_string16 text
unfolding write_string16 read_string16
Codec-string16 text = Writes-lift (Reads read_string16 text) (utf8_encode text) _ (λ raw e.
    Writes-raise_if (Reads read_string16 text) (ltb 0xffff (length raw)) encode_error _ (λ small.
      Codec-then (write_u16 (pos (length raw))) (write_bytes raw) read_u16 _
        (Codec-u16 (pos (length raw)))
        (Writes-bytes _ raw
          (Reads-text raw text (ground arith) (utf8_decode-utf8_encode text raw e)))))
