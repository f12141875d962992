-- ===== src/Transform/Valid.antt =====
-- transform.py: cursors over a key that the constructor accepts, and what each operation on a byte
-- does, in closed form.
use army.Common.{
  ℕ, zero, suc, ◌+◌, ◌-◌, ◌%◌, ◌≤◌, ◌<◌, bit_xor, ◌≡◌, refl, arith, some, List, [], ◌∷◌, length,
  get_elem?, le→leb, lt→ltb, ap,
}
use native.Mathlib.Nat.{mod-lt}
use army.Common.Bits.{bit_xor-lt, bit_xor_cancel}
use army.Bytes.{IsBytes}
use army.Exec.{ok}
use army.Transform.{ByteTransform, TransformCursor, cursor}
use army.Transform.{checkpoint, restore, xor_next, encode_command, decode_command}

-- What `__post_init__` grants of a transform.
pub record IsTransform (t : ByteTransform) : Type 0 where
  pub bytes : IsBytes t.key
  pub nonempty : 0 < length t.key
  pub short : length t.key ≤ 127
  pub shift_byte : t.shift < 256

pub record IsCursor (c : TransformCursor) : Type 0 where
  pub transform_valid : IsTransform c.transform
  pub in_key : c.index < length c.transform.key

-- The key byte under the cursor, and the cursor one place on.
abbrev byte_at : List ℕ → ℕ → ℕ
byte_at [] i = 0
byte_at (k ∷ ks) zero = k
byte_at (k ∷ ks) (suc i) = byte_at ks i

unfoldable pub key_byte : TransformCursor → ℕ
key_byte c = byte_at c.transform.key c.index

unfoldable pub next : TransformCursor → TransformCursor
next c = record c { index = (c.index + 1) % length c.transform.key }

byte_at_lem : (ks : List ℕ) (i : ℕ) → i < length ks → get_elem? ks i ≡ some (byte_at ks i)
byte_at_lem [] i h = absurd (omega arith)
byte_at_lem (k ∷ ks) zero h = refl
byte_at_lem (k ∷ ks) (suc i) h = byte_at_lem ks i (omega arith)

byte_at-IsByte : (ks : List ℕ) (i : ℕ) → IsBytes ks → byte_at ks i < 256
byte_at-IsByte [] i h = omega arith
byte_at-IsByte (k ∷ ks) zero h = h.0
byte_at-IsByte (k ∷ ks) (suc i) h = byte_at-IsByte ks i h.1

pub key_byte-IsByte : (c : TransformCursor) → IsCursor c → key_byte c < 256
unfolding key_byte
key_byte-IsByte c v = byte_at-IsByte c.transform.key c.index v.transform_valid.bytes

pub next-IsCursor : (c : TransformCursor) → IsCursor c → IsCursor (next c)
unfolding next
next-IsCursor c v = record {
  transform_valid = v.transform_valid;
  in_key = mod-lt (c.index + 1) v.transform_valid.nonempty;
}

pub xor_next-eq :
    (value : ℕ) (c : TransformCursor)
    → IsCursor c
    → value < 256
    → xor_next value c ≡ (ok (bit_xor value (key_byte c)), next c)
unfolding xor_next key_byte next
xor_next-eq value c v h =
    rw (le→leb value 255 (omega arith), byte_at_lem c.transform.key c.index v.in_key)

-- A command on the wire, and back.
unfoldable pub hide : TransformCursor → ℕ → ℕ
hide c command = bit_xor ((command + c.transform.shift) % 256) (key_byte c)

unfoldable pub reveal : TransformCursor → ℕ → ℕ
reveal c raw = (bit_xor raw (key_byte c) + 256 - c.transform.shift) % 256

module _ (c : TransformCursor) (v : IsCursor c) where
  pub encode_command-eq :
      (command : ℕ) → command < 256 → encode_command command c ≡ (ok (hide c command), next c)
  unfolding encode_command hide
  encode_command-eq command h = rw (
    le→leb command 255 (omega arith),
    xor_next-eq ((command + c.transform.shift) % 256) c v (omega arith),
  )

  pub decode_command-eq : (raw : ℕ) → raw < 256 → decode_command raw c ≡ (ok (reveal c raw), next c)
  unfolding decode_command reveal next
  decode_command-eq raw h = rw (xor_next-eq raw c v h)

  pub hide-IsByte : (command : ℕ) → hide c command < 256
  unfolding hide
  hide-IsByte command = bit_xor-lt 8 _ _ (omega arith) (key_byte-IsByte c v)

  pub reveal-IsByte : (raw : ℕ) → reveal c raw < 256
  unfolding reveal
  reveal-IsByte raw = omega arith

  pub reveal-hide : (command : ℕ) → command < 256 → reveal c (hide c command) ≡ command
  unfolding reveal hide
  reveal-hide command h = rw bit_xor_cancel (omega (arith, v.transform_valid.shift_byte))

-- A run of data bytes under the key, and the cursor after `n` bytes.
unfoldable pub mask : TransformCursor → List ℕ → List ℕ
mask c [] = []
mask c (b ∷ bs) = bit_xor b (key_byte c) ∷ mask (next c) bs

unfoldable pub skip : ℕ → TransformCursor → TransformCursor
skip zero c = c
skip (suc n) c = skip n (next c)

pub skip-IsCursor : (n : ℕ) (c : TransformCursor) → IsCursor c → IsCursor (skip n c)
unfolding skip
skip-IsCursor zero c v = v
skip-IsCursor (suc n) c v = skip-IsCursor n (next c) (next-IsCursor c v)

pub mask-mask : (c : TransformCursor) (bs : List ℕ) → mask c (mask c bs) ≡ bs
unfolding mask
mask-mask c [] = refl
mask-mask c (b ∷ bs) = rw (bit_xor_cancel, mask-mask (next c) bs)

pub length-mask : (c : TransformCursor) (bs : List ℕ) → length (mask c bs) ≡ length bs
unfolding mask
length-mask c [] = refl
length-mask c (b ∷ bs) = ap suc (length-mask (next c) bs)

pub mask-IsBytes :
    (c : TransformCursor) (bs : List ℕ) → IsCursor c → IsBytes bs → IsBytes (mask c bs)
unfolding mask
mask-IsBytes c [] v h = tt
mask-IsBytes c (b ∷ bs) v h =
    (bit_xor-lt 8 _ _ h.0 (key_byte-IsByte c v), mask-IsBytes (next c) bs (next-IsCursor c v) h.1)

pub cursor-IsCursor : (t : ByteTransform) → IsTransform t → IsCursor (cursor t)
unfolding cursor
cursor-IsCursor t v = record { transform_valid = v; in_key = v.nonempty }

-- A checkpoint of a valid cursor can be restored, whatever moved in between.
pub restore-eq :
    (c d : TransformCursor)
    → IsCursor c
    → d.transform ≡ c.transform
    → restore (checkpoint c) d ≡ (ok tt, c)
unfolding restore checkpoint
restore-eq c d v same = rw (same, lt→ltb c.index (length c.transform.key) v.in_key)
