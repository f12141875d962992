-- ===== src/Transform/Key.antt =====
-- `ByteTransform.from_seed` of transform.py against docs/protocol.md: `key[0] = seed[0]` and
-- `key[i] = seed[i] XOR key[i - 1]`.
use army.Common.{ℕ, suc, ◌≤◌, ◌<◌, bit_xor, ◌≡◌, refl, arith, List, [], ◌∷◌, length, ap}
use army.Common.Int.{ℤ, pos, negsuc}
use army.Common.Bits.{bit_xor_cancel, bit_xor-lt}
use army.Exec.{ok}
use army.Transform.{ByteTransform, byte_transform, xor_from, from_seed}
use army.Bytes.{IsByte, IsBytes}
use army.Transform.Valid.{IsTransform}

-- The seed that a key comes from: `key[i] XOR key[i - 1]`.
abbrev differences : ℕ → List ℕ → List ℕ
differences previous [] = []
differences previous (k ∷ ks) = bit_xor k previous ∷ differences k ks

abbrev pub seed_of : List ℕ → List ℕ
seed_of [] = []
seed_of (k ∷ ks) = k ∷ differences k ks

differences-xor_from : (p : ℕ) (bs : List ℕ) → differences p (xor_from p bs) ≡ bs
unfolding xor_from
differences-xor_from p [] = refl
differences-xor_from p (b ∷ bs) = rw (bit_xor_cancel, differences-xor_from (bit_xor b p) bs)

length-xor_from : (p : ℕ) (bs : List ℕ) → length (xor_from p bs) ≡ length bs
unfolding xor_from
length-xor_from p [] = refl
length-xor_from p (b ∷ bs) = ap suc (length-xor_from (bit_xor b p) bs)

xor_from-IsBytes : (p : ℕ) (bs : List ℕ) → IsByte p → IsBytes bs → IsBytes (xor_from p bs)
unfolding xor_from
xor_from-IsBytes p [] hp h = tt
xor_from-IsBytes p (b ∷ bs) hp h =
    let e : bit_xor b p < 256 = bit_xor-lt 8 b p h.0 hp in
    (e, xor_from-IsBytes (bit_xor b p) bs e h.1)

-- A transform that the constructor returns holds its arguments, and they are in range.
byte_transform_lem :
    (key : List ℕ) (shift : ℤ) (t : ByteTransform)
    → IsBytes key
    → byte_transform key shift ≡ ok t
    → (t.key ≡ key) × (shift ≡ pos t.shift) × IsTransform t
unfolding byte_transform
byte_transform_lem [] shift t h e = cc
byte_transform_lem (k ∷ key) (negsuc n) t h e = cc
byte_transform_lem (k ∷ key) (pos n) t h e = ground arith

-- On a seed of bytes, a transform that `from_seed` returns has the key whose consecutive
-- differences are the seed, it has the given shift, and it is valid.
pub from_seed_lem :
    (seed : List ℕ) (shift : ℤ) (t : ByteTransform)
    → IsBytes seed
    → from_seed seed shift ≡ ok t
    → (seed_of t.key ≡ seed) × (shift ≡ pos t.shift) × IsTransform t
unfolding from_seed
from_seed_lem [] shift t h e = cc
from_seed_lem (b ∷ rest) shift t h e =
    let (same, s, v) =
      byte_transform_lem (b ∷ xor_from b rest) shift t (h.0, xor_from-IsBytes b rest h.0 h.1) e in
    (rw (same, differences-xor_from b rest), s, v)

-- `from_seed` accepts a seed of 1 to 127 bytes with a shift of one byte.
pub from_seed-ok :
    (seed : List ℕ) (n : ℕ)
    → 0 < length seed
    → length seed ≤ 127
    → n ≤ 255
    → (t : ByteTransform) × (from_seed seed (pos n) ≡ ok t)
unfolding from_seed byte_transform
from_seed-ok [] n h1 h2 h3 = absurd (omega arith)
from_seed-ok (b ∷ rest) n h1 h2 h3 =
    (record { key = b ∷ xor_from b rest; shift = n }, ground (arith, length-xor_from b rest))
