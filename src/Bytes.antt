-- ===== src/Bytes.antt =====
-- Bytes, and Python's big-endian `int.to_bytes` and `int.from_bytes`.
use army.Common.{
  ℕ, zero, suc, ◌+◌, ◌*◌, ◌/◌, ◌%◌, ◌^◌, ◌<◌, ◌≡◌, refl, arith, List, [], ◌∷◌, ◌++◌, length,
  length-append, All, All-append,
}
use native.Mathlib.Nat.{pow-suc}

abbrev pub IsByte : ℕ → Type 0
IsByte b = b < 256

abbrev pub IsBytes : List ℕ → Type 0
IsBytes = All IsByte

-- `n.to_bytes(width, "big")`, for an `n` that fits.
unfoldable pub to_bytes : ℕ → ℕ → List ℕ
to_bytes zero n = []
to_bytes (suc width) n = to_bytes width (n / 256) ++ (n % 256) ∷ []

from_digits : ℕ → List ℕ → ℕ
from_digits acc [] = acc
from_digits acc (b ∷ bs) = from_digits (acc * 256 + b) bs

-- `int.from_bytes(bs, "big")`
unfoldable pub from_bytes : List ℕ → ℕ
unfolding from_digits
from_bytes bs = from_digits 0 bs

from_digits-snoc :
    (acc : ℕ) (bs : List ℕ) (b : ℕ) → from_digits acc (bs ++ b ∷ []) ≡ from_digits acc bs * 256 + b
unfolding from_digits
from_digits-snoc acc [] b = refl
from_digits-snoc acc (d ∷ bs) b = from_digits-snoc (acc * 256 + d) bs b

-- A number below 256 ^ width is read back.
pub from_bytes-to_bytes : (width n : ℕ) → n < 256 ^ width → from_bytes (to_bytes width n) ≡ n
unfolding from_bytes to_bytes
from_bytes-to_bytes zero n h = omega arith
from_bytes-to_bytes (suc w) n h =
    rw from_digits-snoc
      (omega (arith, from_bytes-to_bytes w (n / 256) (omega (arith, pow-suc 256 w))))

pub length-to_bytes : (width n : ℕ) → length (to_bytes width n) ≡ width
unfolding to_bytes
length-to_bytes zero n = refl
length-to_bytes (suc w) n =
    omega
      (arith, length-append (to_bytes w (n / 256)) ((n % 256) ∷ []), length-to_bytes w (n / 256))

pub to_bytes-IsBytes : (width n : ℕ) → IsBytes (to_bytes width n)
unfolding to_bytes
to_bytes-IsBytes zero n = tt
to_bytes-IsBytes (suc w) n =
    All-append IsByte (to_bytes w (n / 256)) ((n % 256) ∷ []) (to_bytes-IsBytes w (n / 256))
      (omega arith)
