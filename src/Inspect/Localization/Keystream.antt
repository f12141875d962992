-- ===== src/Inspect/Localization/Keystream.antt =====
-- tools/inspect_runtime_state.py: the generator of the mask in `_localization_text`.
use army.Common.{ℕ, suc, ◌*◌, ◌/◌, ◌%◌, ◌^◌, ◌<◌, ◌≡◌, refl, arith, List, [], ◌∷◌, length, ap}
use army.Common.Bits.{bit_xor_cancel, bit_xor-lt}
use army.Common.Int.{ℤ, pos, negsuc}
use army.Bytes.{IsBytes}
use army.Inspect.Localization.{
  low_word, first_state, shifted_left, shifted_right, next_state, masked,
}

low_word-lt : (x : ℤ) → low_word x < 2 ^ 32
low_word-lt (pos n) = omega arith
low_word-lt (negsuc n) = omega arith

left-lt : (n state : ℕ) → state < 2 ^ 32 → shifted_left n state < 2 ^ 32
left-lt n state h = bit_xor-lt 32 state ((state * 2 ^ n) % 2 ^ 32) h (omega arith)

right-lt : (state : ℕ) → state < 2 ^ 32 → shifted_right 17 state < 2 ^ 32
right-lt state h = bit_xor-lt 32 state (state / 2 ^ 17) h (omega arith)

small : (x : ℕ) → x < 2 ^ 32 → x % 2 ^ 32 ≡ x
small x h = omega arith

-- What the generator does to a state of 32 bits.
pub record IsRound (state : ℕ) : Type 0 where
  pub first : shifted_left 13 state < 2 ^ 32
  pub second : shifted_right 17 (shifted_left 13 state) < 2 ^ 32
  pub unmasked : next_state state ≡ shifted_left 5 (shifted_right 17 (shifted_left 13 state))
  pub bounded : next_state state < 2 ^ 32

-- The generator starts with 32 bits whatever the identifier is, and a round takes a state of 32 bits over
-- states of 32 bits to one of 32 bits, so the last `state &= 0xFFFFFFFF` of a round changes nothing.
pub state-IsRound :
    (text_id state : ℕ) → state < 2 ^ 32 → (first_state text_id < 2 ^ 32) × IsRound state
unfolding first_state next_state
state-IsRound text_id state h =
    let one = left-lt 13 state h in
    let two = right-lt (shifted_left 13 state) one in
    let three = left-lt 5 (shifted_right 17 (shifted_left 13 state)) two in
    (
      bit_xor-lt 32 (low_word _) 0x046480df (low_word-lt _) (omega arith),
      record { first = one; second = two; unmasked = small _ three; bounded = omega arith },
    )

-- The mask is taken off by the function that puts it on.
pub masked-masked : (state : ℕ) (bytes : List ℕ) → masked state (masked state bytes) ≡ bytes
unfolding masked
masked-masked state [] = refl
masked-masked state (b ∷ bytes) =
    rw (bit_xor_cancel b (next_state state % 256), masked-masked (next_state state) bytes) refl

pub length-masked : (state : ℕ) (bytes : List ℕ) → length (masked state bytes) ≡ length bytes
unfolding masked
length-masked state [] = refl
length-masked state (b ∷ bytes) = ap suc (length-masked (next_state state) bytes)

pub masked-IsBytes : (state : ℕ) (bytes : List ℕ) → IsBytes bytes → IsBytes (masked state bytes)
unfolding masked
masked-IsBytes state [] h = tt
masked-IsBytes state (b ∷ bytes) h = (
  bit_xor-lt 8 b (next_state state % 256) h.0 (omega arith),
  masked-IsBytes (next_state state) bytes h.1,
)
