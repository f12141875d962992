-- ===== src/Utf8.antt =====
-- Python's `str.encode("utf-8", errors="strict")` and `bytes.decode("utf-8", errors="strict")`, which
-- server/army3_protocol/primitives.py calls. A text is the list of its code points; a `str` has none
-- above 0x10FFFF, and may have surrogates, which the strict codec refuses.
pub mod RoundTrip
mod Runs
use army.Common.{ℕ, zero, suc, ◌+◌, ◌-◌, ◌*◌, ◌/◌, ◌%◌, Bool, true, false, ◌&&◌, ◌||◌}
use army.Common.{Option, none, some, List, [], ◌∷◌, ◌++◌, ltb, leb, if◌then◌else◌}
use army.Exec.{Result, ok, err, Error, unicode_encode_error, unicode_decode_error}

unfoldable pub is_scalar : ℕ → Bool
is_scalar c = ltb c 0xd800 || leb 0xe000 c && ltb c 0x110000

unfoldable pub encode_char : ℕ → List ℕ
encode_char c =
    if ltb c 0x80
    then c ∷ []
    else if ltb c 0x800
    then (0xc0 + c / 64) ∷ (0x80 + c % 64) ∷ []
    else if ltb c 0x10000
    then (0xe0 + c / 4096) ∷ (0x80 + c / 64 % 64) ∷ (0x80 + c % 64) ∷ []
    else (0xf0 + c / 262144) ∷ (0x80 + c / 4096 % 64) ∷ (0x80 + c / 64 % 64) ∷ (0x80 + c % 64) ∷ []

abbrev pub in_front : List ℕ → Result (List ℕ) → Result (List ℕ)
in_front xs (ok ys) = ok (xs ++ ys)
in_front xs (err e) = err e

unfoldable pub utf8_encode : List ℕ → Result (List ℕ)
utf8_encode [] = ok []
utf8_encode (c ∷ text) =
    let rest = utf8_encode text in
    if is_scalar c then in_front (encode_char c) rest else err unicode_encode_error

-- Between two characters, or inside one: `more` continuation bytes are wanted behind the next one,
-- which must lie in the given range; `so_far` holds the bits that have been read.
pub data Utf8State : Type 0 where
  start : Utf8State
  inside : ℕ → ℕ → ℕ → ℕ → Utf8State

-- The next state, and the character that the byte completes.
abbrev pub Utf8Step : Type 0
Utf8Step = Option (Utf8State × List ℕ)

-- The ranges of the second byte exclude overlong forms, surrogates and numbers above 0x10FFFF.
unfoldable pub lead_byte : ℕ → Utf8Step
lead_byte b =
    if ltb b 0x80
    then some (start, b ∷ [])
    else if ltb b 0xc2
    then none
    else if ltb b 0xe0
    then some (inside 0 (b - 0xc0) 0x80 0xbf, [])
    else if ltb b 0xf0
    then some (
      inside 1 (b - 0xe0) (if leb b 0xe0 then 0xa0 else 0x80)
          (if leb b 0xec || leb 0xee b then 0xbf else 0x9f),
      [],
    )
    else if ltb b 0xf5
    then some (
      inside 2 (b - 0xf0) (if leb b 0xf0 then 0x90 else 0x80) (if leb b 0xf3 then 0xbf else 0x8f),
      [],
    )
    else none

unfoldable pub next_byte : ℕ → ℕ → ℕ → Utf8Step
next_byte zero so_far b = some (start, (so_far * 64 + (b - 0x80)) ∷ [])
next_byte (suc more) so_far b = some (inside more (so_far * 64 + (b - 0x80)) 0x80 0xbf, [])

unfoldable pub utf8_step : Utf8State → ℕ → Utf8Step
unfolding lead_byte next_byte
utf8_step start b = lead_byte b
utf8_step (inside more so_far low high) b =
    if leb low b && leb b high then next_byte more so_far b else none

unfoldable pub decode_from : Utf8State → List ℕ → Result (List ℕ)
decode_from start [] = ok []
decode_from (inside more so_far low high) [] = err unicode_decode_error
decode_from s (b ∷ bytes) = elim (utf8_step s b) [
  | none ↦ err unicode_decode_error
  | some (s', chars) ↦ in_front chars (decode_from s' bytes)
]

unfoldable pub utf8_decode : List ℕ → Result (List ℕ)
unfolding decode_from
utf8_decode = decode_from start
