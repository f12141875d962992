-- ===== src/Inspect/Decoding.antt =====
-- The decoders of text that tools/inspect_runtime_state.py uses, with errors="replace".
pub mod RoundTrip
use army.Common.{
  ℕ, zero, suc, ◌+◌, ◌-◌, ◌*◌, ◌/◌, ◌%◌, Bool, true, false, ◌&&◌, Option, none, some, List, [], ◌∷◌,
  ◌++◌, if◌then◌else◌, ltb, leb, ◌==◌,
}
use army.Utf8.{Utf8State, start, inside, Utf8Step, utf8_step}

-- U+FFFD
abbrev pub replacement : ℕ
replacement = 0xfffd

-- A byte that does not continue a character ends it, and begins another.
abbrev at_start : Utf8Step → Utf8State × List ℕ
at_start none = (start, replacement ∷ [])
at_start (some step) = step

abbrev next_state : Utf8State → ℕ → Utf8State × List ℕ
next_state start b = at_start (utf8_step start b)
next_state (inside more so_far low high) b = elim (utf8_step (inside more so_far low high) b) [
  | some step ↦ step
  | none ↦ let (s, chars) = at_start (utf8_step start b) in (s, replacement ∷ chars)
]

unfoldable pub utf8_from : Utf8State → List ℕ → List ℕ
utf8_from start [] = []
utf8_from (inside more so_far low high) [] = replacement ∷ []
utf8_from s (b ∷ bytes) = let (s', chars) = next_state s b in chars ++ utf8_from s' bytes

-- `bytes.decode("utf-8", errors="replace")`
unfoldable pub utf8_replacing : List ℕ → List ℕ
utf8_replacing bytes = utf8_from start bytes

-- `raw.split(b"\0", 1)[0]`
unfoldable pub before_zero : List ℕ → List ℕ
before_zero [] = []
before_zero (zero ∷ bytes) = []
before_zero (suc b ∷ bytes) = suc b ∷ before_zero bytes

-- Units of 16 bits: the first and the second one of a pair.
unfoldable pub is_high : ℕ → Bool
is_high unit = leb 0xd800 unit && leb unit 0xdbff

unfoldable pub is_low : ℕ → Bool
is_low unit = leb 0xdc00 unit && leb unit 0xdfff

abbrev paired : ℕ → ℕ → ℕ
paired high low = 0x10000 + (high - 0xd800) * 0x400 + (low - 0xdc00)

-- The characters of units behind one: a first one of a pair that waits, or none; an odd byte is at the
-- end if there is one.
abbrev behind_units : Option ℕ → Bool → List ℕ
behind_units none false = []
behind_units none true = replacement ∷ []
behind_units (some high) odd = replacement ∷ []

unfoldable pub from_units : Option ℕ → List ℕ → Bool → List ℕ
from_units waiting [] odd = behind_units waiting odd
from_units none (unit ∷ units) odd =
    let wait = from_units (some unit) units odd in
    let next = from_units none units odd in
    if is_high unit then wait else if is_low unit then replacement ∷ next else unit ∷ next
from_units (some high) (unit ∷ units) odd =
    let wait = from_units (some unit) units odd in
    let next = from_units none units odd in
    if is_low unit
    then paired high unit ∷ next
    else if is_high unit
    then replacement ∷ wait
    else replacement ∷ unit ∷ next

abbrev units_of : List ℕ → List ℕ
units_of [] = []
units_of (a ∷ []) = []
units_of (a ∷ b ∷ bytes) = (a + 256 * b) ∷ units_of bytes

abbrev is_odd : List ℕ → Bool
is_odd [] = false
is_odd (a ∷ []) = true
is_odd (a ∷ b ∷ bytes) = is_odd bytes

-- `bytes.decode("utf-16-le", errors="replace")`
unfoldable pub utf16_replacing : List ℕ → List ℕ
utf16_replacing bytes = from_units none (units_of bytes) (is_odd bytes)
