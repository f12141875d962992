-- ===== src/Utf8/RoundTrip.antt =====
-- The bytes of an encoded text, and how they are decoded.
use army.Common.{
  ℕ, suc, ◌+◌, ◌-◌, ◌*◌, ◌/◌, ◌%◌, ◌≤◌, ◌<◌, ◌≡◌, refl, sym, arith, All-append, true, ◌||◌, ap, ◌∙◌,
  some, List, [], ◌∷◌, ◌++◌, ltb, leb, Bool-cases, inl, inr, if◌then◌else◌,
}
use army.Bytes.{IsByte, IsBytes}
use army.Exec.{Result, ok, err, Result-cases}
use army.Utf8.{is_scalar, encode_char, in_front, utf8_encode, Utf8State, start, inside, utf8_step}
use army.Utf8.{next_byte, decode_from, utf8_decode}

-- One byte at a time.
step-some :
    (s s' : Utf8State) (b : ℕ) (chars bytes : List ℕ)
    → utf8_step s b ≡ some (s', chars)
    → decode_from s (b ∷ bytes) ≡ in_front chars (decode_from s' bytes)
unfolding decode_from
step-some start s' b chars bytes e = rw (e, decode_from)
step-some (inside m a l h) s' b chars bytes e = rw (e, decode_from)

continuation :
    (more so_far low high b : ℕ)
    → low ≤ b
    → b ≤ high
    → utf8_step (inside more so_far low high) b ≡ next_byte more so_far b
unfolding utf8_step
continuation more so_far low high b p q = ground arith

lead_two :
    (c : ℕ)
    → 0x80 ≤ c
    → c < 0x800
    → utf8_step start (0xc0 + c / 64) ≡ some (inside 0 (c / 64) 0x80 0xbf, [])
unfolding utf8_step
lead_two c p q = ground arith

lead_three :
    (c : ℕ)
    → 0x800 ≤ c
    → c < 0x10000
    → is_scalar c ≡ true
    → (low : ℕ) × (high : ℕ) × (utf8_step start (0xe0 + c / 4096)
        ≡ some (inside 1 (c / 4096) low high, []))
      × (low ≤ 0x80 + c / 64 % 64)
      × (0x80 + c / 64 % 64 ≤ high)
unfolding utf8_step is_scalar
lead_three c p q s = (
  if leb (0xe0 + c / 4096) 0xe0 then 0xa0 else 0x80,
  if leb (0xe0 + c / 4096) 0xec || leb 0xee (0xe0 + c / 4096) then 0xbf else 0x9f,
  ground arith,
  ground arith,
  ground arith,
)

lead_four :
    (c : ℕ)
    → 0x10000 ≤ c
    → is_scalar c ≡ true
    → (low : ℕ) × (high : ℕ) × (utf8_step start (0xf0 + c / 262144)
        ≡ some (inside 2 (c / 262144) low high, []))
      × (low ≤ 0x80 + c / 4096 % 64)
      × (0x80 + c / 4096 % 64 ≤ high)
unfolding utf8_step is_scalar
lead_four c p s = (
  if leb (0xf0 + c / 262144) 0xf0 then 0x90 else 0x80,
  if leb (0xf0 + c / 262144) 0xf3 then 0xbf else 0x8f,
  ground arith,
  ground arith,
  ground arith,
)

lead_one : (c : ℕ) → c < 0x80 → utf8_step start c ≡ some (start, c ∷ [])
unfolding utf8_step
lead_one c p = ground arith

-- The last continuation byte completes the character, and one before it does not.
last_byte :
    (so_far low high b c : ℕ) (rest : List ℕ)
    → low ≤ b
    → b ≤ high
    → so_far * 64 + (b - 0x80) ≡ c
    → decode_from (inside 0 so_far low high) (b ∷ rest) ≡ in_front (c ∷ []) (decode_from start rest)
unfolding next_byte
last_byte so_far low high b c rest p q e =
    step-some (inside 0 so_far low high) start b (c ∷ []) rest
      (rw (continuation 0 so_far low high b p q, e))

in_front-nil : (r : Result (List ℕ)) → in_front [] r ≡ r
in_front-nil (ok xs) = refl
in_front-nil (err e) = refl

middle_byte :
    (more so_far low high b so_far' : ℕ) (rest : List ℕ)
    → low ≤ b
    → b ≤ high
    → so_far * 64 + (b - 0x80) ≡ so_far'
    → decode_from (inside (suc more) so_far low high) (b ∷ rest)
      ≡ decode_from (inside more so_far' 0x80 0xbf) rest
unfolding next_byte
middle_byte more so_far low high b so_far' rest p q e =
    step-some (inside (suc more) so_far low high) (inside more so_far' 0x80 0xbf) b [] rest
      (rw (continuation (suc more) so_far low high b p q, e))
    ∙ in_front-nil (decode_from (inside more so_far' 0x80 0xbf) rest)

first_byte :
    (b : ℕ) (s : Utf8State) (rest : List ℕ)
    → utf8_step start b ≡ some (s, [])
    → decode_from start (b ∷ rest) ≡ decode_from s rest
first_byte b s rest e = step-some start s b [] rest e ∙ in_front-nil (decode_from s rest)

module _ (c : ℕ) (scalar : is_scalar c ≡ true) (rest : List ℕ) where
  abbrev Decodes : List ℕ → Type 0
  Decodes bytes = decode_from start (bytes ++ rest) ≡ in_front (c ∷ []) (decode_from start rest)

  two_bytes : 0x80 ≤ c → c < 0x800 → Decodes ((0xc0 + c / 64) ∷ (0x80 + c % 64) ∷ [])
  two_bytes p q =
      first_byte (0xc0 + c / 64) (inside 0 (c / 64) 0x80 0xbf) _ (lead_two c p q)
      ∙ last_byte (c / 64) 0x80 0xbf (0x80 + c % 64) c rest (omega arith) (omega arith)
          (omega arith)

  three_bytes :
      0x800 ≤ c
      → c < 0x10000
      → Decodes ((0xe0 + c / 4096) ∷ (0x80 + c / 64 % 64) ∷ (0x80 + c % 64) ∷ [])
  three_bytes p q =
      let (low, high, lead, above, below) = lead_three c p q scalar in
      first_byte (0xe0 + c / 4096) (inside 1 (c / 4096) low high) _ lead
      ∙ middle_byte 0 (c / 4096) low high (0x80 + c / 64 % 64) (c / 64) _ above below (omega arith)
      ∙ last_byte (c / 64) 0x80 0xbf (0x80 + c % 64) c rest (omega arith) (omega arith)
          (omega arith)

  four_bytes :
      0x10000 ≤ c
      → Decodes (
          (0xf0 + c / 262144)
          ∷ (0x80 + c / 4096 % 64)
          ∷ (0x80 + c / 64 % 64)
          ∷ (0x80 + c % 64)
          ∷ [])
  four_bytes p =
      let (low, high, lead, above, below) = lead_four c p scalar in
      first_byte (0xf0 + c / 262144) (inside 2 (c / 262144) low high) _ lead
      ∙ middle_byte 1 (c / 262144) low high (0x80 + c / 4096 % 64) (c / 4096) _ above below
          (omega arith)
      ∙ middle_byte 0 (c / 4096) 0x80 0xbf (0x80 + c / 64 % 64) (c / 64) _ (omega arith)
          (omega arith) (omega arith)
      ∙ last_byte (c / 64) 0x80 0xbf (0x80 + c % 64) c rest (omega arith) (omega arith)
          (omega arith)

  decode-encode_char : Decodes (encode_char c)
  unfolding encode_char
  decode-encode_char = elim (Bool-cases (ltb c 0x80)) [
    | inl one ↦ rw one (step-some start start c (c ∷ []) rest (lead_one c (ground arith)))
    | inr more ↦ elim (Bool-cases (ltb c 0x800)) [
      | inl two ↦ rw (more, two) (two_bytes (ground arith) (ground arith))
      | inr more' ↦ elim (Bool-cases (ltb c 0x10000)) [
        | inl three ↦ rw (more, more', three) (three_bytes (ground arith) (ground arith))
        | inr four ↦ rw (more, more', four) (four_bytes (ground arith))
      ]
    ]
  ]

module _ (c : ℕ) (text bytes : List ℕ) (e : utf8_encode (c ∷ text) ≡ ok bytes) where
  encode-cons :
      (bs : List ℕ) × (is_scalar c ≡ true)
      × (utf8_encode text ≡ ok bs)
      × (bytes ≡ encode_char c ++ bs)
  unfolding utf8_encode
  encode-cons = elim (Bool-cases (is_scalar c)) [
    | inr lone ↦ absurd (cc (rw (lone, utf8_encode) at e))
    | inl scalar ↦ elim (Result-cases (utf8_encode text)) [
      | inl (bs, f) ↦ (bs, scalar, f, cc (rw (scalar, f) at e))
      | inr (x, f) ↦ absurd (cc (rw (scalar, f) at e))
    ]
  ]

-- A text that encodes is what its bytes decode to.
pub utf8_decode-utf8_encode :
    (text bytes : List ℕ) → utf8_encode text ≡ ok bytes → utf8_decode bytes ≡ ok text
unfolding utf8_decode
utf8_decode-utf8_encode [] bytes e =
    let empty : [] ≡ bytes = unfold utf8_encode in cc in rw (sym empty)
utf8_decode-utf8_encode (c ∷ text) bytes e =
    let (bs, scalar, f, same) = encode-cons c text bytes e in
    rw same
      (decode-encode_char c scalar bs ∙ ap (in_front (c ∷ [])) (utf8_decode-utf8_encode text bs f))

encode_char-IsBytes : (c : ℕ) → is_scalar c ≡ true → IsBytes (encode_char c)
unfolding is_scalar encode_char
encode_char-IsBytes c h = ground arith

pub utf8_encode-IsBytes : (text bytes : List ℕ) → utf8_encode text ≡ ok bytes → IsBytes bytes
utf8_encode-IsBytes [] bytes e =
    let empty : [] ≡ bytes = unfold utf8_encode in cc in rw (sym empty) tt
utf8_encode-IsBytes (c ∷ text) bytes e =
    let (bs, scalar, f, same) = encode-cons c text bytes e in
    rw same (
      All-append IsByte (encode_char c) bs (encode_char-IsBytes c scalar)
        (utf8_encode-IsBytes text bs f))
