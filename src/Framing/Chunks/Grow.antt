-- ===== src/Framing/Chunks/Grow.antt =====
-- framing.py: what `_decode_one` sees when more bytes follow in the buffer.
use army.Common.{
  ℕ, ◌≤◌, ◌<◌, ◌≡◌, ◌≢◌, refl, arith, Bool, Option, List, [], ◌∷◌, ◌++◌, length, length-append,
  take, drop, take-append, drop-append, ltb, Bool-cases, inl, inr, length-drop, All-drop,
}
use mathlib.Core.Path.{subst}
use army.Bytes.{IsByte, IsBytes, from_bytes}
use army.Transform.{TransformCursor}
use army.Framing.{FrameDirection, Packet, FrameStreamDecoder, uses_length32, length_width}
use army.Framing.Cursor.{HasCursor, reveal?, next?, next?-HasCursor}
use army.Framing.Parse.{Parsed, incomplete, oversized, frame, clear, after, parse_payload}
use army.Framing.Parse.{parse_size, parse, parsed, IsDecoder, after-HasCursor}

abbrev pub grow : List ℕ → Parsed → Parsed
grow more incomplete = incomplete
grow more oversized = oversized
grow more (frame p rest c) = frame p (rest ++ more) c

module _ (limit : ℕ) (length32 : Bool) (command : ℕ) (more : List ℕ) where
  payload-grow :
      (size : ℕ) (c : Option TransformCursor) (bytes : List ℕ)
      → parse_payload limit length32 command size c bytes ≢ incomplete
      → parse_payload limit length32 command size c (bytes ++ more)
        ≡ grow more (parse_payload limit length32 command size c bytes)
  unfolding parse_payload
  payload-grow size c bytes h =
      ground
        (arith, length-append bytes more, take-append size bytes more, drop-append size bytes more)

  size-grow :
      (c : Option TransformCursor) (bytes : List ℕ)
      → parse_size limit length32 command c bytes ≢ incomplete
      → parse_size limit length32 command c (bytes ++ more)
        ≡ grow more (parse_size limit length32 command c bytes)
  unfolding parse_size
  size-grow c bytes h = ground (
    arith,
    length-append bytes more,
    take-append (length_width length32) bytes more,
    drop-append (length_width length32) bytes more,
    payload-grow (from_bytes (clear length32 c (take (length_width length32) bytes)))
        (after length32 (length_width length32) c) (drop (length_width length32) bytes),
  )

pub parse-grow :
    (direction : FrameDirection) (limit : ℕ) (c : Option TransformCursor) (bytes more : List ℕ)
    → parse direction limit c bytes ≢ incomplete
    → parse direction limit c (bytes ++ more) ≡ grow more (parse direction limit c bytes)
unfolding parse
parse-grow direction limit c [] more h = absurd (h refl)
parse-grow direction limit c (raw ∷ bytes) more h =
    size-grow limit (uses_length32 (reveal? c raw) direction) (reveal? c raw) more (next? c) bytes h

-- What is left behind a frame: fewer bytes, a cursor in its key.
abbrev Leaves : List ℕ → Parsed → Type 0
Leaves bytes incomplete = Unit {0}
Leaves bytes oversized = Unit {0}
Leaves bytes (frame p rest c) = (length rest ≤ length bytes) × HasCursor c × IsBytes rest

module _ (limit : ℕ) (length32 : Bool) (command : ℕ) (c : Option TransformCursor) (bytes : List ℕ)
    (v : HasCursor c) (h : IsBytes bytes) where
  payload-Leaves : (size : ℕ) → Leaves bytes (parse_payload limit length32 command size c bytes)
  unfolding parse_payload
  payload-Leaves size = elim (Bool-cases (ltb limit size)) [
    | inl over ↦ rw over tt
    | inr under ↦ elim (Bool-cases (ltb (length bytes) size)) [
      | inl short ↦ rw (under, short) tt
      | inr long ↦
          rw (under, long)
            (
              omega (arith, length-drop size bytes),
              after-HasCursor length32 size c v,
              All-drop IsByte size bytes h,
            )
    ]
  ]

Leaves-mono :
    (few many : List ℕ) (r : Parsed) → length few ≤ length many → Leaves few r → Leaves many r
Leaves-mono few many incomplete h l = tt
Leaves-mono few many oversized h l = tt
Leaves-mono few many (frame p rest c) h l = (omega arith, l.1, l.2)

size-Leaves :
    (limit : ℕ) (length32 : Bool) (command : ℕ) (c : Option TransformCursor) (bytes : List ℕ)
    → HasCursor c
    → IsBytes bytes
    → Leaves bytes (parse_size limit length32 command c bytes)
unfolding parse_size
size-Leaves limit length32 command c bytes v h =
    elim (Bool-cases (ltb (length bytes) (length_width length32))) [
      | inl short ↦ rw short tt
      | inr long ↦ rw long (
          Leaves-mono (drop (length_width length32) bytes) bytes _
            (omega (arith, length-drop (length_width length32) bytes))
            (payload-Leaves limit length32 command (after length32 (length_width length32) c)
              (drop (length_width length32) bytes)
              (after-HasCursor length32 (length_width length32) c v)
              (All-drop IsByte (length_width length32) bytes h)
              (from_bytes (clear length32 c (take (length_width length32) bytes)))))
    ]

-- A frame takes a byte at least, and leaves a decoder as valid as it was.
pub frame-IsDecoder :
    (d : FrameStreamDecoder) (p : Packet) (rest : List ℕ) (c : Option TransformCursor)
    → IsDecoder d
    → parsed d ≡ frame p rest c
    → (length rest < length d.buffer) × IsDecoder (record d { cursor = c; buffer = rest })
unfolding parse
frame-IsDecoder d p rest c v e = shrinks d.buffer v.bytes e
  where
    leaves :
        (bytes : List ℕ) (r : Parsed)
        → r ≡ frame p rest c
        → Leaves bytes r
        → (length rest ≤ length bytes) × HasCursor c × IsBytes rest
    leaves bytes r e l = subst (Leaves bytes) e l

    shrinks :
        (buffer : List ℕ)
        → IsBytes buffer
        → parse d.direction d.max_payload_bytes d.cursor buffer ≡ frame p rest c
        → (length rest < length buffer) × IsDecoder (record d { cursor = c; buffer = rest })
    shrinks [] h e = cc
    shrinks (raw ∷ bytes) h e =
        let (le, vc, hb) = leaves bytes _ e (
          size-Leaves d.max_payload_bytes (uses_length32 (reveal? d.cursor raw) d.direction)
            (reveal? d.cursor raw) (next? d.cursor) bytes (next?-HasCursor d.cursor v.has_cursor)
            h.1) in
        (omega arith, record { has_cursor = vc; bytes = hb })
