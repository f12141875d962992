-- ===== src/Framing/RoundTrip.antt =====
-- `_decode_one` of framing.py on what `encode_frame` wrote.
use army.Common.{
  ℕ, ◌^◌, ◌≤◌, ◌<◌, ◌≡◌, refl, sym, ap, ◌∙◌, arith, Bool, true, false, Option, none, some, List,
  ◌∷◌, ◌++◌, length, length-append, take, drop, take-append_length, drop-append_length,
  append_assoc, ltb, le→ltb, Bool-cases, inl, inr, All-append,
}
use army.Bytes.{IsByte, IsBytes, to_bytes, from_bytes-to_bytes, length-to_bytes}
use army.Bytes.{to_bytes-IsBytes}
use army.Exec.{Result, ok, err, frame_error}
use army.Transform.{TransformCursor}
use army.Transform.Valid.{IsCursor, next, skip, encode_command-eq, next-IsCursor, skip-IsCursor}
use army.Framing.{FrameDirection, Packet, FrameStreamDecoder, uses_length32, length_width, maximum}
use army.Framing.{encode_frame, encode_with, decode_one}
use army.Framing.Cursor.{HasCursor, next?, hide?, encode_each-eq, unmask-unmask}
use army.Framing.Cursor.{
  length-unmask, unmask-IsBytes, reveal?-hide?, hide?-IsByte, next?-HasCursor,
}
use army.Framing.Parse.{frame, clear, after, after-HasCursor}
use army.Framing.Parse.{parse_payload, parse_size, parse, answer, decode_one-eq}

clear-clear : (b : Bool) (c : Option TransformCursor) (bs : List ℕ) → clear b c (clear b c bs) ≡ bs
clear-clear true c bs = refl
clear-clear false c bs = unmask-unmask c bs

length-clear :
    (b : Bool) (c : Option TransformCursor) (bs : List ℕ) → length (clear b c bs) ≡ length bs
length-clear true c bs = refl
length-clear false c bs = length-unmask c bs

clear-IsBytes :
    (b : Bool) (c : Option TransformCursor) (bs : List ℕ)
    → HasCursor c
    → IsBytes bs
    → IsBytes (clear b c bs)
clear-IsBytes true c bs v h = h
clear-IsBytes false c bs v h = unmask-IsBytes c bs v h

-- The bytes behind the command, and the cursor after the frame.
module _ (length32 : Bool) (p : Packet) (c : Option TransformCursor) where
  abbrev size_field : List ℕ
  size_field = to_bytes (length_width length32) (length p.payload)

  abbrev behind_size : Option TransformCursor
  behind_size = after length32 (length_width length32) (next? c)

  abbrev pub behind_frame : Option TransformCursor
  behind_frame = after length32 (length p.payload) behind_size

  abbrev pub wire : List ℕ
  wire =
      hide? c p.command ∷ clear length32 (next? c) size_field
      ++ clear length32 behind_size p.payload

module _ (p : Packet) (byte : p.command < 256) (bytes : IsBytes p.payload) where
  encode_with-eq :
      (length32 : Bool) (c : Option TransformCursor)
      → HasCursor c
      → encode_with p length32 (size_field length32 p c) c
        ≡ (ok (wire length32 p c), behind_frame length32 p c)
  unfolding encode_with
  encode_with-eq true none v = refl
  encode_with-eq false none v = refl
  encode_with-eq true (some c) v = rw (encode_command-eq c v p.command byte)
  encode_with-eq false (some c) v =
      let v1 : IsCursor (next c) = next-IsCursor c v in
      rw (
        encode_command-eq c v p.command byte,
        encode_each-eq (size_field false p none) (next c) v1
            (to_bytes-IsBytes 2 (length p.payload)),
        length-to_bytes 2 (length p.payload),
        encode_each-eq p.payload (skip 2 (next c)) (skip-IsCursor 2 (next c) v1) bytes,
      )

  pub encode_frame-eq :
      (direction : FrameDirection) (c : Option TransformCursor)
      → HasCursor c
      → length p.payload ≤ maximum (uses_length32 p.command direction)
      → encode_frame p direction c ≡ (
        ok (wire (uses_length32 p.command direction) p c),
        behind_frame (uses_length32 p.command direction) p c,
      )
  unfolding encode_frame
  encode_frame-eq direction c v fits =
      rw (le→ltb (maximum (uses_length32 p.command direction)) (length p.payload) fits)
        (encode_with-eq (uses_length32 p.command direction) c v)

  -- Reading the two fields back.
  module _ (limit : ℕ) (within : length p.payload ≤ limit) (rest : List ℕ) where
    parse_payload-wire :
        (length32 : Bool) (c : Option TransformCursor)
        → parse_payload limit length32 p.command
            (length p.payload)
            c
            (clear length32 c p.payload ++ rest)
          ≡ frame p rest (after length32 (length p.payload) c)
    unfolding parse_payload
    parse_payload-wire length32 c =
        let taken : take (length p.payload) (clear length32 c p.payload ++ rest)
            ≡ clear length32 c p.payload =
          rw (length-clear length32 c p.payload) at
            (take-append_length (clear length32 c p.payload) rest) in
        let dropped : drop (length p.payload) (clear length32 c p.payload ++ rest) ≡ rest =
          rw (length-clear length32 c p.payload) at
            (drop-append_length (clear length32 c p.payload) rest) in
        rw (
          le→ltb limit (length p.payload) within,
          le→ltb (length (clear length32 c p.payload ++ rest)) (length p.payload) (
              omega (
                arith,
                length-append (clear length32 c p.payload) rest,
                length-clear length32 c p.payload,
              )),
          taken,
          dropped,
          clear-clear length32 c p.payload,
        )

    size_fits :
        (length32 : Bool)
        → length p.payload ≤ maximum length32
        → length p.payload < 256 ^ length_width length32
    size_fits true h = omega arith
    size_fits false h = omega arith

    parse_size-wire :
        (length32 : Bool) (c : Option TransformCursor)
        → length p.payload ≤ maximum length32
        → parse_size limit length32 p.command c (
            clear length32 c (size_field length32 p none)
            ++ (clear length32 (after length32 (length_width length32) c) p.payload ++ rest))
          ≡ frame p rest
              (after length32 (length p.payload) (after length32 (length_width length32) c))
    unfolding parse_size
    parse_size-wire length32 c fits =
        let w : ℕ = length_width length32 in
        let field : List ℕ = clear length32 c (size_field length32 p none) in
        let tail : List ℕ = clear length32 (after length32 w c) p.payload ++ rest in
        let size : length field ≡ w =
          length-clear length32 c (size_field length32 p none)
          ∙ length-to_bytes w (length p.payload) in
        let taken : take w (field ++ tail) ≡ field = rw size at (take-append_length field tail) in
        let dropped : drop w (field ++ tail) ≡ tail = rw size at (drop-append_length field tail) in
        rw
          (
            le→ltb (length (field ++ tail)) w (omega (arith, size, length-append field tail)),
            taken,
            dropped,
            clear-clear length32 c (size_field length32 p none),
            from_bytes-to_bytes w (length p.payload) (size_fits length32 fits),
          )
          (parse_payload-wire length32 (after length32 w c))

    parse-wire :
        (direction : FrameDirection) (c : Option TransformCursor)
        → HasCursor c
        → length p.payload ≤ maximum (uses_length32 p.command direction)
        → parse direction limit c (wire (uses_length32 p.command direction) p c ++ rest)
          ≡ frame p rest (behind_frame (uses_length32 p.command direction) p c)
    unfolding parse
    parse-wire direction c v fits =
        let length32 : Bool = uses_length32 p.command direction in
        rw
          (
            reveal?-hide? c p.command v byte,
            append_assoc (clear length32 (next? c) (size_field length32 p c))
                (clear length32 (behind_size length32 p c) p.payload) rest,
          )
          (parse_size-wire length32 (next? c) fits)

  pub wire-IsBytes :
      (length32 : Bool) (c : Option TransformCursor) → HasCursor c → IsBytes (wire length32 p c)
  wire-IsBytes length32 c v =
      let v1 : HasCursor (next? c) = next?-HasCursor c v in
      (
        hide?-IsByte c p.command v byte,
        All-append IsByte (clear length32 (next? c) (size_field length32 p c))
            (clear length32 (behind_size length32 p c) p.payload)
            (clear-IsBytes length32 (next? c) (size_field length32 p c) v1
              (to_bytes-IsBytes (length_width length32) (length p.payload)))
            (clear-IsBytes length32 (behind_size length32 p c) p.payload
              (after-HasCursor length32 (length_width length32) (next? c) v1) bytes),
      )

encode_frame-fits :
    (p : Packet) (direction : FrameDirection) (c c' : Option TransformCursor) (bs : List ℕ)
    → encode_frame p direction c ≡ (ok bs, c')
    → length p.payload ≤ maximum (uses_length32 p.command direction)
unfolding encode_frame
encode_frame-fits p direction c c' bs e =
    elim (Bool-cases (ltb (maximum (uses_length32 p.command direction)) (length p.payload))) [
      | inl over ↦ absurd (rejected (rw over at e))
      | inr fits ↦ ground arith
    ]
  where
    rejected :
        ◌≡◌ {A = Result (List ℕ) × Option TransformCursor} (err frame_error, c) (ok bs, c') → ⊥
    rejected h = cc (ap (λ (t : Result (List ℕ) × Option TransformCursor). t.0) h)

-- What `encode_frame` writes for a packet of bytes, `_decode_one` takes off the front of the buffer:
-- a decoder of the same direction whose cursor, if there is one, stood where the writer's did, and
-- whose limit is not under the payload's size, returns the packet, keeps the bytes behind the frame,
-- and its cursor is where the writer's is.
pub decode_one-encode_frame :
    (p : Packet) (d : FrameStreamDecoder) (after : Option TransformCursor) (bs rest : List ℕ)
    → p.command < 256
    → IsBytes p.payload
    → HasCursor d.cursor
    → IsBytes rest
    → length p.payload ≤ d.max_payload_bytes
    → encode_frame p d.direction d.cursor ≡ (ok bs, after)
    → decode_one (record d { buffer = bs ++ rest })
      ≡ (ok (some p), record d { cursor = after; buffer = rest })
decode_one-encode_frame p d after bs rest byte bytes v b within e =
    let length32 : Bool = uses_length32 p.command d.direction in
    let fits = encode_frame-fits p d.direction d.cursor after bs e in
    let closed = sym (encode_frame-eq p byte bytes d.direction d.cursor v fits) ∙ e in
    let same : ok (wire length32 p d.cursor) ≡ ok bs =
      ap (λ (t : Result (List ℕ) × Option TransformCursor). t.0) closed in
    let moved : behind_frame length32 p d.cursor ≡ after =
      ap (λ (t : Result (List ℕ) × Option TransformCursor). t.1) closed in
    let written : wire length32 p d.cursor ≡ bs = cc same in
    rw (sym written, sym moved)
      (decode_one-eq (record d { buffer = wire length32 p d.cursor ++ rest })
          (record {
            has_cursor = v;
            bytes =
                All-append IsByte (wire length32 p d.cursor) rest
                  (wire-IsBytes p byte bytes length32 d.cursor v) b;
          })
        ∙ ap (answer (record d { buffer = wire length32 p d.cursor ++ rest }))
            (parse-wire p byte bytes d.max_payload_bytes within rest d.direction d.cursor v fits))
