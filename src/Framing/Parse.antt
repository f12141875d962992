-- ===== src/Framing/Parse.antt =====
-- What `_decode_one` does, read off the wire format of docs/protocol.md.
use army.Common.{
  ℕ, ◌+◌, ◌≤◌, ◌<◌, ◌≡◌, refl, arith, Bool, true, false, Option, none, some, List, [], ◌∷◌, length,
  take, drop, ltb, le→leb, sym, if◌then◌else◌, Bool-cases, inl, inr, length-drop, drop-drop,
  length-take, All-take, All-drop,
}
use army.Bytes.{IsByte, IsBytes, from_bytes}
use army.Exec.{Result, ok, err, frame_error, ◌>>=◌}
use army.Transform.{TransformCursor, decode_command}
use army.Framing.{
  FrameDirection, Packet, FrameStreamDecoder, uses_length32, length_width, decode_one,
}
use army.Framing.{decode_bytes, decode_body, decode_length, decode_buffered, with_cursor, cursor_or}
use army.Framing.{give_up, finish_frame, restore_cursor, packet, saved_index, decode_each}
use army.Framing.Cursor.{
  HasCursor, unmask, skip?, next?, reveal?, SameKey, decode_each-eq, reveal?-IsByte,
}
use army.Framing.Cursor.{next?-HasCursor, SameKey-next?, SameKey-skip?, skip?-HasCursor}
use army.Transform.Valid.{restore-eq, decode_command-eq}

-- What the front of the buffer holds: not yet a frame, a declared size beyond the limit, or a frame
-- with the bytes behind it and the cursor after it.
pub data Parsed : Type 0 where
  incomplete oversized : Parsed
  frame : Packet → List ℕ → Option TransformCursor → Parsed

-- Behind the command of a length-32 frame nothing is masked.
abbrev pub clear : Bool → Option TransformCursor → List ℕ → List ℕ
clear length32 c bs = if length32 then bs else unmask c bs

abbrev pub after : Bool → ℕ → Option TransformCursor → Option TransformCursor
after length32 n c = if length32 then c else skip? n c

-- The payload of `size` bytes at the front of `bytes`.
unfoldable pub parse_payload : ℕ → Bool → ℕ → ℕ → Option TransformCursor → List ℕ → Parsed
parse_payload limit length32 command size c bytes =
    if ltb limit size
    then oversized
    else if ltb (length bytes) size
    then incomplete
    else frame (record { command = command; payload = clear length32 c (take size bytes) })
        (drop size bytes) (after length32 size c)

-- The size field, then the payload; the width of the field depends on the command.
unfoldable pub parse_size : ℕ → Bool → ℕ → Option TransformCursor → List ℕ → Parsed
parse_size limit length32 command c bytes =
    if ltb (length bytes) (length_width length32)
    then incomplete
    else parse_payload limit length32 command
        (from_bytes (clear length32 c (take (length_width length32) bytes)))
        (after length32 (length_width length32) c) (drop (length_width length32) bytes)

unfoldable pub parse : FrameDirection → ℕ → Option TransformCursor → List ℕ → Parsed
parse direction limit c [] = incomplete
parse direction limit c (raw ∷ bytes) =
    let command = reveal? c raw in
    parse_size limit (uses_length32 command direction) command (next? c) bytes

abbrev pub parsed : FrameStreamDecoder → Parsed
parsed d = parse d.direction d.max_payload_bytes d.cursor d.buffer

-- The answer to each, and the decoder that is left: only a frame changes it.
abbrev pub answer : FrameStreamDecoder → Parsed → Result (Option Packet) × FrameStreamDecoder
answer d incomplete = (ok none, d)
answer d oversized = (err frame_error, d)
answer d (frame p rest c) = (ok (some p), record d { cursor = c; buffer = rest })

pub after-HasCursor :
    (length32 : Bool) (n : ℕ) (c : Option TransformCursor)
    → HasCursor c
    → HasCursor (after length32 n c)
after-HasCursor true n c v = v
after-HasCursor false n c v = skip?-HasCursor n c v

SameKey-after :
    (length32 : Bool) (n : ℕ) (a b : Option TransformCursor)
    → SameKey a b
    → SameKey a (after length32 n b)
SameKey-after true n a b h = h
SameKey-after false n a b h = SameKey-skip? n a b h

pub record IsDecoder (d : FrameStreamDecoder) : Type 0 where
  pub has_cursor : HasCursor d.cursor
  pub bytes : IsBytes d.buffer

-- `_restore` puts back the cursor that was saved.
restore_cursor-eq :
    (d : FrameStreamDecoder) (c : Option TransformCursor)
    → HasCursor d.cursor
    → SameKey d.cursor c
    → restore_cursor (saved_index d.cursor) (record d { cursor = c }) ≡ (ok tt, d)
unfolding restore_cursor saved_index
restore_cursor-eq d c v same = restore_saved d.cursor c d v same
  where
    restore_saved :
        (c0 c : Option TransformCursor) (d : FrameStreamDecoder)
        → HasCursor c0
        → SameKey c0 c
        → restore_cursor (saved_index c0) (record d { cursor = c })
          ≡ (ok tt, record d { cursor = c0 })
    restore_saved none none d v same = refl
    restore_saved none (some c) d v same = elim same [ ]
    restore_saved (some a) none d v same = elim same [ ]
    restore_saved (some a) (some b) d v same = rw (restore-eq a b v same)

decode_bytes-eq :
    (length32 : Bool) (raw : List ℕ) (d : FrameStreamDecoder)
    → HasCursor d.cursor
    → IsBytes raw
    → decode_bytes length32 raw d ≡ (
      ok (clear length32 d.cursor raw),
      record d { cursor = after length32 (length raw) d.cursor },
    )
unfolding decode_bytes
decode_bytes-eq true raw d v h = refl
decode_bytes-eq false raw d v h = masked d.cursor d v
  where
    masked :
        (c : Option TransformCursor) (d : FrameStreamDecoder)
        → HasCursor c
        → cursor_or raw (decode_each raw) c (record d { cursor = c })
          ≡ (ok (unmask c raw), record d { cursor = skip? (length raw) c })
    masked none d v = refl
    masked (some c) d v = rw (decode_each-eq raw c v h)

give_up-eq :
    (d : FrameStreamDecoder) (c : Option TransformCursor)
    → HasCursor d.cursor
    → SameKey d.cursor c
    → give_up (saved_index d.cursor) (record d { cursor = c }) ≡ (ok none, d)
unfolding give_up
give_up-eq d c v same = rw (restore_cursor-eq d c v same)

finish_frame-eq :
    (frame_size command : ℕ) (payload : List ℕ) (d : FrameStreamDecoder)
    → command < 256
    → finish_frame frame_size command payload d ≡ (
      ok (some (record { command = command; payload = payload })),
      record d { buffer = drop frame_size d.buffer },
    )
unfolding finish_frame packet
finish_frame-eq frame_size command payload d h = rw (le→leb command 255 (omega arith))

-- The decoder `d` as it was, with the cursor moved on to `c` and the header taken.
module _ (d : FrameStreamDecoder) (v : IsDecoder d) (c : Option TransformCursor) (vc : HasCursor c)
    (same : SameKey d.cursor c) where
  decode_body-eq :
      (command : ℕ) (length32 : Bool) (header size : ℕ)
      → command < 256
      → header ≤ length d.buffer
      → decode_body (saved_index d.cursor) command length32 header size (record d { cursor = c })
        ≡ answer d
            (parse_payload d.max_payload_bytes length32 command size c (drop header d.buffer))
  unfolding decode_body parse_payload
  decode_body-eq command length32 header size byte fits =
      elim (Bool-cases (ltb d.max_payload_bytes size)) [
        | inl over ↦ rw (over, restore_cursor-eq d c v.has_cursor same)
        | inr under ↦ elim (Bool-cases (ltb (length d.buffer) (header + size))) [
          | inl short ↦ rw (under, short, give_up-eq d c v.has_cursor same, shorter short)
          | inr long ↦
              rw
                (
                  under,
                  long,
                  decode_bytes-eq length32 (take size (drop header d.buffer))
                      (record d { cursor = c }) vc
                      (All-take IsByte size _ (All-drop IsByte header d.buffer v.bytes)),
                  longer long,
                )
                (rw (taken long, finish_frame-eq (header + size) command _ _ byte, drop-drop))
        ]
      ]
    where
      shorter :
          ltb (length d.buffer) (header + size) ≡ true
          → ltb (length (drop header d.buffer)) size ≡ true
      shorter h = ground (arith, length-drop header d.buffer)

      taken :
          ltb (length d.buffer) (header + size) ≡ false
          → length (take size (drop header d.buffer)) ≡ size
      taken h = ground (arith, length-take size (drop header d.buffer), length-drop header d.buffer)

      longer :
          ltb (length d.buffer) (header + size) ≡ false
          → ltb (length (drop header d.buffer)) size ≡ false
      longer h = ground (arith, length-drop header d.buffer)

decode_length-eq :
    (d : FrameStreamDecoder) (c : Option TransformCursor) (command : ℕ)
    → IsDecoder d
    → HasCursor c
    → SameKey d.cursor c
    → command < 256
    → 1 ≤ length d.buffer
    → decode_length (saved_index d.cursor) command (record d { cursor = c })
      ≡ answer d (
          parse_size d.max_payload_bytes
            (uses_length32 command d.direction)
            command
            c
            (drop 1 d.buffer))
unfolding decode_length parse_size
decode_length-eq d c command v vc same byte one = sized (uses_length32 command d.direction)
  where
    short_iff : (w : ℕ) → ltb (length d.buffer) (1 + w) ≡ ltb (length (drop 1 d.buffer)) w
    short_iff w = ground (arith, length-drop 1 d.buffer)

    taken :
        (length32 : Bool)
        → ltb (length (drop 1 d.buffer)) (length_width length32) ≡ false
        → length (take (length_width length32) (drop 1 d.buffer)) ≡ length_width length32
    taken length32 h = ground (arith, length-take (length_width length32) (drop 1 d.buffer))

    sized :
        (length32 : Bool)
        → (if ltb (length d.buffer) (1 + length_width length32)
            then give_up (saved_index d.cursor) (record d { cursor = c })
            else (do
              length_bytes ← decode_bytes length32 (take (length_width length32) (drop 1 d.buffer))
              decode_body
                  (saved_index d.cursor)
                  command
                  length32
                  (1 + length_width length32)
                  (from_bytes length_bytes))
                (record d { cursor = c }))
          ≡ answer d (parse_size d.max_payload_bytes length32 command c (drop 1 d.buffer))
    sized length32 = elim (Bool-cases (ltb (length (drop 1 d.buffer)) (length_width length32))) [
      | inl short ↦ rw (short_iff (length_width length32), short, give_up-eq d c v.has_cursor same)
      | inr long ↦
          rw
            (
              short_iff (length_width length32),
              long,
              decode_bytes-eq length32 (take (length_width length32) (drop 1 d.buffer))
                  (record d { cursor = c }) vc
                  (All-take IsByte (length_width length32) _ (All-drop IsByte 1 d.buffer v.bytes)),
            )
            (rw (taken length32 long, sym (drop-drop 1 (length_width length32) d.buffer))
              (decode_body-eq d v (after length32 (length_width length32) c)
                (after-HasCursor length32 (length_width length32) c vc)
                (SameKey-after length32 (length_width length32) d.cursor c same) command length32
                (1 + length_width length32)
                (from_bytes (clear length32 c (take (length_width length32) (drop 1 d.buffer))))
                byte (ground (arith, length-drop 1 d.buffer))))
    ]

command_eq :
    (raw : ℕ) (c : Option TransformCursor) (d : FrameStreamDecoder)
    → raw < 256
    → HasCursor c
    → with_cursor raw (decode_command raw) (record d { cursor = c })
      ≡ (ok (reveal? c raw), record d { cursor = next? c })
unfolding with_cursor
command_eq raw none d h v = refl
command_eq raw (some c) d h v = rw (decode_command-eq c v raw h)

-- The buffer as an argument, to be matched.
decode_buffered-eq :
    (buffer : List ℕ) (d : FrameStreamDecoder)
    → IsDecoder (record d { buffer = buffer })
    → decode_buffered buffer (record d { buffer = buffer })
      ≡ answer
          (record d { buffer = buffer })
          (parse d.direction d.max_payload_bytes d.cursor buffer)
unfolding decode_buffered parse
decode_buffered-eq [] d v = refl
decode_buffered-eq (raw ∷ bytes) d v =
    rw (command_eq raw d.cursor (record d { buffer = raw ∷ bytes }) v.bytes.0 v.has_cursor) (
      decode_length-eq (record d { buffer = raw ∷ bytes }) (next? d.cursor) (reveal? d.cursor raw) v
        (next?-HasCursor d.cursor v.has_cursor) (SameKey-next? d.cursor)
        (reveal?-IsByte d.cursor raw v.has_cursor v.bytes.0) (omega arith))

-- For a decoder whose cursor lies in its key and whose buffer holds bytes, `_decode_one` answers as
-- the wire format says: nothing while the frame is incomplete and an error when the declared size is
-- over the limit, both with the decoder, cursor included, as it was; else the frame's packet, with
-- the frame's bytes taken off and the cursor moved over what was masked.
pub decode_one-eq : (d : FrameStreamDecoder) → IsDecoder d → decode_one d ≡ answer d (parsed d)
unfolding decode_one
decode_one-eq d v = decode_buffered-eq d.buffer d v
