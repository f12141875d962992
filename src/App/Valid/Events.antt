-- ===== src/App/Valid/Events.antt =====
-- server/app.py: a call of `feed` for one packet, as `_handle_client` makes it.
use army.Common.{
  ℕ, suc, ◌≡◌, refl, ◌∙◌, Bool, true, false, Option, none, some, List, [], ◌∷◌, ◌++◌, length, ltb,
  if◌then◌else◌, All-append,
}
use army.Bytes.{IsByte, IsBytes}
use army.Exec.{Result, ok, err, frame_error, continue, pure}
use army.Transform.{TransformCursor}
use army.Framing.{length_width, Packet, FrameStreamDecoder, feed, feed_loop}
use army.Framing.Cursor.{next?}
use army.Framing.Parse.{
  IsDecoder, Parsed, incomplete, oversized, frame, parsed, parse, parse_size, parse_payload,
  decode_one-eq, answer, after,
}
use army.App.{is_some}
use army.App.Writes.{after-is_some, next?-is_some}

-- The front of a parse keeps the presence of the cursor.
abbrev pub Keeps : Option TransformCursor → Parsed → Type 0
Keeps c incomplete = Unit {0}
Keeps c oversized = Unit {0}
Keeps c (frame p rest c') = is_some c' ≡ is_some c

whichever :
    (P : Parsed → Type 0) (test : Bool) (x y : Parsed) → P x → P y → P (if test then x else y)
whichever P true x y hx hy = hx
whichever P false x y hx hy = hy

module _ (limit : ℕ) (length32 : Bool) (command : ℕ) where
  payload-Keeps :
      (size : ℕ) (c : Option TransformCursor) (bytes : List ℕ)
      → Keeps c (parse_payload limit length32 command size c bytes)
  unfolding parse_payload
  payload-Keeps size c bytes =
      whichever (Keeps c) (ltb limit size) _ _ tt
        (whichever (Keeps c) (ltb (length bytes) size) _ _ tt (after-is_some length32 size c))

  same-Keeps :
      (c c' : Option TransformCursor) (r : Parsed) → is_some c' ≡ is_some c → Keeps c' r → Keeps c r
  same-Keeps c c' incomplete e h = tt
  same-Keeps c c' oversized e h = tt
  same-Keeps c c' (frame p rest c2) e h = h ∙ e

  size-Keeps :
      (c : Option TransformCursor) (bytes : List ℕ)
      → Keeps c (parse_size limit length32 command c bytes)
  unfolding parse_size
  size-Keeps c bytes = whichever (Keeps c) (ltb (length bytes) (length_width length32)) _ _ tt (
      same-Keeps c (after length32 (length_width length32) c) _
        (after-is_some length32 (length_width length32) c)
        (payload-Keeps _ (after length32 (length_width length32) c) _))

pub parsed-Keeps : (d : FrameStreamDecoder) → Keeps d.cursor (parsed d)
unfolding parse
parsed-Keeps d = front d.buffer
  where
    front :
        (buffer : List ℕ) → Keeps d.cursor (parse d.direction d.max_payload_bytes d.cursor buffer)
    front [] = tt
    front (raw ∷ bytes) =
        same-Keeps d.max_payload_bytes false raw d.cursor (next? d.cursor) _
          (next?-is_some d.cursor) (size-Keeps d.max_payload_bytes _ _ (next? d.cursor) bytes)

abbrev pub filled : List ℕ → FrameStreamDecoder → FrameStreamDecoder
filled bytes d = record d { buffer = d.buffer ++ bytes }

-- A call of `feed` for one packet.
abbrev pub one_packet : FrameStreamDecoder → Parsed → Result (List Packet) × FrameStreamDecoder
one_packet d incomplete = (ok [], d)
one_packet d oversized = (err frame_error, d)
one_packet d (frame p rest c) = (ok (p ∷ []), record d { cursor = c; buffer = rest })

pub filled-IsDecoder :
    (bytes : List ℕ) (d : FrameStreamDecoder)
    → IsDecoder d
    → IsBytes bytes
    → IsDecoder (filled bytes d)
filled-IsDecoder bytes d v b = record {
  has_cursor = v.has_cursor;
  bytes = All-append IsByte d.buffer bytes v.bytes b;
}

first_round :
    (buffer : List ℕ) (d : FrameStreamDecoder)
    → IsDecoder (record d { buffer = buffer })
    → feed_loop (suc (length buffer)) (some 1) [] (record d { buffer = buffer })
      ≡ one_packet (record d { buffer = buffer }) (parsed (record d { buffer = buffer }))
unfolding feed_loop parse
first_round [] d v = rw (decode_one-eq (record d { buffer = [] }) v)
first_round (raw ∷ bytes) d v =
    rw (decode_one-eq (record d { buffer = raw ∷ bytes }) v)
      (cases (parsed (record d { buffer = raw ∷ bytes })))
  where
    cases :
        (r : Parsed)
        → continue
            (answer (record d { buffer = raw ∷ bytes }) r).0
            (λ p. elim p [
              | none ↦ pure []
              | some p ↦ feed_loop (suc (length bytes)) (some 1) (p ∷ [])
            ])
            (answer (record d { buffer = raw ∷ bytes }) r).1
          ≡ one_packet (record d { buffer = raw ∷ bytes }) r
    cases incomplete = refl
    cases oversized = refl
    cases (frame p rest c) = refl

pub feed-one :
    (bytes : List ℕ) (d : FrameStreamDecoder)
    → IsDecoder (filled bytes d)
    → feed bytes (some 1) d ≡ one_packet (filled bytes d) (parsed (filled bytes d))
unfolding feed
feed-one bytes d v = first_round (d.buffer ++ bytes) d v
