-- ===== src/Framing/Stream.antt =====
-- `feed` of framing.py on the frames of several packets, which `encode_frame` wrote one behind the
-- other with one cursor, as server/app.py writes the packets of an answer.
use army.Common.{
  ℕ, zero, suc, ◌≤◌, ◌<◌, ◌≡◌, refl, sym, ap, arith, Bool, Option, none, List, [], ◌∷◌, ◌++◌,
  length, length-append, append_assoc, append-nil, All, All-append,
}
use army.Bytes.{IsByte, IsBytes}
use army.Exec.{Result, ok, err, continue, Exec, pure, ◌>>=◌}
use army.Transform.{TransformCursor}
use army.Framing.{
  Packet, FrameDirection, uses_length32, maximum, length_width, encode_frame, FrameStreamDecoder,
  decode_one, decode_buffered, feed_loop, feed,
}
use army.Framing.Cursor.{HasCursor, next?-HasCursor}
use army.Framing.Parse.{after-HasCursor}
use army.Framing.RoundTrip.{
  encode_frame-eq, wire, wire-IsBytes, behind_frame, decode_one-encode_frame,
}

unfoldable pub encode_frames : List Packet → FrameDirection → Exec (Option TransformCursor) (List ℕ)
encode_frames [] direction = pure []
encode_frames (p ∷ ps) direction = do
  bytes ← encode_frame p direction
  more ← encode_frames ps direction
  pure (bytes ++ more)

-- A packet of bytes that has a frame, and that a decoder with the limit takes.
pub record Fits (direction : FrameDirection) (limit : ℕ) (p : Packet) : Type 0 where
  pub byte : p.command < 256
  pub bytes : IsBytes p.payload
  pub sendable : length p.payload ≤ maximum (uses_length32 p.command direction)
  pub within : length p.payload ≤ limit

-- The frames of the packets, and what the loop of `feed` makes of them.
pub record Frames (d : FrameStreamDecoder) (ps : List Packet) (c : Option TransformCursor)
    (bs : List ℕ) (after : Option TransformCursor) : Type 0 where
  pub encoded : encode_frames ps d.direction c ≡ (ok bs, after)
  pub bytes : IsBytes bs
  pub loop :
      (fuel : ℕ) (packets : List Packet)
      → length bs < fuel
      → feed_loop fuel none packets (record d { cursor = c; buffer = bs })
        ≡ (ok (packets ++ ps), record d { cursor = after; buffer = [] })

last_round :
    (d : FrameStreamDecoder) (c : Option TransformCursor) (fuel : ℕ) (packets : List Packet)
    → 0 < fuel
    → feed_loop fuel none packets (record d { cursor = c; buffer = [] })
      ≡ (ok (packets ++ []), record d { cursor = c; buffer = [] })
unfolding feed_loop decode_one decode_buffered
last_round d c zero packets h = absurd (omega arith)
last_round d c (suc fuel) packets h = rw append-nil

empty_stream : (d : FrameStreamDecoder) (c : Option TransformCursor) → Frames d [] c [] c
unfolding encode_frames
empty_stream d c = record { encoded = refl; bytes = tt; loop = last_round d c }

-- A frame in front of others.
module _ (d : FrameStreamDecoder) (p : Packet) (ps : List Packet) (c : Option TransformCursor)
    (fits : Fits d.direction d.max_payload_bytes p) (v : HasCursor c) (more : List ℕ)
    (after : Option TransformCursor) where
  abbrev length32 : Bool
  length32 = uses_length32 p.command d.direction

  frame_round :
      (fuel : ℕ) (packets : List Packet)
      → Frames d ps (behind_frame length32 p c) more after
      → length (wire length32 p c ++ more) < fuel
      → feed_loop fuel none packets (record d { cursor = c; buffer = wire length32 p c ++ more })
        ≡ (ok (packets ++ p ∷ ps), record d { cursor = after; buffer = [] })
  unfolding feed_loop
  frame_round zero packets h lt = absurd (omega arith)
  frame_round (suc fuel) packets h lt =
      let decoded =
        decode_one-encode_frame p (record d { cursor = c; buffer = [] }) (behind_frame length32 p c)
          (wire length32 p c) more fits.byte fits.bytes v h.bytes fits.within
          (encode_frame-eq p fits.byte fits.bytes d.direction c v fits.sendable) in
      rw (
        decoded,
        h.loop fuel (packets ++ p ∷ []) (omega (arith, length-append (wire length32 p c) more)),
        append_assoc packets (p ∷ []) ps,
      )

  frame_front :
      Frames d ps (behind_frame length32 p c) more after
      → Frames d (p ∷ ps) c (wire length32 p c ++ more) after
  unfolding encode_frames
  frame_front h = record {
    encoded =
        rw (encode_frame-eq p fits.byte fits.bytes d.direction c v fits.sendable, h.encoded) refl;
    bytes =
        All-append IsByte (wire length32 p c) more
          (wire-IsBytes p fits.byte fits.bytes length32 c v) h.bytes;
    loop = λ fuel packets lt. frame_round fuel packets h lt;
  }

pub frames :
    (d : FrameStreamDecoder) (ps : List Packet) (c : Option TransformCursor)
    → All (Fits d.direction d.max_payload_bytes) ps
    → HasCursor c
    → (bs : List ℕ) × (after : Option TransformCursor) × Frames d ps c bs after
frames d [] c h v = ([], c, empty_stream d c)
frames d (p ∷ ps) c h v =
    let length32 : Bool = uses_length32 p.command d.direction in
    let behind : HasCursor (behind_frame length32 p c) =
      after-HasCursor length32 (length p.payload) _
        (after-HasCursor length32 (length_width length32) _ (next?-HasCursor c v)) in
    let (more, after, f) = frames d ps (behind_frame length32 p c) h.1 behind in
    (wire length32 p c ++ more, after, frame_front d p ps c h.0 v more after f)

-- Packets of bytes that have a frame and that the decoder's limit admits are written one behind the
-- other without an error, and a decoder with an empty buffer whose cursor, if there is one, lies in
-- its key and stood where the writer's did, gets exactly these packets from one call of `feed`: its
-- buffer is empty again, and its cursor is where the writer's is.
pub feed-encode_frames :
    (ps : List Packet) (d : FrameStreamDecoder)
    → All (Fits d.direction d.max_payload_bytes) ps
    → HasCursor d.cursor
    → (bs : List ℕ) × (after : Option TransformCursor) × (encode_frames ps d.direction d.cursor
        ≡ (ok bs, after))
      × (feed bs none (record d { buffer = [] })
          ≡ (ok ps, record d { cursor = after; buffer = [] }))
unfolding feed
feed-encode_frames ps d h v =
    let (bs, after, f) = frames d ps d.cursor h v in
    (bs, after, f.encoded, f.loop (suc (length bs)) [] (omega arith))

pub pair_ok :
    {r : Result (List ℕ)} {k k' : Option TransformCursor} {bs : List ℕ}
    → ◌≡◌ {A = Result (List ℕ) × Option TransformCursor} (r, k) (ok bs, k')
    → (r ≡ ok bs) × (k ≡ k')
pair_ok e = (
  ap (λ (t : Result (List ℕ) × Option TransformCursor). t.0) e,
  ap (λ (t : Result (List ℕ) × Option TransformCursor). t.1) e,
)

module _ (direction : FrameDirection) (qs : List Packet) (b : List ℕ)
    (k1 k2 : Option TransformCursor) where
  -- The frames of more packets go behind the others.
  then_others :
      (x : List ℕ) (run : Result (List ℕ) × Option TransformCursor) (a : List ℕ)
      (whole : Result (List ℕ) × Option TransformCursor)
      → continue run.0 (λ more. pure (x ++ more)) run.1 ≡ (ok a, k1)
      → ((a : List ℕ) → run ≡ (ok a, k1) → whole ≡ (ok (a ++ b), k2))
      → continue whole.0 (λ more. pure (x ++ more)) whole.1 ≡ (ok (a ++ b), k2)
  then_others x (err e, k') a whole h again = absurd (cc (pair_ok h).0)
  then_others x (ok more, k') a whole h again =
      let joined : x ++ more ≡ a = cc (pair_ok h).0 in
      let here : ◌≡◌ {A = Result (List ℕ) × Option TransformCursor} (ok more, k') (ok more, k1) =
        rw (pair_ok h).1 refl in
      rw (again more here, sym joined, append_assoc x more b) refl

  first_then :
      (ps : List Packet) (run : Result (List ℕ) × Option TransformCursor) (a : List ℕ)
      → continue run.0 (λ bytes. do more ← encode_frames ps direction; pure (bytes ++ more)) run.1
        ≡ (ok a, k1)
      → ((a : List ℕ) (k : Option TransformCursor)
          → encode_frames ps direction k ≡ (ok a, k1)
          → encode_frames (ps ++ qs) direction k ≡ (ok (a ++ b), k2))
      → continue run.0
          (λ bytes. do more ← encode_frames (ps ++ qs) direction; pure (bytes ++ more))
          run.1
        ≡ (ok (a ++ b), k2)
  first_then ps (err e, k') a h again = absurd (cc (pair_ok h).0)
  first_then ps (ok x, k') a h again =
      then_others x (encode_frames ps direction k') a (encode_frames (ps ++ qs) direction k') h
        (λ a e. again a k' e)

  pub encode_frames-append :
      (ps : List Packet) (a : List ℕ) (k : Option TransformCursor)
      → encode_frames ps direction k ≡ (ok a, k1)
      → encode_frames qs direction k1 ≡ (ok b, k2)
      → encode_frames (ps ++ qs) direction k ≡ (ok (a ++ b), k2)
  unfolding encode_frames
  encode_frames-append [] a k h h' =
      let none_written : [] ≡ a = cc (pair_ok h).0 in rw (sym none_written, (pair_ok h).1) h'
  encode_frames-append (p ∷ ps) a k h h' =
      first_then ps (encode_frame p direction k) a h (λ a k e. encode_frames-append ps a k e h')
