-- ===== src/App/Peer.antt =====
-- server/app.py: what the client's decoder makes of the bytes that are written for an answer.
use army.Common.{
  ℕ, ◌≡◌, refl, sym, Option, none, List, [], ◌∷◌, ◌++◌, append_assoc, append-nil, All,
}
use army.Exec.{Result, ok, err, continue, pure, ◌>>=◌}
use army.Transform.{TransformCursor}
use army.Framing.{Packet, server_to_client, encode_frame, FrameStreamDecoder, feed}
use army.Framing.Cursor.{HasCursor}
use army.Framing.Stream.{Fits, encode_frames, feed-encode_frames, pair_ok}
use army.App.{Client, write_frame, write_packet, write_packets}

abbrev pub wrote : List ℕ → Option TransformCursor → Client → Client
wrote bs after c = record c { outbound_cursor = after; written = c.written ++ bs }

-- The frames behind the first.
rest_written :
    (ps : List Packet) (c : Client) (b : List ℕ) (k1 : Option TransformCursor)
    (run : Result (List ℕ) × Option TransformCursor) (bs : List ℕ) (after : Option TransformCursor)
    → encode_frames ps server_to_client k1 ≡ run
    → continue run.0 (λ more. pure (b ++ more)) run.1 ≡ (ok bs, after)
    → ((c : Client) (bs : List ℕ) (after : Option TransformCursor)
        → encode_frames ps server_to_client c.outbound_cursor ≡ (ok bs, after)
        → write_packets ps c ≡ (ok tt, wrote bs after c))
    → write_packets ps (wrote b k1 c) ≡ (ok tt, wrote bs after c)
rest_written ps c b k1 (err e, k2) bs after same h again = absurd (cc (pair_ok h).0)
rest_written ps c b k1 (ok more, k2) bs after same h again =
    let joined : b ++ more ≡ bs = cc (pair_ok h).0 in
    rw (again (wrote b k1 c) more k2 same, append_assoc c.written b more, joined, (pair_ok h).1)
      refl

first_written :
    (ps : List Packet) (c : Client) (run : Result (List ℕ) × Option TransformCursor) (bs : List ℕ)
    (after : Option TransformCursor)
    → continue run.0
        (λ bytes. do more ← encode_frames ps server_to_client; pure (bytes ++ more))
        run.1
      ≡ (ok bs, after)
    → ((c : Client) (bs : List ℕ) (after : Option TransformCursor)
        → encode_frames ps server_to_client c.outbound_cursor ≡ (ok bs, after)
        → write_packets ps c ≡ (ok tt, wrote bs after c))
    → continue (write_frame run c).0 (λ x. write_packets ps) (write_frame run c).1
      ≡ (ok tt, wrote bs after c)
first_written ps c (err e, k1) bs after h again = absurd (cc (pair_ok h).0)
first_written ps c (ok b, k1) bs after h again =
    rest_written ps c b k1 (encode_frames ps server_to_client k1) bs after refl h again

pub write_packets-encode_frames :
    (ps : List Packet) (c : Client) (bs : List ℕ) (after : Option TransformCursor)
    → encode_frames ps server_to_client c.outbound_cursor ≡ (ok bs, after)
    → write_packets ps c ≡ (ok tt, wrote bs after c)
unfolding write_packets encode_frames write_packet
write_packets-encode_frames [] c bs after h =
    let none_left : [] ≡ bs = cc (pair_ok h).0 in
    rw (sym none_left, sym (pair_ok h).1, append-nil) refl
write_packets-encode_frames (p ∷ ps) c bs after h =
    first_written ps c (encode_frame p server_to_client c.outbound_cursor) bs after h
      (write_packets-encode_frames ps)

-- What is written for packets of bytes that have a frame reaches the client: they are written without
-- an error, and a decoder of frames from the server with an empty buffer, a limit that admits the
-- packets and a cursor where the writer's stood gets from the bytes written exactly these packets,
-- and its cursor is again where the writer's is. The writer's cursor must lie in its key.
pub feed-write_packets :
    (ps : List Packet) (c : Client) (limit : ℕ)
    → All (Fits server_to_client limit) ps
    → HasCursor c.outbound_cursor
    → (bs : List ℕ) × (c' : Client) × (write_packets ps c ≡ (ok tt, c'))
      × (c'.written ≡ c.written ++ bs)
      × (feed bs none (record {
        direction = server_to_client;
        cursor = c.outbound_cursor;
        max_payload_bytes = limit;
        buffer = [];
      })
          ≡ (
            ok ps,
            record {
              direction = server_to_client;
              cursor = c'.outbound_cursor;
              max_payload_bytes = limit;
              buffer = [];
            },
          ))
feed-write_packets ps c limit h v =
    let d : FrameStreamDecoder = record {
      direction = server_to_client;
      cursor = c.outbound_cursor;
      max_payload_bytes = limit;
      buffer = [];
    } in
    let (bs, after, e, f) = feed-encode_frames ps d h v in
    (bs, wrote bs after c, write_packets-encode_frames ps c bs after e, refl, f)
