-- ===== src/App/Pieces.antt =====
-- server/app.py: a packet, and the bytes that follow it in the decoder's buffer.
pub mod Fuel
pub mod Joined
use army.Common.{
  ℕ, zero, suc, ◌+◌, ◌≤◌, ◌<◌, ◌≡◌, refl, sym, ap, ◌∙◌, arith, Bool, true, false, ◌||◌, Bool-cases,
  inl, inr, Option, none, some, List, [], ◌∷◌, ◌++◌, length, append-nil,
}
use army.Exec.{Error, Result, ok, err, frame_error, continue, Exec, pure, ◌>>=◌, ◌>>◌}
use army.Transform.{ByteTransform, TransformCursor}
use army.Framing.{Packet, server_to_client, encode_frame, FrameStreamDecoder}
use army.Framing.Parse.{IsDecoder, Parsed, incomplete, oversized, frame, parsed}
use army.Bytes.{IsBytes}
use army.Session.{SessionOutcome}
use army.Session.Handlers.{handle}
use army.App.{
  Client, App, is_some, write_frame, write_packet, write_packets, set_transform, enable_transform,
  handle_session, handle_packet, process, feed_client,
}
use army.App.Valid.Events.{filled, one_packet, feed-one}

-- The client with other bytes in the buffer.
abbrev pub hold : List ℕ → Client → Client
hold bytes c = record c { decoder = record c.decoder { buffer = bytes } }

abbrev pub holding : List ℕ → Result (Unit {0}) × Client → Result (Unit {0}) × Client
holding bytes (r, c) = (r, hold bytes c)

write_frame-hold :
    (bytes : List ℕ) (run : Result (List ℕ) × Option TransformCursor) (c : Client)
    → write_frame run (hold bytes c) ≡ holding bytes (write_frame run c)
write_frame-hold bytes (ok b, k) c = refl
write_frame-hold bytes (err e, k) c = refl

-- Two actions in turn.
then-hold :
    (bytes : List ℕ) (run run' : Result (Unit {0}) × Client) (m : App (Unit {0}))
    → run' ≡ holding bytes run
    → ((c : Client) → m (hold bytes c) ≡ holding bytes (m c))
    → continue run'.0 (λ x. m) run'.1 ≡ holding bytes (continue run.0 (λ x. m) run.1)
then-hold bytes (ok x, c) run' m e h = rw e (h c)
then-hold bytes (err x, c) run' m e h = rw e refl

write_packets-hold :
    (bytes : List ℕ) (ps : List Packet) (c : Client)
    → write_packets ps (hold bytes c) ≡ holding bytes (write_packets ps c)
unfolding write_packets write_packet
write_packets-hold bytes [] c = refl
write_packets-hold bytes (p ∷ ps) c =
    then-hold bytes (write_packet p c) _ (write_packets ps)
      (write_frame-hold bytes (encode_frame p server_to_client c.outbound_cursor) c)
      (write_packets-hold bytes ps)

transform-hold :
    (bytes : List ℕ) (t : Option ByteTransform) (c : Client)
    → enable_transform t (hold bytes c) ≡ holding bytes (enable_transform t c)
unfolding enable_transform set_transform
transform-hold bytes none c = refl
transform-hold bytes (some t) c =
    elim (Bool-cases (is_some c.decoder.cursor || is_some c.outbound_cursor)) [
      | inl e ↦ rw e refl
      | inr e ↦ rw e refl
    ]

deliver-hold :
    (bytes : List ℕ) (r : Result SessionOutcome) (c : Client)
    → continue r
        (λ o. do write_packets o.outbound; enable_transform o.enable_transform)
        (hold bytes c)
      ≡ holding bytes
          (continue r (λ o. do write_packets o.outbound; enable_transform o.enable_transform) c)
deliver-hold bytes (err e) c = refl
deliver-hold bytes (ok o) c =
    then-hold bytes (write_packets o.outbound c) _ (enable_transform o.enable_transform)
      (write_packets-hold bytes o.outbound c) (transform-hold bytes o.enable_transform)

pub handle_packet-hold :
    (bytes : List ℕ) (p : Packet) (c : Client)
    → handle_packet p (hold bytes c) ≡ holding bytes (handle_packet p c)
unfolding handle_packet handle_session
handle_packet-hold bytes p c =
    deliver-hold bytes (handle p c.session).0 (record c { session = (handle p c.session).1 })

-- One round of `process` over what the buffer holds.
abbrev pub after_round : ℕ → Client → Parsed → Result (Unit {0}) × Client
after_round fuel c incomplete = (ok tt, c)
after_round fuel c oversized = (err frame_error, c)
after_round fuel c (frame p rest k) =
    let run =
      handle_packet p (record c { decoder = record c.decoder { cursor = k; buffer = rest } }) in
    continue run.0 (λ x. process fuel []) run.1

pub process-round :
    (fuel : ℕ) (bytes : List ℕ) (c : Client)
    → IsDecoder (filled bytes c.decoder)
    → process (suc fuel) bytes c
      ≡ after_round fuel (hold (c.decoder.buffer ++ bytes) c) (parsed (filled bytes c.decoder))
unfolding process feed_client
process-round fuel bytes c v =
    rw (feed-one bytes c.decoder v) (cases (parsed (filled bytes c.decoder)))
  where
    cases :
        (r : Parsed)
        → continue
            (one_packet (filled bytes c.decoder) r).0
            (λ packets. elim packets [
              | [] ↦ pure tt
              | p ∷ ps ↦ do handle_packet p; process fuel []
            ])
            (record c { decoder = (one_packet (filled bytes c.decoder) r).1 })
          ≡ after_round fuel (hold (c.decoder.buffer ++ bytes) c) r
    cases incomplete = refl
    cases oversized = refl
    cases (frame p rest k) = refl
