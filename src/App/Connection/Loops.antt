-- ===== src/App/Connection/Loops.antt =====
-- server/app.py: what the loops add to what has been written to the client.
use army.Common.{
  ℕ, zero, suc, ◌<◌, ◌≡◌, refl, sym, ap, ◌∙◌, arith, true, Option, none, some, List, [], ◌∷◌, ◌++◌,
  length, All, Bool-cases, append-nil, inl, inr,
}
use mathlib.Core.Path.{subst}
use army.Bytes.{IsBytes}
use army.Exec.{Result, ok, err, continue, pure, ◌>>◌}
use army.Transform.{TransformCursor}
use army.Framing.{Packet, FrameStreamDecoder}
use army.Framing.Sendable.{is_sendable}
use army.Framing.Parse.{IsDecoder, Parsed, incomplete, oversized, frame, parsed}
use army.Framing.Chunks.{frame-IsDecoder}
use army.App.{
  Client, is_some, feed_client, handle_packet, process, on_data, on_timeout, on_event, beat,
  heartbeat_packet, write_packets, write_packet, serve, Event, data_read, timed_out, is_closed,
}
use army.App.Valid.{is_open, IsClient, Ends}
use army.App.Valid.Events.{filled, one_packet, filled-IsDecoder, feed-one, parsed-Keeps, Keeps}
use army.App.Valid.Packets.{handle_packet-Ends}
use army.App.Valid.Runs.{AreBytes, handle_packet-buffer, with_decoder-IsClient, on_event-Ends}
use army.App.Connection.{Short, Sent, sendable-Short}
use army.App.Connection.Packets.{handle_packet-Sent, write-Sent}

-- What is read makes no difference to what has been sent.
read_Sent : (c : Client) (d : FrameStreamDecoder) → Sent c → Sent (record c { decoder = d })
read_Sent c d sent = record {
  waiting = sent.waiting;
  opened = λ e.
      let h = sent.opened e in
      record {
        packets = h.packets;
        bytes = h.bytes;
        short = h.short;
        encoded = h.encoded;
        written = h.written;
      };
}

next_Sent :
    (fuel : ℕ) (run : Result (Unit {0}) × Client)
    → ((c : Client)
        → IsClient c
        → Sent c
        → length c.decoder.buffer < fuel
        → Sent (process fuel [] c).1)
    → Ends run
    → Sent run.1
    → length run.1.decoder.buffer < fuel
    → Sent (continue run.0 (λ x. process fuel []) run.1).1
next_Sent fuel (ok x, c) again h sent lt = again c (h.valid refl) sent lt
next_Sent fuel (err e, c) again h sent lt = sent

round_Sent :
    (fuel : ℕ) (bytes : List ℕ) (c : Client) (r : Parsed)
    → ((c : Client)
        → IsClient c
        → Sent c
        → length c.decoder.buffer < fuel
        → Sent (process fuel [] c).1)
    → IsClient c
    → Sent c
    → IsBytes bytes
    → length (c.decoder.buffer ++ bytes) < suc fuel
    → parsed (filled bytes c.decoder) ≡ r
    → Sent
        (continue {S = Client} {B = Unit {0}}
          (one_packet (filled bytes c.decoder) r).0
          (λ packets. elim packets [ [] ↦ pure tt | p ∷ ps ↦ do handle_packet p; process fuel [] ])
          (record c { decoder = (one_packet (filled bytes c.decoder) r).1 })).1
round_Sent fuel bytes c incomplete again v sent b lt e = read_Sent c _ sent
round_Sent fuel bytes c oversized again v sent b lt e = read_Sent c _ sent
round_Sent fuel bytes c (frame p rest k) again v sent b lt e =
    let vd : IsDecoder (filled bytes c.decoder) =
      filled-IsDecoder bytes c.decoder v.decoder_valid b in
    let (shorter, vd') = frame-IsDecoder (filled bytes c.decoder) p rest k vd e in
    let kept : is_some k ≡ is_some c.decoder.cursor =
      subst (Keeps c.decoder.cursor) e (parsed-Keeps (filled bytes c.decoder)) in
    let c' : Client = record c { decoder = record c.decoder { cursor = k; buffer = rest } } in
    let v' : IsClient c' = with_decoder-IsClient c _ v vd' kept in
    next_Sent fuel (handle_packet p c') again (handle_packet-Ends p c' v')
      (handle_packet-Sent p c' v' (read_Sent c _ sent))
      (rw (handle_packet-buffer p c') (omega (arith, shorter, lt)))

process-Sent :
    (fuel : ℕ) (bytes : List ℕ) (c : Client)
    → IsClient c
    → Sent c
    → IsBytes bytes
    → length (c.decoder.buffer ++ bytes) < fuel
    → Sent (process fuel bytes c).1
unfolding process feed_client
process-Sent zero bytes c v sent b lt = absurd (omega arith)
process-Sent (suc fuel) bytes c v sent b lt =
    rw (feed-one bytes c.decoder (filled-IsDecoder bytes c.decoder v.decoder_valid b)) (
      round_Sent fuel bytes c (parsed (filled bytes c.decoder))
        (λ c' v' sent' lt'. process-Sent fuel [] c' v' sent' tt (rw append-nil lt')) v sent b lt
        refl)

one_written : (p : Packet) (c : Client) → (write_packets (p ∷ []) c).1 ≡ (write_packet p c).1
unfolding write_packets
one_written p c = by_result (write_packet p c).0 (write_packet p c).1
  where
    by_result :
        (r : Result (Unit {0})) (c' : Client)
        → (continue {S = Client} {B = Unit {0}} r (λ x. pure tt) c').1 ≡ c'
    by_result (ok x) c' = refl
    by_result (err e) c' = refl

heartbeat-Short : Short heartbeat_packet
unfolding is_sendable
heartbeat-Short = sendable-Short heartbeat_packet refl

timeout_Sent : (c : Client) → IsClient c → Sent c → Sent (on_timeout c).1
unfolding on_timeout beat
timeout_Sent c v sent = by_cursor c.outbound_cursor refl
  where
    by_cursor : (k : Option TransformCursor) → c.outbound_cursor ≡ k → Sent (beat k c).1
    by_cursor none e = sent
    by_cursor (some k) e =
        let opened : is_open c.session.state ≡ true = sym v.outbound_open ∙ ap is_some e in
        subst Sent (one_written heartbeat_packet c)
          (write-Sent (heartbeat_packet ∷ []) c v (sent.opened opened) (heartbeat-Short, tt) opened)

event_Sent : (e : Event) (c : Client) → IsClient c → Sent c → AreBytes e → Sent (on_event e c).1
unfolding on_event AreBytes on_data
event_Sent (data_read bytes) c v sent b =
    process-Sent (suc (length (c.decoder.buffer ++ bytes))) bytes c v sent b (omega arith)
event_Sent timed_out c v sent b = timeout_Sent c v sent

next_event :
    (events : List Event) (run : Result (Unit {0}) × Client)
    → Ends run
    → Sent run.1
    → ((c : Client) → IsClient c → Sent c → Sent (serve events c).1)
    → Sent (continue run.0 (λ x. serve events) run.1).1
next_event events (ok x, c) h sent again = again c (h.valid refl) sent
next_event events (err x, c) h sent again = sent

pub serve-Sent :
    (events : List Event) (c : Client)
    → IsClient c
    → Sent c
    → All AreBytes events
    → Sent (serve events c).1
unfolding serve
serve-Sent [] c v sent b = sent
serve-Sent (e ∷ events) c v sent b = elim (Bool-cases (is_closed e)) [
  | inl closed ↦ rw closed sent
  | inr open' ↦ rw open' (
      next_event events (on_event e c) (on_event-Ends e c v b.0) (event_Sent e c v sent b.0)
        (λ c' v' sent'. serve-Sent events c' v' sent' b.1))
]
