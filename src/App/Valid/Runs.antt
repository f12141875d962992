-- ===== src/App/Valid/Runs.antt =====
-- server/app.py: how the loops of `_handle_client` end.
use army.Common.{
  ℕ, zero, suc, ◌<◌, ◌≡◌, refl, ap, ◌∙◌, arith, Bool, true, Option, none, some, List, [], ◌∷◌, ◌++◌,
  length, All, ◌||◌, Bool-cases, append-nil, inl, inr,
}
use army.Bytes.{IsBytes}
use army.Exec.{Result, ok, err, frame_error, is_protocol_error, continue, pure, ◌>>◌}
use army.Transform.{TransformCursor}
use army.Framing.{uses_length32, encode_frame, server_to_client, Packet, FrameStreamDecoder}
use army.Framing.Parse.{IsDecoder, Parsed, incomplete, oversized, frame, parsed}
use army.Framing.Chunks.{frame-IsDecoder}
use army.Framing.Sendable.{IsSendable}
use army.App.{
  is_closed, Client, is_some, feed_client, handle_packet, process, on_data, on_timeout, on_event,
  beat, heartbeat_packet, write_packet, serve, Event, data_read, timed_out,
}
use army.App.{write_frame, write_packets, enable_transform, set_transform, handle_session}
use army.App.Valid.Events.{Keeps, parsed-Keeps, filled, one_packet, filled-IsDecoder, feed-one}
use army.Session.{SessionOutcome}
use army.Session.Handlers.{handle}
use army.Transform.{ByteTransform}
use army.App.{new_client}
use army.Session.{login_session}
use army.Session.Steps.{revision_fits}
use army.Framing.{frame_stream_decoder}
use army.Common.Int.{ℤ, pos, negsuc}
use mathlib.Core.Path.{subst}
use army.App.Writes.{write_packet-ok}
use army.App.Valid.{is_open, IsClient, Ends, ok-Ends, err-Ends}
use army.App.Valid.Packets.{handle_packet-Ends}

write_frame-decoder :
    (r : Result (List ℕ)) (k : Option TransformCursor) (c : Client)
    → (write_frame (r, k) c).1.decoder ≡ c.decoder
write_frame-decoder (ok bytes) k c = refl
write_frame-decoder (err e) k c = refl

write_packet-decoder : (p : Packet) (c : Client) → (write_packet p c).1.decoder ≡ c.decoder
unfolding write_packet
write_packet-decoder p c =
    let (r, k) = encode_frame p server_to_client c.outbound_cursor in write_frame-decoder r k c

write_packets-decoder : (ps : List Packet) (c : Client) → (write_packets ps c).1.decoder ≡ c.decoder
unfolding write_packets
write_packets-decoder [] c = refl
write_packets-decoder (p ∷ ps) c =
    next_one (write_packet p c).0 (write_packet p c).1
      (write_packets-decoder ps (write_packet p c).1)
    ∙ write_packet-decoder p c
  where
    next_one :
        (r : Result (Unit {0})) (c' : Client)
        → (write_packets ps c').1.decoder ≡ c'.decoder
        → (continue r (λ x. write_packets ps) c').1.decoder ≡ c'.decoder
    next_one (ok x) c' h = h
    next_one (err e) c' h = refl

transform-buffer :
    (t : Option ByteTransform) (c : Client)
    → (enable_transform t c).1.decoder.buffer ≡ c.decoder.buffer
unfolding enable_transform set_transform
transform-buffer none c = refl
transform-buffer (some t) c =
    elim (Bool-cases (is_some c.decoder.cursor || is_some c.outbound_cursor)) [
      | inl e ↦ rw e refl
      | inr e ↦ rw e refl
    ]

deliver-buffer :
    (r : Result SessionOutcome) (c : Client)
    → (continue r
        (λ outcome. do write_packets outcome.outbound; enable_transform outcome.enable_transform)
        c).1.decoder.buffer
      ≡ c.decoder.buffer
deliver-buffer (err e) c = refl
deliver-buffer (ok outcome) c =
    then_transform (write_packets outcome.outbound c).0 (write_packets outcome.outbound c).1
    ∙ ap FrameStreamDecoder.buffer (write_packets-decoder outcome.outbound c)
  where
    then_transform :
        (r : Result (Unit {0})) (c' : Client)
        → (continue r (λ x. enable_transform outcome.enable_transform) c').1.decoder.buffer
          ≡ c'.decoder.buffer
    then_transform (ok x) c' = transform-buffer outcome.enable_transform c'
    then_transform (err e) c' = refl

-- A packet leaves the bytes behind it in the buffer.
pub handle_packet-buffer :
    (p : Packet) (c : Client) → (handle_packet p c).1.decoder.buffer ≡ c.decoder.buffer
unfolding handle_packet handle_session
handle_packet-buffer p c =
    deliver-buffer (handle p c.session).0 (record c { session = (handle p c.session).1 })

-- The client behind a call of `feed`.
pub with_decoder-IsClient :
    (c : Client) (d : FrameStreamDecoder)
    → IsClient c
    → IsDecoder d
    → is_some d.cursor ≡ is_some c.decoder.cursor
    → IsClient (record c { decoder = d })
with_decoder-IsClient c d v vd e = record {
  decoder_valid = vd;
  outbound_valid = v.outbound_valid;
  outbound_open = v.outbound_open;
  inbound_open = e ∙ v.inbound_open;
  fits = v.fits;
}

next_packet :
    (fuel : ℕ) (run : Result (Unit {0}) × Client)
    → ((c : Client) → IsClient c → length c.decoder.buffer < fuel → Ends (process fuel [] c))
    → Ends run
    → length run.1.decoder.buffer < fuel
    → Ends (continue run.0 (λ x. process fuel []) run.1)
next_packet fuel (ok x, c) again h lt = again c (h.valid refl) lt
next_packet fuel (err e, c) again h lt = err-Ends e c (h.errors e refl)

-- One round over what `feed` has found.
round_Ends :
    (fuel : ℕ) (bytes : List ℕ) (c : Client) (r : Parsed)
    → ((c : Client) → IsClient c → length c.decoder.buffer < fuel → Ends (process fuel [] c))
    → IsClient c
    → IsBytes bytes
    → length (c.decoder.buffer ++ bytes) < suc fuel
    → parsed (filled bytes c.decoder) ≡ r
    → Ends (
        continue
          (one_packet (filled bytes c.decoder) r).0
          (λ packets. elim packets [ [] ↦ pure tt | p ∷ ps ↦ do handle_packet p; process fuel [] ])
          (record c { decoder = (one_packet (filled bytes c.decoder) r).1 }))
unfolding is_protocol_error
round_Ends fuel bytes c incomplete again v b lt e =
    ok-Ends _
      (with_decoder-IsClient c _ v (filled-IsDecoder bytes c.decoder v.decoder_valid b) refl)
round_Ends fuel bytes c oversized again v b lt e = err-Ends frame_error _ refl
round_Ends fuel bytes c (frame p rest k) again v b lt e =
    let vd : IsDecoder (filled bytes c.decoder) =
      filled-IsDecoder bytes c.decoder v.decoder_valid b in
    let (shorter, vd') = frame-IsDecoder (filled bytes c.decoder) p rest k vd e in
    let kept : is_some k ≡ is_some c.decoder.cursor =
      subst (Keeps c.decoder.cursor) e (parsed-Keeps (filled bytes c.decoder)) in
    let c' : Client = record c { decoder = record c.decoder { cursor = k; buffer = rest } } in
    next_packet fuel (handle_packet p c') again
      (handle_packet-Ends p c' (with_decoder-IsClient c _ v vd' kept))
      (rw (handle_packet-buffer p c') (omega (arith, shorter, lt)))

process-Ends :
    (fuel : ℕ) (bytes : List ℕ) (c : Client)
    → IsClient c
    → IsBytes bytes
    → length (c.decoder.buffer ++ bytes) < fuel
    → Ends (process fuel bytes c)
unfolding process feed_client
process-Ends zero bytes c v b lt = absurd (omega arith)
process-Ends (suc fuel) bytes c v b lt =
    rw (feed-one bytes c.decoder (filled-IsDecoder bytes c.decoder v.decoder_valid b)) (
      round_Ends fuel bytes c (parsed (filled bytes c.decoder))
        (λ c' v' lt'. process-Ends fuel [] c' v' tt (rw append-nil lt')) v b lt refl)

on_data-Ends : (bytes : List ℕ) (c : Client) → IsClient c → IsBytes bytes → Ends (on_data bytes c)
unfolding on_data
on_data-Ends bytes c v b =
    process-Ends (suc (length (c.decoder.buffer ++ bytes))) bytes c v b (omega arith)

heartbeat-IsSendable : IsSendable heartbeat_packet
unfolding uses_length32
heartbeat-IsSendable = record { byte = omega arith; bytes = tt; fits = omega arith }

on_timeout-Ends : (c : Client) → IsClient c → Ends (on_timeout c)
unfolding on_timeout beat
on_timeout-Ends c v = by_cursor c.outbound_cursor
  where
    by_cursor : (k : Option TransformCursor) → Ends (beat k c)
    by_cursor none = ok-Ends c v
    by_cursor (some k) =
        let (c', e, w) = write_packet-ok heartbeat_packet c heartbeat-IsSendable v.outbound_valid in
        rw e (
          ok-Ends c' (record {
            decoder_valid = rw w.decoder v.decoder_valid;
            outbound_valid = w.cursor_valid;
            outbound_open = rw w.session (w.cursor_kept ∙ v.outbound_open);
            inbound_open = rw (w.decoder, w.session) v.inbound_open;
            fits = rw w.session v.fits;
          }))

-- The bytes of an event are bytes.
unfoldable pub AreBytes : Event → Type 0
AreBytes (data_read bytes) = IsBytes bytes
AreBytes timed_out = Unit {0}

pub on_event-Ends : (e : Event) (c : Client) → IsClient c → AreBytes e → Ends (on_event e c)
unfolding on_event AreBytes
on_event-Ends (data_read bytes) c v b = on_data-Ends bytes c v b
on_event-Ends timed_out c v b = on_timeout-Ends c v

next_event :
    (events : List Event) (run : Result (Unit {0}) × Client)
    → Ends run
    → ((c : Client) → IsClient c → Ends (serve events c))
    → Ends (continue run.0 (λ x. serve events) run.1)
next_event events (ok x, c) h again = again c (h.valid refl)
next_event events (err x, c) h again = err-Ends x c (h.errors x refl)

serve-valid :
    (events : List Event) (c : Client) → IsClient c → All AreBytes events → Ends (serve events c)
unfolding serve
serve-valid [] c v b = ok-Ends c v
serve-valid (e ∷ events) c v b = elim (Bool-cases (is_closed e)) [
  | inl closed ↦ rw closed (ok-Ends c v)
  | inr open' ↦ rw open' (
      next_event events (on_event e c) (on_event-Ends e c v b.0)
        (λ c' v'. serve-valid events c' v' b.1))
]

pub new-IsClient :
    (limit : ℤ) (revision : Option ℤ) (area_push : Bool) (c : Client)
    → revision_fits revision ≡ true
    → new_client limit revision area_push ≡ ok c
    → IsClient c
unfolding new_client frame_stream_decoder login_session is_open
new-IsClient (negsuc n) revision area_push c fits e = cc
new-IsClient (pos n) revision area_push c fits e = subst IsClient (ok-injective e) (record {
  decoder_valid = record { has_cursor = tt; bytes = tt };
  outbound_valid = tt;
  outbound_open = refl;
  inbound_open = refl;
  fits = fits;
})
  where
    ok-injective : {a b : Client} → ok a ≡ ok b → a ≡ b
    ok-injective h = cc h

-- A connection ends without an internal error: with a splash revision that the configuration admits,
-- on any events with bytes, the loop raises protocol errors only, and when it does not raise, the
-- transformation is on in both directions exactly if the handshake is done. So it never raises the
-- RuntimeError of a transformation that is turned on twice, and none of its loops runs for ever.
pub serve-Ends :
    (limit : ℤ) (revision : Option ℤ) (area_push : Bool) (events : List Event) (c : Client)
    → revision_fits revision ≡ true
    → new_client limit revision area_push ≡ ok c
    → All AreBytes events
    → Ends (serve events c)
serve-Ends limit revision area_push events c fits e b =
    serve-valid events c (new-IsClient limit revision area_push c fits e) b
