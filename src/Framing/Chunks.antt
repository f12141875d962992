-- ===== src/Framing/Chunks.antt =====
-- `feed` of framing.py on a stream that arrives in pieces.
mod Grow
mod Loop
use army.Common.{
  ℕ, ◌+◌, ◌<◌, ◌≡◌, ◌≢◌, refl, ap, ◌∙◌, sym, arith, Option, none, some, List, [], ◌∷◌, ◌++◌,
}
use army.Common.{length, length-append, append_assoc, append-nil, All, All-append, zero, suc}
use army.Bytes.{IsByte, IsBytes}
use army.Exec.{Result, ok, err, out_of_fuel, ◌>>=◌, pure, Exec, continue}
use army.Framing.{Packet, FrameStreamDecoder, feed_loop, extend, feed}
use army.Framing.Parse.{IsDecoder}
use Loop.{loop-extend, loop-prepend, loop-Ends, extend-IsDecoder, Ends, prepend, resume}
pub use Grow.{frame-IsDecoder, grow, parse-grow}
pub use Loop.{settled}

-- One call of `feed` with no packet limit for each piece of the stream.
unfoldable pub feed_each : List (List ℕ) → Exec FrameStreamDecoder (List Packet)
feed_each [] = pure []
feed_each (bytes ∷ chunks) = do
  packets ← feed bytes none
  more ← feed_each chunks
  pure (packets ++ more)

-- On bytes and with a valid decoder, `feed` ends by one of its own returns or raises, whatever the
-- packet limit, and leaves a valid decoder.
pub feed-Ends :
    (bytes : List ℕ) (max : Option ℕ) (d : FrameStreamDecoder)
    → IsDecoder d
    → IsBytes bytes
    → ((feed bytes max d).0 ≢ err out_of_fuel) × IsDecoder (feed bytes max d).1
unfolding feed
feed-Ends bytes none d v b =
    loop-Ends (suc (length (extend bytes d).buffer)) none [] (extend bytes d)
      (extend-IsDecoder bytes d v b) (omega arith)
feed-Ends bytes (some zero) d v b = (λ q. cc, v)
feed-Ends bytes (some (suc n)) d v b =
    loop-Ends (suc (length (extend bytes d).buffer)) (some (suc n)) [] (extend bytes d)
      (extend-IsDecoder bytes d v b) (omega arith)

-- What the first call leaves, and the second call.
second :
    (ys : List ℕ) (run : Result (List Packet) × FrameStreamDecoder)
    → IsDecoder run.1
    → IsBytes ys
    → resume ys run ≡ continue run.0 (λ ps. do qs ← feed ys none; pure (ps ++ qs)) run.1
unfolding feed
second ys (err e, d) v b = refl
second ys (ok ps, d) v b =
    rw (append-nil, pushed (feed_loop (suc (length (d.buffer ++ ys))) none [] (extend ys d))) at
      (loop-prepend (suc (length (d.buffer ++ ys))) ps [] (extend ys d) (extend-IsDecoder ys d v b))
  where
    pushed :
        (run : Result (List Packet) × FrameStreamDecoder)
        → prepend ps run ≡ continue run.0 (λ qs. pure (ps ++ qs)) run.1
    pushed (ok qs, d) = refl
    pushed (err e, d) = refl

-- Two calls of `feed` and one on all the bytes.
feed-append :
    (xs ys : List ℕ) (d : FrameStreamDecoder)
    → IsDecoder d
    → IsBytes xs
    → IsBytes ys
    → settled (feed (xs ++ ys) none d)
      ≡ settled ((do ps ← feed xs none; qs ← feed ys none; pure (ps ++ qs)) d)
unfolding feed
feed-append xs ys d v bx b =
    let one : IsDecoder (extend xs d) = extend-IsDecoder xs d v bx in
    rw (
      sym (append_assoc d.buffer xs ys),
      loop-extend (suc (length (d.buffer ++ xs))) (suc (length ((d.buffer ++ xs) ++ ys))) []
          (extend xs d) ys one b (omega arith) (omega (arith, length-append (d.buffer ++ xs) ys)),
      second ys (feed xs none d) (feed-Ends xs none d v bx).1 b,
    )

abbrev front :
    List Packet
    → Result (List Packet × FrameStreamDecoder)
    → Result (List Packet × FrameStreamDecoder)
front ps (ok (qs, d)) = ok (ps ++ qs, d)
front ps (err e) = err e

settled-front :
    (ps : List Packet) (run : Result (List Packet) × FrameStreamDecoder)
    → settled (continue run.0 (λ qs. pure (ps ++ qs)) run.1) ≡ front ps (settled run)
settled-front ps (ok qs, d) = refl
settled-front ps (err e, d) = refl

-- Two ways to go on after a first call that settle alike.
settled-continue :
    (m n : Exec FrameStreamDecoder (List Packet)) (run : Result (List Packet) × FrameStreamDecoder)
    → IsDecoder run.1
    → ((d : FrameStreamDecoder) → IsDecoder d → settled (m d) ≡ settled (n d))
    → settled (continue run.0 (λ ps. do qs ← m; pure (ps ++ qs)) run.1)
      ≡ settled (continue run.0 (λ ps. do qs ← n; pure (ps ++ qs)) run.1)
settled-continue m n (err e, d) v h = refl
settled-continue m n (ok ps, d) v h =
    settled-front ps (m d) ∙ ap (front ps) (h d v) ∙ sym (settled-front ps (n d))

-- All the bytes of the pieces, in order.
abbrev pub joined : List (List ℕ) → List ℕ
joined [] = []
joined (bytes ∷ chunks) = bytes ++ joined chunks

joined-IsBytes : (chunks : List (List ℕ)) → All IsBytes chunks → IsBytes (joined chunks)
joined-IsBytes [] h = tt
joined-IsBytes (bytes ∷ chunks) h =
    All-append IsByte bytes (joined chunks) h.0 (joined-IsBytes chunks h.1)

last_front :
    (run : Result (List Packet) × FrameStreamDecoder)
    → settled (continue run.0 (λ ps. pure (ps ++ [])) run.1) ≡ settled run
last_front (ok ps, d) = rw append-nil
last_front (err e, d) = refl

-- The packets of a stream do not depend on how it is cut: on bytes and with a valid decoder, one
-- call of `feed` with no packet limit for each piece gives the packets, and the decoder, or else the
-- error, of one call on all the pieces joined, if there is a piece at all.
pub feed_each-joined :
    (first : List ℕ) (chunks : List (List ℕ)) (d : FrameStreamDecoder)
    → IsDecoder d
    → IsBytes first
    → All IsBytes chunks
    → settled (feed_each (first ∷ chunks) d) ≡ settled (feed (joined (first ∷ chunks)) none d)
unfolding feed_each
feed_each-joined first [] d v b bs =
    last_front (feed first none d) ∙ ap (λ t. settled (feed t none d)) (sym (append-nil first))
feed_each-joined first (next ∷ chunks) d v b bs =
    settled-continue (feed_each (next ∷ chunks)) (feed (joined (next ∷ chunks)) none)
      (feed first none d) (feed-Ends first none d v b).1
      (λ d' v'. feed_each-joined next chunks d' v' bs.0 bs.1)
    ∙ sym (feed-append first (joined (next ∷ chunks)) d v b (joined-IsBytes (next ∷ chunks) bs))
