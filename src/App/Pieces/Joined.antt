-- ===== src/App/Pieces/Joined.antt =====
-- server/app.py: a connection whose stream is cut into reads in different ways.
use army.Common.{
  ℕ, zero, suc, ◌<◌, ◌≡◌, ◌≢◌, refl, sym, ap, ◌∙◌, arith, List, [], ◌++◌, length, length-append,
  append-nil, append_assoc, All-append,
}
use army.Bytes.{IsByte, IsBytes}
use army.Exec.{Result, ok, err, continue, ◌>>◌}
use army.Framing.Parse.{IsDecoder, Parsed, incomplete, oversized, frame, parsed}
use army.Framing.Chunks.{grow, parse-grow}
use army.App.{Client, handle_packet, process, on_data}
use army.App.Valid.{IsClient, Ends}
use army.App.Valid.Events.{filled, filled-IsDecoder}
use army.App.Pieces.{hold, holding, handle_packet-hold, after_round, process-round}
use army.App.Pieces.Fuel.{process-shift, taken, frame-Frame, hold-IsClient, process-fuel}

-- What is seen of a run: behind an error, not the bytes that were left in the buffer.
abbrev pub settle : Result (Unit {0}) × Client → Result (Unit {0}) × Client
settle (ok x, c) = (ok x, c)
settle (err e, c) = (err e, hold [] c)

on_data-process :
    (ys : List ℕ) (c : Client)
    → IsClient c
    → IsBytes ys
    → on_data ys c
      ≡ process (suc (length (c.decoder.buffer ++ ys))) [] (hold (c.decoder.buffer ++ ys) c)
unfolding on_data
on_data-process ys c v b =
    let vd : IsDecoder (filled (ys ++ []) c.decoder) =
      filled-IsDecoder (ys ++ []) c.decoder v.decoder_valid (rw append-nil b) in
    rw append-nil at (process-shift (length (c.decoder.buffer ++ ys)) ys [] c vd)

-- A round with more bytes behind a frame, or behind a header over the limit.
round_grown :
    (g : ℕ) (ys : List ℕ) (c : Client) (r : Parsed)
    → IsClient c
    → IsBytes ys
    → parsed c.decoder ≡ r
    → r ≢ incomplete
    → process (suc g) [] (hold (c.decoder.buffer ++ ys) c)
      ≡ after_round g (hold (c.decoder.buffer ++ ys) c) (grow ys r)
round_grown g ys c r v b e n =
    let d : IsDecoder (hold (c.decoder.buffer ++ ys) c).decoder =
      filled-IsDecoder ys c.decoder v.decoder_valid b in
    let long : parsed (hold (c.decoder.buffer ++ ys) c).decoder ≡ grow ys r =
      parse-grow c.decoder.direction c.decoder.max_payload_bytes c.decoder.cursor c.decoder.buffer
        ys (rw e n)
      ∙ ap (grow ys) e in
    let one =
      process-round g [] (hold (c.decoder.buffer ++ ys) c)
        (filled-IsDecoder [] (hold (c.decoder.buffer ++ ys) c).decoder d tt) in
    rw (one, append-nil, long) refl

module _ (f g : ℕ) (ys : List ℕ) (b : IsBytes ys)
    (again : (c : Client)
      → IsClient c
      → length c.decoder.buffer < f
      → length (c.decoder.buffer ++ ys) < g
      → settle (process g [] (hold (c.decoder.buffer ++ ys) c))
        ≡ settle (continue (process f [] c).0 (λ x. on_data ys) (process f [] c).1)) where
  -- Behind the packet, more bytes in the buffer.
  next_piece :
      (run : Result (Unit {0}) × Client) (rest : List ℕ)
      → Ends run
      → run.1.decoder.buffer ≡ rest
      → length rest < f
      → length (rest ++ ys) < g
      → settle
          (continue (holding (rest ++ ys) run).0 (λ x. process g []) (holding (rest ++ ys) run).1)
        ≡ settle (
            continue
              (continue run.0 (λ x. process f []) run.1).0
              (λ x. on_data ys)
              (continue run.0 (λ x. process f []) run.1).1)
  next_piece (err e, c) rest h left lf lg = refl
  next_piece (ok x, c) rest h left lf lg =
      rw (sym left) (again c (h.valid refl) (rw left lf) (rw left lg))

  piece-round :
      (c : Client) (r : Parsed)
      → IsClient c
      → parsed c.decoder ≡ r
      → length c.decoder.buffer < suc f
      → length (c.decoder.buffer ++ ys) < suc g
      → settle (process (suc g) [] (hold (c.decoder.buffer ++ ys) c))
        ≡ settle (continue (after_round f c r).0 (λ x. on_data ys) (after_round f c r).1)
  piece-round c incomplete v e lf lg =
      let vh : IsClient (hold (c.decoder.buffer ++ ys) c) =
        hold-IsClient (c.decoder.buffer ++ ys) c v
          (All-append IsByte c.decoder.buffer ys v.decoder_valid.bytes b) in
      ap settle (
        process-fuel (suc g) (suc (length (c.decoder.buffer ++ ys)))
          (hold (c.decoder.buffer ++ ys) c) vh lg (omega arith)
        ∙ sym (on_data-process ys c v b))
  piece-round c oversized v e lf lg = rw (round_grown g ys c oversized v b e (λ q. cc q)) refl
  piece-round c (frame p rest k) v e lf lg =
      let fr = frame-Frame c p rest k v e in
      rw
        (
          round_grown g ys c (frame p rest k) v b e (λ q. cc q),
          handle_packet-hold (rest ++ ys) p (taken c rest k),
        )
        (next_piece (handle_packet p (taken c rest k)) rest fr.ends fr.left
          (omega (arith, fr.shorter, lf))
          (omega (arith, fr.shorter, lg, length-append rest ys, length-append c.decoder.buffer ys)))

process-pieces :
    (f g : ℕ) (ys : List ℕ) (c : Client)
    → IsClient c
    → IsBytes ys
    → length c.decoder.buffer < f
    → length (c.decoder.buffer ++ ys) < g
    → settle (process g [] (hold (c.decoder.buffer ++ ys) c))
      ≡ settle (continue (process f [] c).0 (λ x. on_data ys) (process f [] c).1)
process-pieces zero g ys c v b lf lg = absurd (omega arith)
process-pieces (suc f) zero ys c v b lf lg = absurd (omega arith)
process-pieces (suc f) (suc g) ys c v b lf lg =
    let one = process-round f [] c (filled-IsDecoder [] c.decoder v.decoder_valid tt) in
    rw (one, append-nil)
      (piece-round f g ys b (λ c' v' lf' lg'. process-pieces f g ys c' v' b lf' lg') c
        (parsed c.decoder) v refl lf lg)

-- How the stream is cut makes no difference: for a valid client, handling two pieces of bytes one
-- after the other ends as handling them joined does, with the same error, session, cursors and bytes
-- written, and without an error with the same client. Behind an error, the bytes left in the buffer
-- are not compared.
pub on_data-append :
    (xs ys : List ℕ) (c : Client)
    → IsClient c
    → IsBytes xs
    → IsBytes ys
    → settle (on_data (xs ++ ys) c) ≡ settle ((on_data xs >> on_data ys) c)
on_data-append xs ys c v bx b =
    let vx : IsClient (hold (c.decoder.buffer ++ xs) c) =
      hold-IsClient (c.decoder.buffer ++ xs) c v
        (All-append IsByte c.decoder.buffer xs v.decoder_valid.bytes bx) in
    rw
      (
        on_data-process (xs ++ ys) c v (All-append IsByte xs ys bx b),
        on_data-process xs c v bx,
        sym (append_assoc c.decoder.buffer xs ys),
      )
      (process-pieces (suc (length (c.decoder.buffer ++ xs)))
        (suc (length ((c.decoder.buffer ++ xs) ++ ys))) ys (hold (c.decoder.buffer ++ xs) c) vx b
        (omega arith) (omega arith))
