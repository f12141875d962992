-- ===== src/App/Pieces/Fuel.antt =====
-- server/app.py: rounds of `process` over the frames in the buffer, and the fuel they take.
use army.Common.{
  ℕ, zero, suc, ◌<◌, ◌≡◌, refl, ◌∙◌, arith, Option, List, [], ◌++◌, length, append-nil,
  append_assoc,
}
use army.Bytes.{IsBytes}
use army.Exec.{Result, ok, err, continue}
use army.Transform.{TransformCursor}
use army.Framing.{Packet}
use army.Framing.Parse.{IsDecoder, Parsed, incomplete, oversized, frame, parsed}
use army.Framing.Chunks.{frame-IsDecoder}
use army.App.{Client, is_some, handle_packet, process}
use army.App.Valid.{IsClient, Ends}
use army.App.Valid.Events.{Keeps, parsed-Keeps, filled, filled-IsDecoder}
use army.App.Valid.Packets.{handle_packet-Ends}
use army.App.Valid.Runs.{with_decoder-IsClient, handle_packet-buffer}
use army.App.Pieces.{hold, after_round, process-round}
use mathlib.Core.Path.{subst}

-- Bytes in the buffer, and bytes that are read.
pub process-shift :
    (fuel : ℕ) (xs ys : List ℕ) (c : Client)
    → IsDecoder (filled (xs ++ ys) c.decoder)
    → process (suc fuel) (xs ++ ys) c ≡ process (suc fuel) ys (hold (c.decoder.buffer ++ xs) c)
process-shift fuel xs ys c v =
    let v' : IsDecoder (filled ys (hold (c.decoder.buffer ++ xs) c).decoder) =
      rw (append_assoc c.decoder.buffer xs ys) v in
    process-round fuel (xs ++ ys) c v
    ∙ rw
        (
          process-round fuel ys (hold (c.decoder.buffer ++ xs) c) v',
          append_assoc c.decoder.buffer xs ys,
        )
        refl

abbrev pub taken : Client → List ℕ → Option TransformCursor → Client
taken c rest k = record c { decoder = record c.decoder { cursor = k; buffer = rest } }

-- What is known of a frame at the front of the buffer.
pub record Frame (c : Client) (p : Packet) (rest : List ℕ) (k : Option TransformCursor)
    : Type 0 where
  pub shorter : length rest < length c.decoder.buffer
  pub bytes : IsBytes rest
  pub ends : Ends (handle_packet p (taken c rest k))
  pub left : (handle_packet p (taken c rest k)).1.decoder.buffer ≡ rest

pub frame-Frame :
    (c : Client) (p : Packet) (rest : List ℕ) (k : Option TransformCursor)
    → IsClient c
    → parsed c.decoder ≡ frame p rest k
    → Frame c p rest k
frame-Frame c p rest k v e =
    let (shorter, vd) = frame-IsDecoder c.decoder p rest k v.decoder_valid e in
    let kept : is_some k ≡ is_some c.decoder.cursor =
      subst (Keeps c.decoder.cursor) e (parsed-Keeps c.decoder) in
    record {
      shorter = shorter;
      bytes = vd.bytes;
      ends = handle_packet-Ends p (taken c rest k) (with_decoder-IsClient c _ v vd kept);
      left = handle_packet-buffer p (taken c rest k);
    }

pub hold-IsClient :
    (bytes : List ℕ) (c : Client) → IsClient c → IsBytes bytes → IsClient (hold bytes c)
hold-IsClient bytes c v b =
    with_decoder-IsClient c _ v (record { has_cursor = v.decoder_valid.has_cursor; bytes = b }) refl

module _ (f g : ℕ)
    (again : (c : Client)
      → IsClient c
      → length c.decoder.buffer < f
      → length c.decoder.buffer < g
      → process f [] c ≡ process g [] c) where
  fuel_next :
      (run : Result (Unit {0}) × Client)
      → Ends run
      → length run.1.decoder.buffer < f
      → length run.1.decoder.buffer < g
      → continue run.0 (λ x. process f []) run.1 ≡ continue run.0 (λ x. process g []) run.1
  fuel_next (ok x, c) h lf lg = again c (h.valid refl) lf lg
  fuel_next (err e, c) h lf lg = refl

  fuel-round :
      (c : Client) (r : Parsed)
      → IsClient c
      → parsed c.decoder ≡ r
      → length c.decoder.buffer < suc f
      → length c.decoder.buffer < suc g
      → after_round f c r ≡ after_round g c r
  fuel-round c incomplete v e lf lg = refl
  fuel-round c oversized v e lf lg = refl
  fuel-round c (frame p rest k) v e lf lg =
      let fr = frame-Frame c p rest k v e in
      fuel_next (handle_packet p (taken c rest k)) fr.ends
        (rw fr.left (omega (arith, fr.shorter, lf))) (rw fr.left (omega (arith, fr.shorter, lg)))

-- More fuel than enough changes nothing.
pub process-fuel :
    (f g : ℕ) (c : Client)
    → IsClient c
    → length c.decoder.buffer < f
    → length c.decoder.buffer < g
    → process f [] c ≡ process g [] c
process-fuel zero g c v lf lg = absurd (omega arith)
process-fuel (suc f) zero c v lf lg = absurd (omega arith)
process-fuel (suc f) (suc g) c v lf lg =
    let vd : IsDecoder (filled [] c.decoder) = filled-IsDecoder [] c.decoder v.decoder_valid tt in
    rw (process-round f [] c vd, process-round g [] c vd, append-nil)
      (fuel-round f g (process-fuel f g) c (parsed c.decoder) v refl lf lg)
