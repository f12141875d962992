-- ===== src/Framing/Chunks/Loop.antt =====
-- The loop of `feed`: how much fuel it takes, and what more bytes behind its input add.
use army.Common.{
  ℕ, zero, suc, ◌+◌, ◌<◌, ◌≡◌, ◌≢◌, ◌⊎◌, refl, sym, ap, ◌∙◌, arith, Bool, true, false, Option, none,
  some, List, [], ◌∷◌, ◌++◌, length, length-append, append_assoc, All-append, if◌then◌else◌, inl,
  inr,
}
use army.Bytes.{IsByte, IsBytes}
use army.Exec.{Result, ok, err, frame_error, out_of_fuel, continue, pure}
use army.Transform.{TransformCursor}
use army.Framing.{Packet, FrameStreamDecoder, reached, feed_loop, extend}
use army.Framing.Parse.{Parsed, incomplete, oversized, frame, parsed, answer, IsDecoder}
use army.Framing.Parse.{decode_one-eq}
use army.Framing.Chunks.Grow.{grow, parse-grow, frame-IsDecoder}

-- One round over what the buffer holds.
after_parse :
    ℕ
    → Option ℕ
    → List Packet
    → FrameStreamDecoder
    → Parsed
    → Result (List Packet) × FrameStreamDecoder
after_parse fuel max packets d incomplete = (ok packets, d)
after_parse fuel max packets d oversized = (err frame_error, d)
after_parse fuel max packets d (frame p rest c) =
    feed_loop fuel max (packets ++ p ∷ []) (record d { cursor = c; buffer = rest })

loop_step :
    (fuel : ℕ) (max : Option ℕ) (packets : List Packet) (d : FrameStreamDecoder)
    → IsDecoder d
    → feed_loop (suc fuel) max packets d
      ≡ (if reached max packets then (ok packets, d) else after_parse fuel max packets d (parsed d))
unfolding feed_loop after_parse
loop_step fuel max packets d v = rw (decode_one-eq d v) (cases (parsed d))
  where
    cases :
        (r : Parsed)
        → (if reached max packets
            then (ok packets, d)
            else continue
                (answer d r).0
                (λ p. elim p [
                  | none ↦ pure packets
                  | some p ↦ feed_loop fuel max (packets ++ p ∷ [])
                ])
                (answer d r).1)
          ≡ (if reached max packets then (ok packets, d) else after_parse fuel max packets d r)
    cases incomplete = refl
    cases oversized = refl
    cases (frame p rest c) = refl

pub extend-IsDecoder :
    (bytes : List ℕ) (d : FrameStreamDecoder)
    → IsDecoder d
    → IsBytes bytes
    → IsDecoder (extend bytes d)
extend-IsDecoder bytes d v h = record {
  has_cursor = v.has_cursor;
  bytes = All-append IsByte d.buffer bytes v.bytes h;
}

Parsed-cases :
    (r : Parsed)
    → (r ≡ incomplete)
      ⊎ ((r ≡ oversized)
          ⊎ ((p : Packet) × (rest : List ℕ) × (c : Option TransformCursor) × (r ≡ frame p rest c)))
Parsed-cases incomplete = inl refl
Parsed-cases oversized = inr (inl refl)
Parsed-cases (frame p rest c) = inr (inr (p, rest, c, refl))

-- Any fuel above the size of the buffer gives the same result.
pub enough_fuel :
    (f g : ℕ) (max : Option ℕ) (packets : List Packet) (d : FrameStreamDecoder)
    → IsDecoder d
    → length d.buffer < f
    → length d.buffer < g
    → feed_loop f max packets d ≡ feed_loop g max packets d
unfolding after_parse
enough_fuel zero g max packets d v hf hg = absurd (omega arith)
enough_fuel (suc f) zero max packets d v hf hg = absurd (omega arith)
enough_fuel (suc f) (suc g) max packets d v hf hg =
    rw (loop_step f max packets d v, loop_step g max packets d v)
      (ap (λ t. if reached max packets then (ok packets, d) else t)
        (elim (Parsed-cases (parsed d)) [
          | inl e ↦ rw e
          | inr (inl e) ↦ rw e
          | inr (inr (p, rest, c, e)) ↦
              let (less, v') = frame-IsDecoder d p rest c v e in
              rw e (
                enough_fuel f g max (packets ++ p ∷ []) (record d { cursor = c; buffer = rest }) v'
                  (omega arith) (omega arith))
        ]))

-- A run that ends: not for want of fuel, and with a valid decoder.
abbrev pub Ends : Result (List Packet) × FrameStreamDecoder → Type 0
Ends (r, d) = (r ≢ err out_of_fuel) × IsDecoder d

Ends-if :
    (b : Bool) (x y : Result (List Packet) × FrameStreamDecoder)
    → Ends x
    → Ends y
    → Ends (if b then x else y)
Ends-if true x y hx hy = hx
Ends-if false x y hx hy = hy

-- With that fuel the loop never stops for want of it, and it keeps the decoder valid.
pub loop-Ends :
    (f : ℕ) (max : Option ℕ) (packets : List Packet) (d : FrameStreamDecoder)
    → IsDecoder d
    → length d.buffer < f
    → Ends (feed_loop f max packets d)
unfolding after_parse
loop-Ends zero max packets d v h = absurd (omega arith)
loop-Ends (suc f) max packets d v h = rw (loop_step f max packets d v) (
    Ends-if (reached max packets) (ok packets, d) (after_parse f max packets d (parsed d))
      (λ q. cc, v)
      (elim (Parsed-cases (parsed d)) [
        | inl e ↦ rw e (λ q. cc, v)
        | inr (inl e) ↦ rw e (λ q. cc, v)
        | inr (inr (p, rest, c, e)) ↦
            let (less, v') = frame-IsDecoder d p rest c v e in
            rw e (
              loop-Ends f max (packets ++ p ∷ []) (record d { cursor = c; buffer = rest }) v'
                (omega arith))
      ]))

-- Packets that were there before stay in front.
abbrev pub prepend :
    List Packet
    → Result (List Packet) × FrameStreamDecoder
    → Result (List Packet) × FrameStreamDecoder
prepend before (ok ps, d) = (ok (before ++ ps), d)
prepend before (err e, d) = (err e, d)

pub loop-prepend :
    (f : ℕ) (before packets : List Packet) (d : FrameStreamDecoder)
    → IsDecoder d
    → feed_loop f none (before ++ packets) d ≡ prepend before (feed_loop f none packets d)
unfolding after_parse
loop-prepend zero before packets d v = unfold feed_loop in refl
loop-prepend (suc f) before packets d v =
    rw (loop_step f none (before ++ packets) d v, loop_step f none packets d v)
      (elim (Parsed-cases (parsed d)) [
        | inl e ↦ rw e
        | inr (inl e) ↦ rw e
        | inr (inr (p, rest, c, e)) ↦
            rw (e, append_assoc before packets (p ∷ []))
              (loop-prepend f before (packets ++ p ∷ []) (record d { cursor = c; buffer = rest })
                (frame-IsDecoder d p rest c v e).1)
      ])

-- What a caller keeps of a run: after an error the decoder is given up.
abbrev pub settled :
    Result (List Packet) × FrameStreamDecoder → Result (List Packet × FrameStreamDecoder)
settled (ok ps, d) = ok (ps, d)
settled (err e, d) = err e

-- The loop with the later bytes already there, and the loop that gets them when it is done.
abbrev pub resume :
    List ℕ → Result (List Packet) × FrameStreamDecoder → Result (List Packet) × FrameStreamDecoder
resume more (ok ps, d) = feed_loop (suc (length (d.buffer ++ more))) none ps (extend more d)
resume more (err e, d) = (err e, d)

grown :
    (d : FrameStreamDecoder) (more : List ℕ) {r : Parsed}
    → parsed d ≡ r
    → r ≢ incomplete
    → parsed (extend more d) ≡ grow more r
grown d more e h =
    parse-grow d.direction d.max_payload_bytes d.cursor d.buffer more (λ q. h (sym e ∙ q))
    ∙ ap (grow more) e

pub loop-extend :
    (f g : ℕ) (packets : List Packet) (d : FrameStreamDecoder) (more : List ℕ)
    → IsDecoder d
    → IsBytes more
    → length d.buffer < f
    → length d.buffer + length more < g
    → settled (feed_loop g none packets (extend more d))
      ≡ settled (resume more (feed_loop f none packets d))
unfolding after_parse
loop-extend zero g packets d more v b hf hg = absurd (omega arith)
loop-extend (suc f) zero packets d more v b hf hg = absurd (omega arith)
loop-extend (suc f) (suc g) packets d more v b hf hg = elim (Parsed-cases (parsed d)) [
  | inl e ↦
      rw (loop_step f none packets d v, e)
        (ap settled (
          enough_fuel (suc g) (suc (length (d.buffer ++ more))) none packets (extend more d)
            (extend-IsDecoder more d v b) (omega (arith, length-append d.buffer more))
            (omega arith)))
  | inr (inl e) ↦ rw (
    loop_step f none packets d v,
    e,
    loop_step g none packets (extend more d) (extend-IsDecoder more d v b),
    grown d more e (λ q. cc),
  )
  | inr (inr (p, rest, c, e)) ↦
      let (less, v') = frame-IsDecoder d p rest c v e in
      rw
        (
          loop_step f none packets d v,
          e,
          loop_step g none packets (extend more d) (extend-IsDecoder more d v b),
          grown d more e (λ q. cc),
        )
        (loop-extend f g (packets ++ p ∷ []) (record d { cursor = c; buffer = rest }) more v' b
          (omega arith) (omega arith))
]
