-- ===== src/Session/Areas.antt =====
-- server/session.py: the area lists that `LoginSession` sends over a whole connection.
use army.Common.{
  ◌+◌, ◌≤◌, ◌≡◌, refl, arith, Bool, true, false, Option, none, some, List, [], ◌∷◌, ◌++◌, ◌==◌,
  if◌then◌else◌,
}
use army.Common.Int.{ℤ}
use army.Exec.{Result, ok, err}
use army.Framing.{Packet}
use army.Messages.Command.{number, area}
use army.Session.{LoginSession, SessionOutcome}
use army.Session.Handlers.{handle}
use army.Session.Replies.{
  Reply, reset2, status, response, versions, areas, da, e1, e0, reply_packet, reply-command,
  reply_command, handshake-command, splash_packet,
}
use army.Session.Steps.{
  revision_fits, request_of, splash, push, pushed, Step, refused, greeted, heard, answered, entered,
  readied,
}
use army.Session.Steps.Handled.States.{handle-Step}
use army.Session.Once.{outbound_of, handle_all, count, bit, count-append, Step-revision}

-- An answer holds an area list only if the request asks for one.
reply_areas :
    (x : Reply)
    → count area (reply_packet x ∷ []) ≡ (if number (request_of x) == number area then 1 else 0)
unfolding number reply_command request_of
reply_areas reset2 = rw (reply-command reset2) refl
reply_areas status = rw (reply-command status) refl
reply_areas response = rw (reply-command response) refl
reply_areas versions = rw (reply-command versions) refl
reply_areas areas = rw (reply-command areas) refl
reply_areas da = rw (reply-command da) refl
reply_areas e1 = rw (reply-command e1) refl
reply_areas e0 = rw (reply-command e0) refl

splash_no_area : (revision : Option ℤ) (sent : Bool) → count area (splash revision sent) ≡ 0
unfolding splash splash_packet number
splash_no_area none sent = refl
splash_no_area (some v) true = refl
splash_no_area (some v) false = refl

bootstrap_no_area :
    (ps : List Packet)
    → count area ps ≡ 0
    → count area (reply_packet response ∷ reply_packet versions ∷ ps) ≡ 0
unfolding number reply_command
bootstrap_no_area ps h = rw (reply-command response, reply-command versions) (omega (arith, h))

push-bit :
    (enabled sent : Bool) → count area (push enabled sent) + bit sent ≡ bit (pushed enabled sent)
unfolding push pushed reply_command
push-bit true false = rw (reply-command areas) (ground arith)
push-bit true true = omega arith
push-bit false sent = omega arith

Step-areas :
    (p : Packet) (s : LoginSession) (r : Result SessionOutcome) (s' : LoginSession)
    → Step p s r s'
    → count area (outbound_of r) + bit s.area_push_sent
      ≤ count area (p ∷ []) + bit s'.area_push_sent
unfolding number
Step-areas p s r s' (refused er es) = rw (er, es) (omega arith)
Step-areas p s r s' (greeted st n er es) = rw (er, es, handshake-command) (omega arith)
Step-areas p s r s' (heard c n h er es) = rw (er, es) (omega arith)
Step-areas p s r s' (answered x n h er es) = rw (er, es, n) (omega (arith, reply_areas x))
Step-areas p s r s' (entered n early er es) =
    rw (er, es)
      (omega (
        arith,
        bootstrap_no_area (splash s.experimental_splash_revision s.splash_transition_sent)
            (splash_no_area s.experimental_splash_revision s.splash_transition_sent),
      ))
Step-areas p s r s' (readied n early er es) =
    rw (er, es) (omega (arith, push-bit s.experimental_area_push s.area_push_sent))

areas_on :
    (r : Result SessionOutcome) (p : Packet) (ps : List Packet) (s s' : LoginSession)
    (rest : List Packet × LoginSession)
    → count area (outbound_of r) + bit s.area_push_sent
      ≤ count area (p ∷ []) + bit s'.area_push_sent
    → count area rest.0 + bit s'.area_push_sent ≤ count area ps + bit rest.1.area_push_sent
    → let run : List Packet × LoginSession = elim r [
      | ok o ↦ (o.outbound ++ rest.0, rest.1)
      | err e ↦ ([], s')
    ] in
      count area run.0 + bit s.area_push_sent ≤ count area (p ∷ ps) + bit run.1.area_push_sent
areas_on (ok o) p ps s s' rest h hs = omega (arith, count-append area o.outbound rest.0, h, hs)
areas_on (err e) p ps s s' rest h hs = omega (arith, h)

-- Over a connection with a splash revision that the configuration admits, an area list is sent for
-- a request of command 0xE4, or as the push, which the flag counts: the lists sent, with one more if
-- the flag was set before, are at most the requests, with one more if the flag is set in the end.
pub handle_all-areas :
    (ps : List Packet) (s : LoginSession)
    → revision_fits s.experimental_splash_revision ≡ true
    → count area (handle_all ps s).0 + bit s.area_push_sent
      ≤ count area ps + bit (handle_all ps s).1.area_push_sent
unfolding handle_all
handle_all-areas [] s fits = omega arith
handle_all-areas (p ∷ ps) s fits =
    let (r, s') = handle p s in
    let step = handle-Step p s fits in
    areas_on r p ps s s' (handle_all ps s') (Step-areas p s r s' step)
      (handle_all-areas ps s' (rw (Step-revision p s r s' step) fits))
