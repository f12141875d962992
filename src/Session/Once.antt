-- ===== src/Session/Once.antt =====
-- server/session.py: what `LoginSession` sends over a whole connection. `server/app.py` handles the
-- packets one by one, sends what each answer holds, and stops at the first error.
use army.Common.{
  ℕ, ◌+◌, ◌≡◌, refl, arith, Bool, true, false, Option, none, some, List, [], ◌∷◌, ◌++◌, ◌==◌,
  if◌then◌else◌,
}
use army.Common.Int.{ℤ}
use army.Exec.{Result, ok, err}
use army.Framing.{Packet}
use army.Messages.Command.{Command, number, screen_bootstrap}
use army.Session.{SessionOutcome, LoginSession}
use army.Session.Handlers.{handle}
use army.Session.Replies.{
  Reply, reset2, status, response, versions, areas, da, e1, e0, reply_packet, reply-command,
  reply_command, handshake-command, splash_packet,
}
use army.Session.Steps.{
  revision_fits, splash, splashed, push, Step, refused, greeted, heard, answered, entered, readied,
}
use army.Session.Steps.Handled.States.{handle-Step}

abbrev pub outbound_of : Result SessionOutcome → List Packet
outbound_of (ok o) = o.outbound
outbound_of (err e) = []

-- The packets sent for some packets, and the session that is left.
unfoldable pub handle_all : List Packet → LoginSession → List Packet × LoginSession
handle_all [] s = ([], s)
handle_all (p ∷ ps) s =
    let (r, s') = handle p s in
    let (sent, s'') = handle_all ps s' in
    elim r [ ok o ↦ (o.outbound ++ sent, s'') | err e ↦ ([], s') ]

-- How many packets have a command.
abbrev pub count : Command → List Packet → ℕ
count c [] = 0
count c (p ∷ ps) = (if p.command == number c then 1 else 0) + count c ps

abbrev pub bit : Bool → ℕ
bit true = 1
bit false = 0

pub count-append :
    (c : Command) (ps qs : List Packet) → count c (ps ++ qs) ≡ count c ps + count c qs
count-append c [] qs = omega arith
count-append c (p ∷ ps) qs = omega (arith, count-append c ps qs)

-- A reply is no splash transition.
reply_no_splash : (x : Reply) → count screen_bootstrap (reply_packet x ∷ []) ≡ 0
unfolding number reply_command
reply_no_splash reset2 = rw (reply-command reset2) refl
reply_no_splash status = rw (reply-command status) refl
reply_no_splash response = rw (reply-command response) refl
reply_no_splash versions = rw (reply-command versions) refl
reply_no_splash areas = rw (reply-command areas) refl
reply_no_splash da = rw (reply-command da) refl
reply_no_splash e1 = rw (reply-command e1) refl
reply_no_splash e0 = rw (reply-command e0) refl

pair_no_splash :
    (x y : Reply) (ps : List Packet)
    → count screen_bootstrap (reply_packet x ∷ reply_packet y ∷ ps) ≡ count screen_bootstrap ps
pair_no_splash x y ps = omega (
  arith,
  count-append screen_bootstrap (reply_packet x ∷ []) (reply_packet y ∷ ps),
  count-append screen_bootstrap (reply_packet y ∷ []) ps,
  reply_no_splash x,
  reply_no_splash y,
)

splash-bit :
    (revision : Option ℤ) (sent : Bool)
    → count screen_bootstrap (splash revision sent) + bit sent ≡ bit (splashed revision sent)
unfolding splash splashed splash_packet number
splash-bit none sent = omega arith
splash-bit (some v) true = omega arith
splash-bit (some v) false = omega arith

push_no_splash : (enabled sent : Bool) → count screen_bootstrap (push enabled sent) ≡ 0
unfolding push
push_no_splash true false = reply_no_splash areas
push_no_splash true true = refl
push_no_splash false sent = refl

Step-splash :
    (p : Packet) (s : LoginSession) (r : Result SessionOutcome) (s' : LoginSession)
    → Step p s r s'
    → count screen_bootstrap (outbound_of r) + bit s.splash_transition_sent
      ≡ bit s'.splash_transition_sent
unfolding number
Step-splash p s r s' (refused er es) = rw (er, es) (omega arith)
Step-splash p s r s' (greeted st n er es) = rw (er, es, handshake-command) (omega arith)
Step-splash p s r s' (heard c n h er es) = rw (er, es) (omega arith)
Step-splash p s r s' (answered x n h er es) = rw (er, es) (omega (arith, reply_no_splash x))
Step-splash p s r s' (entered n early er es) =
    rw (er, es)
      (omega (
        arith,
        pair_no_splash response versions
            (splash s.experimental_splash_revision s.splash_transition_sent),
        splash-bit s.experimental_splash_revision s.splash_transition_sent,
      ))
Step-splash p s r s' (readied n early er es) =
    rw (er, es) (omega (arith, push_no_splash s.experimental_area_push s.area_push_sent))

pub Step-revision :
    (p : Packet) (s : LoginSession) (r : Result SessionOutcome) (s' : LoginSession)
    → Step p s r s'
    → s'.experimental_splash_revision ≡ s.experimental_splash_revision
Step-revision p s r s' (refused er es) = rw es refl
Step-revision p s r s' (greeted st n er es) = rw es refl
Step-revision p s r s' (heard c n h er es) = rw es refl
Step-revision p s r s' (answered x n h er es) = rw es refl
Step-revision p s r s' (entered n early er es) = rw es refl
Step-revision p s r s' (readied n early er es) = rw es refl

-- What one packet and the packets behind it send.
splash_on :
    (r : Result SessionOutcome) (s s' : LoginSession) (rest : List Packet × LoginSession)
    → count screen_bootstrap (outbound_of r) + bit s.splash_transition_sent
      ≡ bit s'.splash_transition_sent
    → count screen_bootstrap rest.0 + bit s'.splash_transition_sent
      ≡ bit rest.1.splash_transition_sent
    → let run : List Packet × LoginSession = elim r [
      | ok o ↦ (o.outbound ++ rest.0, rest.1)
      | err e ↦ ([], s')
    ] in
      count screen_bootstrap run.0 + bit s.splash_transition_sent ≡ bit run.1.splash_transition_sent
splash_on (ok o) s s' rest h hs =
    omega (arith, count-append screen_bootstrap o.outbound rest.0, h, hs)
splash_on (err e) s s' rest h hs = h

-- The splash transitions that a connection sends are counted by the flag: with a splash revision that
-- the configuration admits, their number, with one more if the flag was set before, is 1 if the flag
-- is set in the end, and 0 otherwise. So there is one at most.
pub handle_all-splash :
    (ps : List Packet) (s : LoginSession)
    → revision_fits s.experimental_splash_revision ≡ true
    → count screen_bootstrap (handle_all ps s).0 + bit s.splash_transition_sent
      ≡ bit (handle_all ps s).1.splash_transition_sent
unfolding handle_all
handle_all-splash [] s fits = omega arith
handle_all-splash (p ∷ ps) s fits =
    let (r, s') = handle p s in
    let step = handle-Step p s fits in
    splash_on r s s' (handle_all ps s') (Step-splash p s r s' step)
      (handle_all-splash ps s' (rw (Step-revision p s r s' step) fits))
