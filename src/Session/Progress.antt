-- ===== src/Session/Progress.antt =====
-- server/session.py: how the state of `LoginSession` moves on.
use army.Common.{ℕ, ◌≤◌, ◌≡◌, refl, sym, ◌∙◌, arith, Bool, true, false, Option, none, some}
use army.Exec.{Error, Result, ok, err, session_protocol_error}
use army.Framing.{Packet}
use army.Messages.Command.{Command}
use army.Transform.{ByteTransform}
use army.Session.{
  SessionState, await_client_e5, await_initial_bb, bootstrap, account_panel_ready, LoginSession,
  SessionOutcome,
}
use army.Session.Handlers.{handle}
use army.Session.Replies.{Reply}
use army.Session.Steps.{
  revision_fits, hears, answers, is_early, Step, refused, greeted, heard, answered, entered,
  readied,
}
use army.Session.Steps.Handled.States.{handle-Step}

-- The states in the order of a login.
unfoldable pub rank : SessionState → ℕ
rank await_client_e5 = 0
rank await_initial_bb = 1
rank bootstrap = 2
rank account_panel_ready = 3

early_rank : (st : SessionState) → is_early st ≡ true → rank st ≤ 2
unfolding is_early rank
early_rank await_client_e5 h = cc
early_rank await_initial_bb h = omega arith
early_rank bootstrap h = omega arith
early_rank account_panel_ready h = cc

Step-rank :
    (p : Packet) (s : LoginSession) (r : Result SessionOutcome) (s' : LoginSession)
    → Step p s r s'
    → rank s.state ≤ rank s'.state
unfolding rank
Step-rank p s r s' (refused er es) = rw es (omega arith)
Step-rank p s r s' (greeted st n er es) = rw (es, st) (omega arith)
Step-rank p s r s' (heard c n h er es) = rw es (omega arith)
Step-rank p s r s' (answered x n h er es) = rw es (omega arith)
Step-rank p s r s' (entered n early er es) = rw es (early_rank s.state early)
Step-rank p s r s' (readied n early er es) = rw es (omega (arith, early_rank s.state early))

-- A packet never takes the session back to an earlier state, when the splash revision is one that
-- the configuration admits.
pub handle-rank :
    (p : Packet) (s : LoginSession)
    → revision_fits s.experimental_splash_revision ≡ true
    → rank s.state ≤ rank (handle p s).1.state
handle-rank p s fits = Step-rank p s (handle p s).0 (handle p s).1 (handle-Step p s fits)

Step-refused :
    (p : Packet) (s : LoginSession) (r : Result SessionOutcome) (s' : LoginSession) (e : Error)
    → Step p s r s'
    → r ≡ err e
    → (e ≡ session_protocol_error) × (s' ≡ s)
Step-refused p s r s' e (refused er es) h =
    let same : ◌≡◌ {A = Result SessionOutcome} (err session_protocol_error) (err e) = sym er ∙ h in
    (sym (cc same), es)
Step-refused p s r s' e (greeted st n er es) h = absurd (cc (sym er ∙ h))
Step-refused p s r s' e (heard c n x er es) h = absurd (cc (sym er ∙ h))
Step-refused p s r s' e (answered y n x er es) h = absurd (cc (sym er ∙ h))
Step-refused p s r s' e (entered n early er es) h = absurd (cc (sym er ∙ h))
Step-refused p s r s' e (readied n early er es) h = absurd (cc (sym er ∙ h))

-- A packet that is refused raises SessionProtocolError and leaves the session as it was, when the
-- splash revision is one that the configuration admits.
pub handle-refused :
    (p : Packet) (s : LoginSession) (e : Error)
    → revision_fits s.experimental_splash_revision ≡ true
    → (handle p s).0 ≡ err e
    → (e ≡ session_protocol_error) × ((handle p s).1 ≡ s)
handle-refused p s e fits h =
    Step-refused p s (handle p s).0 (handle p s).1 e (handle-Step p s fits) h

abbrev pub turns_on : Option ByteTransform → Bool
turns_on none = false
turns_on (some t) = true

unfoldable pub is_waiting : SessionState → Bool
is_waiting await_client_e5 = true
is_waiting _ = false

heard_late : (st : SessionState) (c : Command) → hears st c ≡ true → is_waiting st ≡ false
unfolding hears is_waiting
heard_late await_client_e5 c h = cc
heard_late await_initial_bb c h = refl
heard_late bootstrap c h = refl
heard_late account_panel_ready c h = refl

answered_late : (st : SessionState) (x : Reply) → answers st x ≡ true → is_waiting st ≡ false
unfolding answers is_waiting
answered_late await_client_e5 x h = cc
answered_late await_initial_bb x h = refl
answered_late bootstrap x h = refl
answered_late account_panel_ready x h = refl

early_late : (st : SessionState) → is_early st ≡ true → is_waiting st ≡ false
unfolding is_early is_waiting
early_late await_client_e5 h = cc
early_late await_initial_bb h = refl
early_late bootstrap h = refl
early_late account_panel_ready h = refl

outcome_eq : (r : Result SessionOutcome) (a o : SessionOutcome) → r ≡ ok a → r ≡ ok o → a ≡ o
outcome_eq r a o e h =
    let same : ◌≡◌ {A = Result SessionOutcome} (ok a) (ok o) = sym e ∙ h in cc same

Step-transform :
    (p : Packet) (s : LoginSession) (r : Result SessionOutcome) (s' : LoginSession)
    (o : SessionOutcome)
    → Step p s r s'
    → r ≡ ok o
    → (turns_on o.enable_transform ≡ is_waiting s.state) × (is_waiting s'.state ≡ false)
unfolding is_waiting
Step-transform p s r s' o (refused er es) h = absurd (cc (sym er ∙ h))
Step-transform p s r s' o (greeted st n er es) h =
    rw (sym (outcome_eq r _ o er h), st, es) (refl, refl)
Step-transform p s r s' o (heard c n x er es) h =
    rw (sym (outcome_eq r _ o er h), es) (sym (heard_late s.state c x), heard_late s.state c x)
Step-transform p s r s' o (answered y n x er es) h =
    rw (sym (outcome_eq r _ o er h), es)
      (sym (answered_late s.state y x), answered_late s.state y x)
Step-transform p s r s' o (entered n early er es) h =
    rw (sym (outcome_eq r _ o er h), es) (sym (early_late s.state early), refl)
Step-transform p s r s' o (readied n early er es) h =
    rw (sym (outcome_eq r _ o er h), es) (sym (early_late s.state early), refl)

-- A packet that is accepted turns the transformation on exactly if the session was waiting for the
-- handshake, and the session is not waiting afterwards, when the splash revision is one that the
-- configuration admits.
pub handle-transform :
    (p : Packet) (s : LoginSession) (o : SessionOutcome)
    → revision_fits s.experimental_splash_revision ≡ true
    → (handle p s).0 ≡ ok o
    → (turns_on o.enable_transform ≡ is_waiting s.state) × (is_waiting (handle p s).1.state ≡ false)
handle-transform p s o fits h =
    Step-transform p s (handle p s).0 (handle p s).1 o (handle-Step p s fits) h
