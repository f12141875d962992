-- ===== src/Session/Steps/Handled.antt =====
-- server/session.py: the parts of the handlers, against the steps of the relation.
pub mod States
use army.Common.{
  ℕ, ◌≡◌, refl, sym, ap, arith, Bool, true, false, not, Bool-cases, Option, none, some, List, [],
  ◌∷◌, ◌++◌, append-nil, ◌||◌, ◌==◌, ◌⊎◌, inl, inr, if◌then◌else◌,
}
use army.Common.Int.{ℤ, pos, negsuc, within}
use army.Exec.{
  Error, Result, ok, err, session_protocol_error, Exec, pure, raise, lift, continue, ◌>>=◌, ◌>>◌,
}
use army.Framing.{Packet}
use army.Primitives.Errors.{Raises}
use army.Messages.Command.{
  Command, number, command_of, command_of-number, unknown_07, post_reset_status, client_text_72,
  transport_sync, client_u32_b2, client_session, screen_bootstrap, client_selection, bootstrap_da,
  bootstrap_ready, bootstrap_e0, bootstrap_e1, area, handshake, prelogin_status,
}
use army.Messages.EmptyClientRequest.{is_empty_request}
use army.Session.{
  SessionState, await_client_e5, await_initial_bb, bootstrap, account_panel_ready, SessionOutcome,
  sending, silent, LoginSession, seed, shift, Session, set_state, has_command, decode_empty,
  decode_session_request, reply, status_reply, session_response, area_push_if_enabled,
  splash_transition, initial_bootstrap_responses,
}
use army.Session.Handlers.{
  handle_e5, become_ready, prelogin_reply, handle_initial_bb, handle_bootstrap, retry_response,
  known_command, handle_bootstrap_retry, handle_ready, handle_in, handle,
}
use army.Session.Requests.{
  Checks, transport_sync-Checks, post_reset_status-Checks, prelogin72-Checks, u32_b2-Checks,
  c6_selection-Checks, area-Checks, session_request-Checks, empty-Checks, screen-Checks, has_number,
}
use army.Session.Replies.{
  Reply, reset2, status, response, versions, areas, da, e1, e0, encoded, encoded-eq, reply_packet,
  handshake-eq, local-eq, splash-eq,
}
use army.Session.Steps.{
  revision_fits, hears, request_of, answers, is_early, splash, splashed, push, pushed, Step,
  refused, greeted, heard, answered, entered, readied,
}

-- A session whose fields are given.
abbrev pub fields : SessionState → Option ℤ → Bool → Bool → Bool → LoginSession
fields st revision splash_sent area_push area_sent = record {
  state = st;
  experimental_splash_revision = revision;
  splash_transition_sent = splash_sent;
  experimental_area_push = area_push;
  area_push_sent = area_sent;
}

pub push-fields :
    (st : SessionState) (revision : Option ℤ) (splash_sent area_push area_sent : Bool)
    → area_push_if_enabled (fields st revision splash_sent area_push area_sent) ≡ (
      ok (push area_push area_sent),
      fields st revision splash_sent area_push (pushed area_push area_sent),
    )
unfolding area_push_if_enabled push pushed
push-fields st revision splash_sent false area_sent = refl
push-fields st revision splash_sent true true = refl
push-fields st revision splash_sent true false = rw (encoded-eq areas) refl

splash-fields :
    (st : SessionState) (revision : Option ℤ) (splash_sent area_push area_sent : Bool)
    (responses : List Packet)
    → revision_fits revision ≡ true
    → splash_transition revision splash_sent responses
        (fields st revision splash_sent area_push area_sent)
      ≡ (
        ok (responses ++ splash revision splash_sent),
        fields st revision (splashed revision splash_sent) area_push area_sent,
      )
unfolding splash_transition splash splashed revision_fits
splash-fields st none splash_sent area_push area_sent responses h = rw append-nil refl
splash-fields st (some v) true area_push area_sent responses h = rw append-nil refl
splash-fields st (some v) false area_push area_sent responses h = rw (splash-eq v h) refl

-- The packets behind a session request, and the session that they leave.
pub bootstrap_responses :
    (s : LoginSession)
    → revision_fits s.experimental_splash_revision ≡ true
    → initial_bootstrap_responses s ≡ (
      ok (
          reply_packet response
          ∷ reply_packet versions
          ∷ splash s.experimental_splash_revision s.splash_transition_sent),
      record s {
        splash_transition_sent = splashed s.experimental_splash_revision s.splash_transition_sent;
      },
    )
unfolding initial_bootstrap_responses
bootstrap_responses s h =
    rw (encoded-eq response, encoded-eq versions)
      (splash-fields s.state s.experimental_splash_revision s.splash_transition_sent
        s.experimental_area_push s.area_push_sent
        (reply_packet response ∷ reply_packet versions ∷ []) h)

-- The action makes a step from `s`.
pub record Acts (p : Packet) (s : LoginSession) (m : Session SessionOutcome) : Type 0 where
  pub step : Step p s (m s).0 (m s).1

module _ (p : Packet) (s : LoginSession) where
  continue-Step :
      {A : Type 0} (r : Result A) (k : A → Session SessionOutcome)
      → Raises session_protocol_error r
      → ((a : A) → Acts p s (k a))
      → Step p s (continue r k s).0 (continue r k s).1
  continue-Step (ok a) k h hk = (hk a).step
  continue-Step (err e) k h hk = refused (ap err (h.only e refl)) refl

  pub then_step :
      {A : Type 0} (m : Session A) (k : A → Session SessionOutcome)
      → Checks m s
      → ((a : A) → Acts p s (k a))
      → Acts p s (m >>= k)
  then_step m k c hk = record { step = rw c.kept (continue-Step (m s).0 k c.errors hk) }

  pub when_command :
      (c : Command) (m n : Session SessionOutcome)
      → (p.command ≡ number c → Acts p s m)
      → Acts p s n
      → Acts p s (if has_command p c then m else n)
  when_command c m n hm hn = elim (Bool-cases (has_command p c)) [
    | inl e ↦ record { step = rw e (hm (has_number p c e)).step }
    | inr e ↦ record { step = rw e hn.step }
  ]

  -- A request that only one command makes.
  pub named :
      {A : Type 0} (c : Command) (m : Session A) (k : A → Session SessionOutcome)
      → (has_command p c ≡ false → m s ≡ (err session_protocol_error, s))
      → (p.command ≡ number c → Acts p s (m >>= k))
      → Acts p s (m >>= k)
  named c m k hm hk = elim (Bool-cases (has_command p c)) [
    | inl e ↦ hk (has_number p c e)
    | inr e ↦ record { step = rw (hm e) (refused refl refl) }
  ]

  pub unexpected : Acts p s (raise session_protocol_error)
  unexpected = record { step = refused refl refl }

  pub hear : (c : Command) → p.command ≡ number c → hears s.state c ≡ true → Acts p s (pure silent)
  hear c n h = record { step = heard c n h refl refl }

  pub answer :
      (x : Reply) (r : Result Packet)
      → r ≡ ok (reply_packet x)
      → p.command ≡ number (request_of x)
      → answers s.state x ≡ true
      → Acts p s (reply r)
  unfolding reply
  answer x r e n h = record { step = rw e (answered x n h refl refl) }

  pub prelogin :
      p.command ≡ number prelogin_status
      → answers s.state status ≡ true
      → Acts p s (prelogin_reply p)
  unfolding prelogin_reply status_reply request_of is_empty_request
  prelogin n h =
      then_step _ _ (empty-Checks p prelogin_status s refl)
        (λ x. answer status _ (encoded-eq status) n h)

  pub ready :
      p.command ≡ number bootstrap_ready → is_early s.state ≡ true → Acts p s (become_ready p)
  unfolding become_ready is_empty_request set_state
  ready n h = then_step _ _ (empty-Checks p bootstrap_ready s refl) (λ x. record {
    step =
        rw
          (push-fields account_panel_ready s.experimental_splash_revision s.splash_transition_sent
            s.experimental_area_push s.area_push_sent)
          (readied n h refl refl);
  })

  pub enter :
      (sets : Session (Unit {0})) (s' : LoginSession)
      → sets s ≡ (ok tt, s')
      → s' ≡ record s { state = bootstrap }
      → p.command ≡ number client_session
      → is_early s.state ≡ true
      → revision_fits s.experimental_splash_revision ≡ true
      → Acts p s (sets >> (initial_bootstrap_responses >>= λ packets. pure (sending packets)))
  enter sets s' e e' n h fits = record {
    step =
        rw (e, e', bootstrap_responses (record s { state = bootstrap }) fits)
          (entered n h refl refl);
  }

  pub listen :
      {A : Type 0} (c : Command) (m : Session A) (n : Session SessionOutcome)
      → Checks m s
      → hears s.state c ≡ true
      → Acts p s n
      → Acts p s (if has_command p c then (m >>= λ x. pure silent) else n)
  listen c m n checks h hn =
      when_command c (m >>= λ x. pure silent) n
        (λ e. then_step m (λ x. pure silent) checks (λ x. hear c e h)) hn

  pub respond :
      {A : Type 0} (x : Reply) (m : Session A) (r : Result Packet) (n : Session SessionOutcome)
      → Checks m s
      → r ≡ ok (reply_packet x)
      → answers s.state x ≡ true
      → Acts p s n
      → Acts p s (if has_command p (request_of x) then (m >>= λ y. reply r) else n)
  respond x m r n checks e h hn =
      when_command (request_of x) (m >>= λ y. reply r) n
        (λ eq. then_step m (λ y. reply r) checks (λ y. answer x r e eq h)) hn
