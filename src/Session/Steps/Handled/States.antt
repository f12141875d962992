-- ===== src/Session/Steps/Handled/States.antt =====
-- server/session.py: the handler of each state, and `LoginSession.handle`.
use army.Common.{
  ◌≡◌, refl, ap, Bool, true, Bool-cases, some, [], ◌∷◌, ◌||◌, inl, inr, if◌then◌else◌,
}
use army.Exec.{ok, pure, lift, ◌>>=◌, ◌>>◌}
use army.Framing.{Packet}
use army.Messages.Command.{
  Command, number, command_of, command_of-number, unknown_07, post_reset_status, client_text_72,
  client_u32_b2, client_session, screen_bootstrap, client_selection, bootstrap_da, bootstrap_ready,
  bootstrap_e0, bootstrap_e1, handshake, prelogin_status,
}
use army.Messages.EmptyClientRequest.{is_empty_request}
use army.Messages.HandshakeResponse
use army.Session.{
  SessionState, await_client_e5, await_initial_bb, bootstrap, account_panel_ready, SessionOutcome,
  sending, silent, LoginSession, seed, shift, Session, set_state, has_command, decode_empty, reply,
  decode_session_request, initial_bootstrap_responses,
}
use army.Transform.{from_seed}
use army.Session.Handlers.{
  handshake_response, handle_e5, handle_initial_bb, handle_bootstrap, retry_response, known_command,
  handle_bootstrap_retry, handle_ready, handle_in, handle,
}
use army.Session.Requests.{
  transport_sync-Checks, post_reset_status-Checks, prelogin72-Checks, u32_b2-Checks,
  c6_selection-Checks, area-Checks, session_request-Checks, empty-Checks, screen-Checks, has_number,
  session_request-refused, empty-refused,
}
use army.Session.Replies.{
  Reply, reply_packet, reset2, response, areas, da, e1, e0, encoded-eq, handshake-eq, local-eq,
}
use army.Session.Steps.{revision_fits, hears, request_of, answers, is_early, Step, greeted}
use army.Session.Steps.Handled.{
  Acts, listen, respond, then_step, when_command, unexpected, named, hear, answer, prelogin, ready,
  enter,
}

-- What the handlers do behind the request of the handshake, and behind the first session request.
abbrev greet : Session SessionOutcome
greet = do
  transform ← lift (from_seed seed shift)
  set_state await_initial_bb
  answered ← lift (HandshakeResponse.to_packet handshake_response)
  pure (record { outbound = answered ∷ []; enable_transform = some transform })

abbrev start_bootstrap : Session SessionOutcome
start_bootstrap = do
  set_state bootstrap
  packets ← initial_bootstrap_responses
  pure (sending packets)

module _ (p : Packet) (s : LoginSession) where
  greet-Acts : s.state ≡ await_client_e5 → p.command ≡ number handshake → Unit {0} → Acts p s greet
  unfolding set_state
  greet-Acts e n x = record { step = rw (local-eq, handshake-eq) (greeted e n refl refl) }

  e5-Acts : s.state ≡ await_client_e5 → Acts p s (handle_e5 p)
  unfolding handle_e5 is_empty_request
  e5-Acts e =
      named p s handshake (decode_empty p handshake) (λ x. greet) (empty-refused p s handshake)
        (λ n. then_step p s _ (λ x. greet) (empty-Checks p handshake s refl) (greet-Acts e n))

  module _ (fits : revision_fits s.experimental_splash_revision ≡ true) where
    first_request :
        is_early s.state ≡ true → Acts p s (decode_session_request p >>= λ request. start_bootstrap)
    unfolding set_state
    first_request early =
        named p s client_session (decode_session_request p) (λ request. start_bootstrap)
          (session_request-refused p s)
          (λ n.
            then_step p s _ (λ request. start_bootstrap) (session_request-Checks p s)
              (λ x. enter p s (set_state bootstrap) _ refl refl n early fits))

    initial_bb-Acts : s.state ≡ await_initial_bb → Acts p s (handle_initial_bb p)
    unfolding handle_initial_bb hears answers request_of is_early
    initial_bb-Acts e =
        respond p s reset2 _ _ _ (transport_sync-Checks p s) (encoded-eq reset2) (rw e refl) (
          listen p s post_reset_status _ _ (post_reset_status-Checks p s) (rw e refl) (
            listen p s client_text_72 _ _ (prelogin72-Checks p s) (rw e refl) (
              when_command p s prelogin_status _ _ (λ n. prelogin p s n (rw e refl))
                (when_command p s bootstrap_ready _ _ (λ n. ready p s n (rw e refl))
                  (first_request (rw e refl))))))

    repeat_request :
        s.state ≡ bootstrap
        → p.command ≡ number client_session
        → Acts p s (do
          decode_session_request p
          packets ← initial_bootstrap_responses
          pure (sending packets))
    unfolding is_early
    repeat_request e n =
        then_step p s _ _ (session_request-Checks p s) (λ x.
          enter p s (pure tt) s refl (ap (λ st. record s { state = st }) e) n (rw e refl) fits)

    bootstrap-Acts : s.state ≡ bootstrap → Acts p s (handle_bootstrap p)
    unfolding handle_bootstrap hears answers request_of is_early is_empty_request
    bootstrap-Acts e = listen p s post_reset_status _ _ (post_reset_status-Checks p s) (rw e refl) (
        listen p s client_text_72 _ _ (prelogin72-Checks p s) (rw e refl) (
          when_command p s prelogin_status _ _ (λ n. prelogin p s n (rw e refl))
            (when_command p s client_session _ _ (repeat_request e) (
              listen p s screen_bootstrap _ _ (screen-Checks p s) (rw e refl) (
                listen p s client_u32_b2 _ _ (u32_b2-Checks p s) (rw e refl) (
                  listen p s client_selection _ _ (c6_selection-Checks p s) (rw e refl) (
                    listen p s unknown_07 _ _ (empty-Checks p unknown_07 s refl) (rw e refl) (
                      respond p s da _ _ _ (empty-Checks p bootstrap_da s refl) (encoded-eq da)
                        (rw e refl)
                        (respond p s e1 _ _ _ (empty-Checks p bootstrap_e1 s refl) (encoded-eq e1)
                          (rw e refl)
                          (respond p s e0 _ _ _ (empty-Checks p bootstrap_e0 s refl) (encoded-eq e0)
                            (rw e refl)
                            (when_command p s bootstrap_ready _ _ (λ n. ready p s n (rw e refl))
                              (unexpected p s))))))))))))

  module _ (e : s.state ≡ account_panel_ready) where
    known : (c : Command) → p.command ≡ number c → known_command p ≡ ok c
    unfolding known_command
    known c n =
        let found : command_of p.command ≡ some c = rw n (command_of-number c) in
        rw (known_command, found) refl

    retry :
        (x : Reply)
        → is_empty_request (request_of x) ≡ true
        → answers account_panel_ready x ≡ true
        → retry_response (request_of x) ≡ ok (reply_packet x)
        → p.command ≡ number (request_of x)
        → Acts p s (handle_bootstrap_retry p)
    unfolding handle_bootstrap_retry
    retry x empty h r n = record {
      step =
          rw (known (request_of x) n)
            (then_step p s (decode_empty p (request_of x))
              (λ y. reply (retry_response (request_of x))) (empty-Checks p (request_of x) s empty)
              (λ y. answer p s x _ r n (rw e h))).step;
    }

    acknowledge :
        (c : Command)
        → is_empty_request c ≡ true
        → hears account_panel_ready c ≡ true
        → p.command ≡ number c
        → Acts p s (do command ← lift (known_command p); decode_empty p command; pure silent)
    acknowledge c empty h n = record {
      step =
          rw (known c n)
            (then_step p s (decode_empty p c) (λ y. pure silent) (empty-Checks p c s empty)
              (λ y. hear p s c n (rw e h))).step;
    }

    when_either :
        (c : Command) (test : Bool) (m n : Session SessionOutcome)
        → (p.command ≡ number c → Acts p s m)
        → Acts p s (if test then m else n)
        → Acts p s (if has_command p c || test then m else n)
    when_either c test m n hm ht = elim (Bool-cases (has_command p c)) [
      | inl h ↦ rw h (hm (has_number p c h))
      | inr h ↦ rw h ht
    ]

    ready-Acts : Acts p s (handle_ready p)
    unfolding handle_ready hears answers request_of is_empty_request retry_response
    ready-Acts = listen p s post_reset_status _ _ (post_reset_status-Checks p s) (rw e refl) (
        listen p s client_text_72 _ _ (prelogin72-Checks p s) (rw e refl) (
          when_command p s prelogin_status _ _ (λ n. prelogin p s n (rw e refl))
            (respond p s response _ _ _ (session_request-Checks p s) (encoded-eq response)
              (rw e refl)
              (listen p s screen_bootstrap _ _ (screen-Checks p s) (rw e refl) (
                listen p s client_selection _ _ (c6_selection-Checks p s) (rw e refl) (
                  respond p s areas _ _ _ (area-Checks p s) (encoded-eq areas) (rw e refl) (
                    when_either unknown_07 _ _ _ (acknowledge unknown_07 refl refl) (
                      when_command p s bootstrap_ready _ _ (acknowledge bootstrap_ready refl refl) (
                        when_either bootstrap_da _ _ _ (retry da refl refl (encoded-eq da)) (
                          when_either bootstrap_e1 _ _ _ (retry e1 refl refl (encoded-eq e1)) (
                            when_command p s bootstrap_e0 _ _ (retry e0 refl refl (encoded-eq e0))
                              (unexpected p s))))))))))))

in_state :
    (p : Packet) (s : LoginSession) (st : SessionState)
    → revision_fits s.experimental_splash_revision ≡ true
    → s.state ≡ st
    → Acts p s (handle_in st p)
unfolding handle_in
in_state p s await_client_e5 fits e = e5-Acts p s e
in_state p s await_initial_bb fits e = initial_bb-Acts p s fits e
in_state p s bootstrap fits e = bootstrap-Acts p s fits e
in_state p s account_panel_ready fits e = ready-Acts p s e

-- Every call of `handle` makes one of the steps, when the splash revision is one that the
-- configuration admits.
pub handle-Step :
    (p : Packet) (s : LoginSession)
    → revision_fits s.experimental_splash_revision ≡ true
    → Step p s (handle p s).0 (handle p s).1
unfolding handle
handle-Step p s fits = (in_state p s s.state fits refl).step
