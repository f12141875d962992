-- ===== src/Session/Requests.antt =====
-- server/session.py: what the `_decode_…` methods of `LoginSession` leave and raise.
use army.Common.{
  ℕ, ◌==◌, arith, ◌≡◌, refl, Bool, true, false, Bool-cases, Option, none, some, List, inl, inr,
}
use army.Common.Int.{ℤ}
use army.Exec.{
  Result, ok, err, decode_error, session_protocol_error, pure, lift, continue, ◌>>=◌, ◌>>◌,
  raise_if,
}
use army.Framing.{Packet}
use army.Primitives.Errors.{
  Raises, ok-Raises, err-Raises, Decodes-bind, Decodes-pure, Decodes-raise_if, Decodes-u8,
  Decodes-u32, Decodes-string16, Decodes-ensure, read_payload-Raises,
}
use army.Messages.Command.{Command, number, client_session, screen_bootstrap}
use army.Messages.EmptyClientRequest
use army.Messages.EmptyClientRequest.{is_empty_request, from_packet-cases}
use army.Messages.ClientSessionRequest
use army.Messages.ClientTransportSync0
use army.Messages.ClientPostResetStatus
use army.Messages.ClientPrelogin72
use army.Messages.ClientU32B2
use army.Messages.ClientC6Selection
use army.Messages.ClientAreaRequest
use army.Session.{
  LoginSession, Session, or_session_error, has_command, decode_empty, decode_session_request,
  decode_transport_sync, decode_post_reset_status, decode_client_prelogin72, decode_client_u32_b2,
  decode_client_c6_selection, decode_client_area, require_revision,
  decode_experimental_screen_request,
}

-- An action that raises nothing but SessionProtocolError and leaves the session as it was.
pub record Checks {A : Type 0} (m : Session A) (s : LoginSession) : Type 0 where
  pub kept : (m s).1 ≡ s
  pub errors : Raises session_protocol_error (m s).0

pub Checks-pure : {A : Type 0} (a : A) (s : LoginSession) → Checks (pure a) s
Checks-pure a s = record { kept = refl; errors = ok-Raises session_protocol_error a }

Checks-raise_if : (test : Bool) (s : LoginSession) → Checks (raise_if test session_protocol_error) s
Checks-raise_if true s = record { kept = refl; errors = err-Raises session_protocol_error }
Checks-raise_if false s = record { kept = refl; errors = ok-Raises session_protocol_error tt }

module _ {A B : Type 0} (f : A → Session B) where
  continue_kept :
      (r : Result A) (s : LoginSession) → ((a : A) → Checks (f a) s) → (continue r f s).1 ≡ s
  continue_kept (ok a) s hf = (hf a).kept
  continue_kept (err e) s hf = refl

  continue_errors :
      (r : Result A) (s : LoginSession)
      → Raises session_protocol_error r
      → ((a : A) → Checks (f a) s)
      → Raises session_protocol_error (continue r f s).0
  continue_errors (ok a) s h hf = (hf a).errors
  continue_errors (err e) s h hf = rw (h.only e refl) (err-Raises session_protocol_error)

  pub Checks-bind :
      (m : Session A) (s : LoginSession)
      → Checks m s
      → ((a : A) → Checks (f a) s)
      → Checks (m >>= f) s
  Checks-bind m s hm hf = record {
    kept = rw hm.kept (continue_kept (m s).0 s hf);
    errors = rw hm.kept (continue_errors (m s).0 s hm.errors hf);
  }

translated :
    {A : Type 0} (r : Result A)
    → Raises decode_error r
    → Raises session_protocol_error (or_session_error r)
unfolding or_session_error
translated (ok a) h = ok-Raises session_protocol_error a
translated (err e) h = rw (h.only e refl) (err-Raises session_protocol_error)

Checks-decoded :
    {A : Type 0} (r : Result A) (s : LoginSession)
    → Raises decode_error r
    → Checks (lift (or_session_error r)) s
Checks-decoded r s h = record { kept = refl; errors = translated r h }

pub transport_sync-Checks : (p : Packet) (s : LoginSession) → Checks (decode_transport_sync p) s
unfolding decode_transport_sync ClientTransportSync0.decode_payload
transport_sync-Checks p s = Checks-decoded _ s (
    read_payload-Raises _ p.payload (
      Decodes-bind _ _ Decodes-u8 (λ selector. Decodes-bind _ _ (Decodes-raise_if _) (λ x.
        Decodes-bind _ _ Decodes-string16 (λ text. Decodes-bind _ _ Decodes-u32 (λ a.
          Decodes-bind _ _ Decodes-u32
            (λ b. Decodes-bind _ _ Decodes-ensure (λ y. Decodes-pure _))))))))

pub post_reset_status-Checks :
    (p : Packet) (s : LoginSession) → Checks (decode_post_reset_status p) s
unfolding decode_post_reset_status ClientPostResetStatus.decode_payload
post_reset_status-Checks p s = Checks-decoded _ s (
    read_payload-Raises _ p.payload (
      Decodes-bind _ _ Decodes-u8 (λ value. Decodes-bind _ _ Decodes-ensure (λ y. Decodes-pure _))))

pub prelogin72-Checks : (p : Packet) (s : LoginSession) → Checks (decode_client_prelogin72 p) s
unfolding decode_client_prelogin72 ClientPrelogin72.decode_payload
prelogin72-Checks p s = Checks-decoded _ s (
    read_payload-Raises _ p.payload (
      Decodes-bind _ _ Decodes-u8 (λ a. Decodes-bind _ _ Decodes-u8 (λ b.
        Decodes-bind _ _ Decodes-string16
          (λ text. Decodes-bind _ _ Decodes-ensure (λ y. Decodes-pure _))))))

pub u32_b2-Checks : (p : Packet) (s : LoginSession) → Checks (decode_client_u32_b2 p) s
unfolding decode_client_u32_b2 ClientU32B2.decode_payload
u32_b2-Checks p s = Checks-decoded _ s (
    read_payload-Raises _ p.payload (
      Decodes-bind _ _ Decodes-u32
        (λ value. Decodes-bind _ _ Decodes-ensure (λ y. Decodes-pure _))))

pub c6_selection-Checks : (p : Packet) (s : LoginSession) → Checks (decode_client_c6_selection p) s
unfolding decode_client_c6_selection ClientC6Selection.decode_payload
c6_selection-Checks p s = Checks-decoded _ s (
    read_payload-Raises _ p.payload (
      Decodes-bind _ _ Decodes-string16 (λ text. Decodes-bind _ _ Decodes-u8 (λ marker.
        Decodes-bind _ _ Decodes-ensure
          (λ y. Decodes-bind _ _ (Decodes-raise_if _) (λ x. Decodes-pure _))))))

pub area-Checks : (p : Packet) (s : LoginSession) → Checks (decode_client_area p) s
unfolding decode_client_area ClientAreaRequest.decode_payload
area-Checks p s = Checks-decoded _ s (
    read_payload-Raises _ p.payload (
      Decodes-bind _ _ Decodes-u8 (λ mode.
        Decodes-bind _ _ Decodes-ensure
          (λ y. Decodes-bind _ _ (Decodes-raise_if _) (λ x. Decodes-pure _)))))

request_payload : (bs : List ℕ) → Raises decode_error (ClientSessionRequest.decode_payload bs)
unfolding ClientSessionRequest.decode_payload
request_payload bs = read_payload-Raises _ bs (
    Decodes-bind _ _ Decodes-string16 (λ a. Decodes-bind _ _ Decodes-string16 (λ b.
      Decodes-bind _ _ Decodes-u8 (λ mode. Decodes-bind _ _ Decodes-ensure (λ y. Decodes-pure _)))))

pub session_request-Checks : (p : Packet) (s : LoginSession) → Checks (decode_session_request p) s
unfolding decode_session_request
session_request-Checks p s = Checks-bind _ _ s (Checks-raise_if _ s) (λ x.
    Checks-bind _ _ s
      (Checks-decoded (ClientSessionRequest.decode_payload p.payload) s (request_payload p.payload))
      (λ request. Checks-bind _ _ s (Checks-raise_if _ s) (λ y. Checks-pure request s)))

same_number : (a b : ℕ) → (a == b) ≡ true → a ≡ b
same_number a b h = ground arith

pub has_number : (p : Packet) (c : Command) → has_command p c ≡ true → p.command ≡ number c
unfolding has_command
has_number p c h = same_number p.command (number c) h

module _ (p : Packet) (c : Command) (s : LoginSession) (empty : is_empty_request c ≡ true) where
  from_packet-Raises : p.command ≡ number c → Raises decode_error (EmptyClientRequest.from_packet p)
  from_packet-Raises n = elim (from_packet-cases p c empty n) [
    | inl (x, e) ↦ rw e (ok-Raises decode_error _)
    | inr e ↦ rw e (err-Raises decode_error)
  ]

  pub empty-Checks : Checks (decode_empty p c) s
  unfolding decode_empty
  empty-Checks = elim (Bool-cases (has_command p c)) [
    | inl h ↦ rw h (
        Checks-bind _ _ s
          (Checks-decoded (EmptyClientRequest.from_packet p) s
            (from_packet-Raises (has_number p c h)))
          (λ m. Checks-pure tt s))
    | inr h ↦ rw h (record { kept = refl; errors = err-Raises session_protocol_error })
  ]

revision-Checks : (revision : Option ℤ) (s : LoginSession) → Checks (require_revision revision) s
unfolding require_revision
revision-Checks none s = record { kept = refl; errors = err-Raises session_protocol_error }
revision-Checks (some r) s = Checks-pure tt s

pub screen-Checks :
    (p : Packet) (s : LoginSession) → Checks (decode_experimental_screen_request p) s
unfolding decode_experimental_screen_request is_empty_request
screen-Checks p s =
    let c : Checks
        (require_revision s.experimental_splash_revision >> decode_empty p screen_bootstrap) s =
      Checks-bind _ _ s (revision-Checks s.experimental_splash_revision s)
        (λ x. empty-Checks p screen_bootstrap s refl) in
    record { kept = c.kept; errors = c.errors }

module _ (p : Packet) (s : LoginSession) where
  pub session_request-refused :
      has_command p client_session ≡ false
      → decode_session_request p s ≡ (err session_protocol_error, s)
  unfolding decode_session_request
  session_request-refused h = rw h refl

  pub empty-refused :
      (c : Command) → has_command p c ≡ false → decode_empty p c s ≡ (err session_protocol_error, s)
  unfolding decode_empty
  empty-refused c h = rw h refl
