-- ===== src/App/Valid.antt =====
-- server/app.py: what holds of the variables of `_handle_client` between two packets.
pub mod Packets
pub mod Events
pub mod Runs
use army.Common.{
  ℕ, ◌≡◌, refl, sym, ap, ◌∙◌, Bool, true, false, Option, none, some, List, [], ◌∷◌, All,
}
use army.Common.Int.{ℤ}
use army.Exec.{Error, Result, ok, err, is_protocol_error, session_protocol_error}
use army.Framing.{Packet}
use army.Framing.Cursor.{HasCursor}
use army.Framing.Parse.{IsDecoder}
use army.Framing.Sendable.{IsSendable}
use army.Transform.{cursor}
use army.Transform.Valid.{cursor-IsCursor}
use army.Session.{
  SessionState, await_client_e5, await_initial_bb, bootstrap, account_panel_ready, LoginSession,
  SessionOutcome,
}
use army.Session.Replies.{Reply, response, versions, areas, reply-IsSendable, splash-IsSendable}
use army.Session.Steps.{revision_fits, splash, push}
use army.App.{Client, App, is_some}

-- Behind the handshake.
unfoldable pub is_open : SessionState → Bool
is_open await_client_e5 = false
is_open _ = true

-- The transformation is on in both directions exactly behind the handshake.
pub record IsClient (c : Client) : Type 0 where
  pub decoder_valid : IsDecoder c.decoder
  pub outbound_valid : HasCursor c.outbound_cursor
  pub outbound_open : is_some c.outbound_cursor ≡ is_open c.session.state
  pub inbound_open : is_some c.decoder.cursor ≡ is_open c.session.state
  pub fits : revision_fits c.session.experimental_splash_revision ≡ true

-- An action ends well: it raises protocol errors only, and unless it raises, the client is valid.
pub record Ends (run : Result (Unit {0}) × Client) : Type 0 where
  pub errors : (e : Error) → run.0 ≡ err e → is_protocol_error e ≡ true
  pub valid : run.0 ≡ ok tt → IsClient run.1

pub ok-Ends : (c : Client) → IsClient c → Ends (ok tt, c)
ok-Ends c v = record { errors = λ e eq. cc eq; valid = λ eq. v }

pub err-Ends : (x : Error) (c : Client) → is_protocol_error x ≡ true → Ends (err x, c)
err-Ends x c h = record {
  errors = λ e eq. let same : x ≡ e = cc eq in rw (sym same) h;
  valid = λ eq. cc eq;
}

pub splash-All :
    (revision : Option ℤ) (sent : Bool)
    → revision_fits revision ≡ true
    → All IsSendable (splash revision sent)
unfolding splash revision_fits
splash-All none sent h = tt
splash-All (some v) true h = tt
splash-All (some v) false h = (splash-IsSendable v h, tt)

pub push-All : (enabled sent : Bool) → All IsSendable (push enabled sent)
unfolding push
push-All true false = (reply-IsSendable areas, tt)
push-All true true = tt
push-All false sent = tt
