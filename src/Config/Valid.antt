-- ===== src/Config/Valid.antt =====
-- server/config.py and server/app.py: what a configuration that is accepted gives a connection.
use army.Common.{arith, ◌≡◌, refl, Bool, true, Option, none, some, List, All}
use army.Common.Int.{ℤ, pos, negsuc}
use army.Exec.{Result, ok, err, bind_result}
use army.Framing.{frame_stream_decoder}
use army.Session.Steps.{revision_fits}
use army.App.{Client, new_client, Event, serve}
use army.App.Valid.{Ends}
use army.App.Valid.Runs.{AreBytes, serve-Ends}
use army.Config.{ServerConfig, validate_int, validate_revision, validate_ints}

bind_ok : (r s : Result (Unit {0})) → bind_result r (λ x. s) ≡ ok tt → (r ≡ ok tt) × (s ≡ ok tt)
bind_ok (ok x) s h = (refl, h)
bind_ok (err e) s h = cc

revision_ok :
    (revision : Option ℤ) → validate_revision revision ≡ ok tt → revision_fits revision ≡ true
unfolding validate_revision validate_int revision_fits
revision_ok none h = refl
revision_ok (some v) h = ground arith

limit_ok :
    (limit : ℤ) (revision : Option ℤ) (area_push : Bool)
    → validate_int limit (pos 0) (pos 0xffff) ≡ ok tt
    → (c : Client) × (new_client limit revision area_push ≡ ok c)
unfolding validate_int new_client frame_stream_decoder
limit_ok (pos n) revision area_push h = (_, refl)
limit_ok (negsuc n) revision area_push h = absurd (cc h)

-- A connection of a server whose configuration has accepted integers starts, and ends without an
-- internal error on any events with bytes: the loop raises protocol errors only, and when it does
-- not raise, the transformation is on in both directions exactly if the handshake is done.
pub configured-Ends :
    (config : ServerConfig) (events : List Event)
    → validate_ints config ≡ ok tt
    → All AreBytes events
    → (c : Client) × (new_client config.max_payload_bytes config.experimental_splash_revision
          config.experimental_area_push
        ≡ ok c)
      × Ends (serve events c)
unfolding validate_ints
configured-Ends config events h b =
    let (port, rest) = bind_ok _ _ h in
    let (limit, rest2) = bind_ok _ _ rest in
    let (chunk, rest3) = bind_ok _ _ rest2 in
    let (backlog, revision) = bind_ok _ _ rest3 in
    let (c, e) =
      limit_ok config.max_payload_bytes config.experimental_splash_revision
        config.experimental_area_push limit in
    (
      c,
      e,
      serve-Ends config.max_payload_bytes config.experimental_splash_revision
          config.experimental_area_push events c
          (revision_ok config.experimental_splash_revision revision) e b,
    )
