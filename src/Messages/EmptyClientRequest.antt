-- ===== src/Messages/EmptyClientRequest.antt =====
-- `EmptyClientRequest` of messages.py: the requests with no payload.
use army.Common.{
  ℕ, ◌≡◌, refl, sym, ◌⊎◌, inl, inr, ap, ◌∙◌, arith, Bool, true, false, Option, none, some, List, [],
  ◌∷◌,
}
use army.Exec.{Result, ok, err, encode_error, decode_error}
use army.Framing.{Packet, packet}
use army.Messages.Command.{
  Command, number, command_of, command_of-number, number-command_of, unknown_07, screen_bootstrap,
  bootstrap_da, bootstrap_ready, bootstrap_e0, bootstrap_e1, handshake, prelogin_status,
}

pub record EmptyClientRequest : Type 0 where
  pub command : Command

-- The set in `__post_init__`.
unfoldable pub is_empty_request : Command → Bool
is_empty_request unknown_07 = true
is_empty_request bootstrap_da = true
is_empty_request bootstrap_ready = true
is_empty_request bootstrap_e0 = true
is_empty_request bootstrap_e1 = true
is_empty_request handshake = true
is_empty_request prelogin_status = true
is_empty_request screen_bootstrap = true
is_empty_request _ = false

-- `EmptyClientRequest(command)`
unfoldable pub empty_client_request : Command → Result EmptyClientRequest
unfolding is_empty_request
empty_client_request c = elim (is_empty_request c) [
  | true ↦ ok (record { command = c })
  | false ↦ err encode_error
]

unfoldable pub to_packet : EmptyClientRequest → Result Packet
to_packet m = packet (number m.command) []

abbrev with_payload : Command → List ℕ → Result EmptyClientRequest
with_payload c [] = empty_client_request c
with_payload c (b ∷ bs) = err decode_error

abbrev from_command : Option Command → List ℕ → Result EmptyClientRequest
from_command none payload = err decode_error
from_command (some c) payload = with_payload c payload

unfoldable pub from_packet : Packet → Result EmptyClientRequest
from_packet p = from_command (command_of p.command) p.payload

sent :
    (c : Command)
    → to_packet (record { command = c }) ≡ ok (record { command = number c; payload = [] })
unfolding to_packet packet number
sent unknown_07 = refl
sent _ = refl

built :
    (c : Command) (m : EmptyClientRequest)
    → empty_client_request c ≡ ok m
    → record { command = c } ≡ m
unfolding empty_client_request
built c m e = ground arith

known :
    (c : Command) (m : EmptyClientRequest)
    → empty_client_request c ≡ ok m
    → is_empty_request c ≡ true
unfolding empty_client_request
known c m e = ground arith

-- A request that can be built makes a packet, and is read back from it.
pub from_packet-to_packet :
    (c : Command) (m : EmptyClientRequest)
    → empty_client_request c ≡ ok m
    → (p : Packet) × (to_packet m ≡ ok p) × (from_packet p ≡ ok m)
unfolding from_packet
from_packet-to_packet c m e = (
  record { command = number c; payload = [] },
  rw (sym (built c m e)) (sent c),
  rw command_of-number e,
)

-- A packet that is read as a request has an empty payload and a command of the known set.
pub from_packet_lem :
    (p : Packet) (m : EmptyClientRequest)
    → from_packet p ≡ ok m
    → (p.payload ≡ []) × (p.command ≡ number m.command) × (is_empty_request m.command ≡ true)
unfolding from_packet
from_packet_lem p m e = split (command_of p.command) p.payload refl e
  where
    split :
        (found : Option Command) (payload : List ℕ)
        → command_of p.command ≡ found
        → from_command found payload ≡ ok m
        → (payload ≡ []) × (p.command ≡ number m.command) × (is_empty_request m.command ≡ true)
    split none payload f e = cc
    split (some c) (b ∷ bs) f e = cc
    split (some c) [] f e =
        let same : c ≡ m.command = ap EmptyClientRequest.command (built c m e) in
        (refl, sym (number-command_of p.command c f) ∙ ap number same, rw (sym same) (known c m e))

allowed :
    (c : Command) → is_empty_request c ≡ true → empty_client_request c ≡ ok (record { command = c })
unfolding empty_client_request
allowed c e = ground arith

by_payload :
    (c : Command) (payload : List ℕ)
    → is_empty_request c ≡ true
    → ((payload ≡ []) × (from_command (some c) payload ≡ ok (record { command = c })))
      ⊎ (from_command (some c) payload ≡ err decode_error)
by_payload c [] e = inl (refl, allowed c e)
by_payload c (b ∷ bs) e = inr refl

-- A packet with the number of a request of the set is read, or refused for its payload.
pub from_packet-cases :
    (p : Packet) (c : Command)
    → is_empty_request c ≡ true
    → p.command ≡ number c
    → ((p.payload ≡ []) × (from_packet p ≡ ok (record { command = c })))
      ⊎ (from_packet p ≡ err decode_error)
unfolding from_packet
from_packet-cases p c e n = rw (n, command_of-number) (by_payload c p.payload e)
