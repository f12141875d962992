-- ===== src/Messages/Command.antt =====
-- `Command` of messages.py, an `IntEnum`.
use army.Common.{ℕ, ◌≡◌, refl, arith, Option, none, some, List, [], ◌∷◌, ◌==◌, if◌then◌else◌}

pub data Command : Type 0 where
  unknown_07 post_reset_status client_text_72 heartbeat transport_sync client_u32_b2 : Command
  client_session screen_bootstrap client_selection bootstrap_da bootstrap_ready : Command
  bootstrap_e0 bootstrap_e1 bootstrap_versions area handshake prelogin_status : Command

-- The number of a command.
unfoldable pub number : Command → ℕ
number unknown_07 = 0x07
number post_reset_status = 0x3a
number client_text_72 = 0x72
number heartbeat = 0x9a
number transport_sync = 0xa9
number client_u32_b2 = 0xb2
number client_session = 0xbb
number screen_bootstrap = 0xc4
number client_selection = 0xc6
number bootstrap_da = 0xda
number bootstrap_ready = 0xdb
number bootstrap_e0 = 0xe0
number bootstrap_e1 = 0xe1
number bootstrap_versions = 0xe2
number area = 0xe4
number handshake = 0xe5
number prelogin_status = 0xfd

abbrev commands : List Command
commands =
    unknown_07 ∷ post_reset_status ∷ client_text_72 ∷ heartbeat ∷ transport_sync ∷ client_u32_b2
    ∷ client_session ∷ screen_bootstrap ∷ client_selection ∷ bootstrap_da ∷ bootstrap_ready
    ∷ bootstrap_e0 ∷ bootstrap_e1 ∷ bootstrap_versions ∷ area ∷ handshake ∷ prelogin_status ∷ []

find : ℕ → List Command → Option Command
find n [] = none
find n (c ∷ cs) = if number c == n then some c else find n cs

-- `Command(n)`; `none` is its ValueError.
unfoldable pub command_of : ℕ → Option Command
unfolding find number
command_of n = find n commands

-- Each command is found by its number.
pub command_of-number : (c : Command) → command_of (number c) ≡ some c
unfolding command_of
command_of-number unknown_07 = refl
command_of-number _ = refl

number-find : (n : ℕ) (c : Command) (cs : List Command) → find n cs ≡ some c → number c ≡ n
unfolding find
number-find n c [] e = cc
number-find n c (d ∷ cs) e = ground (arith, number-find n c cs)

-- What is found has the number that was looked for.
pub number-command_of : (n : ℕ) (c : Command) → command_of n ≡ some c → number c ≡ n
unfolding command_of
number-command_of n c e = number-find n c commands e
