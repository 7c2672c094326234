-- ===== src/Client/Tests.antt =====
-- A deposit on its way from the sender to the recipient, with the toy libraries of the server.
use skattr.Base.{true, false, [], ◌∷◌}
use skattr.Base.Results
use skattr.Mailbox.Protocol.{DepositOk}
use skattr.Mailbox.Failure
use skattr.Mailbox.Store.{Row}
use skattr.Mailbox.Store
use skattr.Mailbox.Policy.{recommended, new}
use skattr.Mailbox.Dispatch.{State, handle_deposit}
use skattr.Mailbox.Server.{Item, frame, Draw, turn}
use skattr.Mailbox.Codec.{deposit}
use skattr.Mailbox.Tests.{toy, key}
use skattr.Client.{Identity}
use skattr.Client.Delivered.{sent_row}

abbrev owner : Identity
owner = record { public = key; sign = λ m. m }

abbrev idle : State
idle = record {
  deposits = [];
  challenges = [];
  conn_rl = record { deposits = new 30 0; fetches = new 6 0 };
  global_rl = new 1_000 0;
}

abbrev at_20 : Draw
at_20 = record { random = 2 ∷ []; now = 20; now_us = 6; hangs_up = false }

abbrev at_30 : Draw
at_30 = record { random = 3 ∷ []; now = 30; now_us = 8; hangs_up = false }

abbrev at_31 : Draw
at_31 = record { random = 4 ∷ []; now = 31; now_us = 39; hangs_up = false }

abbrev stored : State
stored =
    (handle_deposit recommended
      (record { version = 1; recipient_hash = key; ciphertext = 4 ∷ []; ttl_request = 3_600 })
      (2 ∷ []) 20 6 idle).0

abbrev confirmed : DepositOk
confirmed = record { deposit_id = 2 ∷ []; expires_at = 3_620 }

-- Before the owner comes, another connection deposits for someone else, and the sweep runs.
abbrev other_conn : State
other_conn = record stored { conn_rl = record { deposits = new 30 25; fetches = new 6 25 } }

abbrev other_deposit : Item
other_deposit = frame (
    deposit
      (record { version = 1; recipient_hash = 9 ∷ []; ciphertext = 5 ∷ []; ttl_request = 3_600 }))

abbrev at_25 : Draw
at_25 = record { random = 8 ∷ []; now = 25; now_us = 30; hangs_up = true }

abbrev busy : State
busy = (turn recommended toy other_deposit at_25 other_conn).0

abbrev later : State
later = record busy {
  deposits = (Store.expire_sweep busy.deposits 28).0;
  conn_rl = record { deposits = new 30 31; fetches = new 6 31 };
}

abbrev row : Row
row = sent_row recommended toy owner (4 ∷ []) at_20 confirmed
