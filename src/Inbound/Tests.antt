-- ===== src/Inbound/Tests.antt =====
-- The inbound pipeline on a node with one contact, with a toy MLS in which a ciphertext is a byte and
-- the payload.
use skattr.Base.{
  Bool, zero, suc, ◌≡◌, ◌≢◌, refl, true, false, List, [], ◌∷◌, Option, none, some, Bytes, same,
  select, length,
}
use skattr.Base.Results.{ok}
use skattr.Base.Int.{pos}
use skattr.Wire.{Serde}
use skattr.Envelope.{Envelope, Kind}
use skattr.History.{empty}
use skattr.History.Tests.{toy_envelope}
use skattr.Contacts.{find}
use skattr.Contacts.Cards.{
  verify, verify_cbor, to_i64, contact_of, max_version, check_newer, put_card,
}
use skattr.Contacts.Once.{here}
use skattr.Contacts.Tests.{toy_card, alice, card_of_alice, with_alice}
use skattr.Mailbox.Policy.{new}
use skattr.Mailbox.Store.{Row}
use skattr.Mailbox.Dispatch.{State}
use skattr.Mailbox.Server.{Draw}
use skattr.Mailbox.Tests.{key, silent}
use skattr.Client.{Identity}
use skattr.Inbound.{Node, Mls, Codecs}
use skattr.Inbound.Sessions.{load, decrypt, decode_payload, opened}
use skattr.Inbound.Pipeline.{accept_card, on_envelope, on_decrypted, dispatch_for_group}
use skattr.Inbound.Meaning.{Request, Meaning}
use skattr.Inbound.Outcomes.{answer}
use skattr.Inbound.Redelivered.{card_redelivered}
use skattr.Inbound.Polled.{Draws}

abbrev toy_process : Bytes → Bytes → Option (Bytes × Option Bytes)
toy_process g [] = none
toy_process g (zero ∷ payload) = some (1 ∷ g, some payload)
toy_process g (suc n ∷ payload) = some (2 ∷ g, none)

abbrev toy_mls : Mls Bytes
toy_mls = record {
  restore = λ blob gid. some blob;
  process = toy_process;
  snapshot = λ g. some g;
  epoch = length;
}

-- Every payload is the update of the card.
abbrev update_of_alice : Envelope
update_of_alice = record {
  v = 1;
  id = 5 ∷ [];
  ts = pos 100;
  reply_to = none;
  kind = Kind.contact_card_update card_of_alice;
}

abbrev card_envelope : Serde Envelope
card_envelope = record {
  into_writer = λ e. none;
  from_reader = λ bytes. some update_of_alice;
  reads_back = λ e bytes k. absurd (let j : none ≡ some bytes = k in cc);
}

abbrev codecs : Serde Envelope → Codecs
codecs envelope = record {
  envelope = envelope;
  card = toy_card;
  manifest = silent;
  cards = record { body_bytes = λ b. some b.identity; verifies = λ k m s. true };
}

abbrev gid : Bytes
gid =
    1 ∷ 2 ∷ 3 ∷ 4 ∷ 5 ∷ 6 ∷ 7 ∷ 8 ∷ 1 ∷ 2 ∷ 3 ∷ 4 ∷ 5 ∷ 6 ∷ 7 ∷ 8 ∷ 1 ∷ 2 ∷ 3 ∷ 4 ∷ 5 ∷ 6 ∷ 7 ∷ 8
    ∷ 1 ∷ 2 ∷ 3 ∷ 4 ∷ 5 ∷ 6 ∷ 7 ∷ 8 ∷ []

abbrev node : Node
node = record {
  groups = record { group_id = gid; state_blob = []; epoch = 0 } ∷ [];
  contacts = with_alice gid;
  database = record { history = empty; seen = [] };
  attachments = [];
  begins = [];
  events = [];
}

-- A text with id 4 and body 9, by a live connection.
abbrev text_bytes : Bytes
text_bytes = 0 ∷ 1 ∷ 4 ∷ 100 ∷ 9 ∷ []

abbrev request : Request
request = record {
  from = alice;
  gid = gid;
  ciphertext = text_bytes;
  enforce = true;
  now = 20;
  fresh = 6 ∷ [];
}

abbrev after : Node
after = (answer toy_mls (codecs card_envelope) node request).0

opens_card :
    opened toy_mls (codecs card_envelope) node.groups gid text_bytes
    ≡ ok (1 ∷ [], some update_of_alice)
unfolding load decrypt decode_payload select same
opens_card = refl

takes_card : (answer toy_mls (codecs card_envelope) node request).1 ≡ ok (5 ∷ [])
unfolding dispatch_for_group on_decrypted on_envelope accept_card load decrypt decode_payload select
    same verify verify_cbor put_card to_i64 contact_of find max_version check_newer
takes_card = refl

card_redelivered_example : (answer toy_mls (codecs card_envelope) after request).1 ≢ ok (5 ∷ [])
card_redelivered_example =
    card_redelivered toy_mls (codecs card_envelope) node request (1 ∷ []) update_of_alice
      card_of_alice (5 ∷ []) after request (5 ∷ []) opens_card refl takes_card refl here refl refl

abbrev owner : Identity
owner = record { public = key; sign = λ m. m }

abbrev waiting : Row
waiting = record {
  deposit_id = 1 ∷ [];
  recipient_hash = key;
  ciphertext = text_bytes;
  deposited_at = 12;
  expires_at = 100;
}

abbrev serving : State
serving = record {
  deposits = waiting ∷ [];
  challenges = [];
  conn_rl = record { deposits = new 30 0; fetches = new 6 0 };
  global_rl = new 1_000 0;
}

abbrev draws : List Draw
draws =
    record { random = 2 ∷ []; now = 20; now_us = 6; hangs_up = false }
    ∷ record { random = 2 ∷ []; now = 20; now_us = 7; hangs_up = false }
    ∷ record { random = 3 ∷ []; now = 21; now_us = 8; hangs_up = false }
    ∷ record { random = 3 ∷ []; now = 21; now_us = 9; hangs_up = false }
    ∷ []

abbrev no_chunks : Node → Bytes → Node × Bool
no_chunks n c = (n, false)

abbrev at_start : Draws toy_mls (codecs toy_envelope) no_chunks
at_start = (node, record { now = 20; fresh = 6 ∷ [] } ∷ [])
