-- ===== src/Client/Delivered.antt =====
-- From the sender's deposit to the recipient's fetch.
use skattr.Base.{ℕ, Bytes, map}
use skattr.Base.Results
use skattr.Mailbox.Protocol.{DepositOk, FetchResponse}
use skattr.Mailbox.Store
use skattr.Mailbox.Store.{Row}
use skattr.Mailbox.Codec.{fetch}
use skattr.Mailbox.Policy.{Policy}
use skattr.Mailbox.Dispatch.{State, Libraries, to_pending}
use skattr.Mailbox.Server.{Draw}
use skattr.Client.{Identity}
use skattr.Client.Served.{Served}

module _ (p : Policy) (libs : Libraries) where
  abbrev own_hash : Identity → Bytes
  own_hash identity = libs.crypto.sha256 identity.public

  -- The row of the ciphertext that `deposit_blob` sent, once the server has confirmed it.
  abbrev pub sent_row : Identity → Bytes → Draw → DepositOk → Row
  sent_row identity ciphertext d answer = record {
    deposit_id = answer.deposit_id;
    recipient_hash = own_hash identity;
    ciphertext = ciphertext;
    deposited_at = d.now;
    expires_at = answer.expires_at;
  }

  abbrev pub response : State → Identity → ℕ → FetchResponse
  response s identity now = record {
    deposits = map to_pending (Store.fetch s.deposits (own_hash identity) now);
  }
