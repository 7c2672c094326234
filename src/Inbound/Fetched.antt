-- ===== src/Inbound/Fetched.antt =====
-- What becomes of a deposit that was fetched from a mailbox.
use skattr.Base.{ℕ, ◌≡◌, ◌⊎◌, false, [], some, none, Bytes, Option}
use skattr.Contacts.{contact_for_group}
use skattr.Inbound.{Node, Mls, Codecs}
use skattr.Inbound.Core.{Core, core}
use skattr.Inbound.Meaning.{Request, CardTaken, MessageTaken, Meaning}

module _ {G : Type 0} (mls : Mls G) (codecs : Codecs) where
  abbrev pub of_mailbox : (from gid ciphertext : Bytes) → ℕ → Bytes → Request
  of_mailbox from gid ciphertext now fresh = record {
    from = from;
    gid = gid;
    ciphertext = ciphertext;
    enforce = false;
    now = now;
    fresh = fresh;
  }

  -- The payload of the frame was taken in for the peer of the group: a card or a message.
  pub record TakenIn (node : Node) (ciphertext : Bytes) (now : ℕ) (node' : Node) (id : Bytes)
      : Type 0 where
    pub from : Bytes
    pub gid : Bytes
    pub is_peer : contact_for_group node.contacts gid ≡ some from
    pub taken :
        CardTaken mls codecs (core node) (of_mailbox from gid ciphertext now []) (core node') id
        ⊎ MessageTaken mls codecs
            (core node)
            (of_mailbox from gid ciphertext now [])
            (core node')
            id

  abbrev pub MailboxMeaning : Node → Bytes → ℕ → Node × Option Bytes → Type 0
  MailboxMeaning node ciphertext now (node', none) = core node' ≡ core node
  MailboxMeaning node ciphertext now (node', some id) = TakenIn node ciphertext now node' id
