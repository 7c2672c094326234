-- ===== src/Inbound/Meaning.antt =====
-- What the id that acknowledges a frame says of the frame and of the node.
use skattr.Base.{◌+◌, ◌≤◌, true, ℕ, ◌≡◌, ◌≢◌, ◌⊎◌, Bool, [], ◌∷◌, ◌++◌, none, some, Bytes}
use skattr.Base.Results.{ok, err}
use skattr.Envelope.{ContactCard, Envelope, Kind}
use skattr.Receiver.{ReceiveOutcome, rejected, receive_in_tx}
use skattr.Contacts.Cards.{put_card}
use skattr.Contacts.Versions.{Put}
use skattr.Base.Int.{pos_part, neg_part}
use skattr.Inbound.{contact_card_received, Mls, Codecs, Answer}
use skattr.Inbound.Sessions.{save, opened}
use skattr.Inbound.Pipeline.{announce, to_arrival}
use skattr.Inbound.Core.{Core, core}

-- What is asked: by whom, for which group, what, and when.
pub record Request : Type 0 where
  pub from : Bytes
  pub gid : Bytes
  pub ciphertext : Bytes
  pub enforce : Bool
  pub now : ℕ
  pub fresh : Bytes

module _ {G : Type 0} (mls : Mls G) (codecs : Codecs) where
  -- A commit: the group was saved, and nothing else changed.
  pub record Committed (c : Core) (f : Request) (c' : Core) (id : Bytes) : Type 0 where
    pub group : G
    pub decrypted : opened mls codecs c.groups f.gid f.ciphertext ≡ ok (group, none)
    pub saved : save mls codecs c.groups f.gid group ≡ ok c'.groups
    pub rest : (c'.contacts ≡ c.contacts) × (c'.database ≡ c.database) × (c'.events ≡ c.events)

  -- A card that its owner, who sent it, has signed, that has not expired and that is newer than the
  -- stored ones; the group was not saved.
  pub record CardTaken (c : Core) (f : Request) (c' : Core) (id : Bytes) : Type 0 where
    pub group : G
    pub envelope : Envelope
    pub card : ContactCard
    pub decrypted : opened mls codecs c.groups f.gid f.ciphertext ≡ ok (group, some envelope)
    pub is_card : envelope.kind ≡ Kind.contact_card_update card
    pub is_id : id ≡ envelope.id
    pub own : card.body.identity ≡ f.from
    pub unexpired : f.now + neg_part card.body.expires_at ≤ pos_part card.body.expires_at
    pub message : Bytes
    pub is_body : codecs.cards.body_bytes card.body ≡ some message
    pub signed : codecs.cards.verifies f.from message card.signature ≡ true
    pub stored : put_card codecs.card c.contacts card ≡ ok c'.contacts
    pub put : Put codecs.card c.contacts card c'.contacts
    pub rest : (c'.groups ≡ c.groups) × (c'.database ≡ c.database)
    pub told : c'.events ≡ c.events ++ (contact_card_received f.from card.body.version ∷ [])

  -- A message that is new or a duplicate: the group and what the receiver did were saved together.
  pub record MessageTaken (c : Core) (f : Request) (c' : Core) (id : Bytes) : Type 0 where
    pub group : G
    pub envelope : Envelope
    pub outcome : ReceiveOutcome
    pub decrypted : opened mls codecs c.groups f.gid f.ciphertext ≡ ok (group, some envelope)
    pub saved : save mls codecs c.groups f.gid group ≡ ok c'.groups
    pub received :
        receive_in_tx codecs.envelope c.database
          (to_arrival mls codecs f.from f.gid group envelope f.enforce f.now)
        ≡ ok (c'.database, outcome)
    pub accepted : outcome ≢ rejected
    pub no_card : (card : ContactCard) → envelope.kind ≢ Kind.contact_card_update card
    pub is_id : id ≡ envelope.id
    pub kept : c'.contacts ≡ c.contacts
    pub told : c'.events ≡ c.events ++ announce mls codecs outcome

  abbrev pub Meaning : Core → Request → Answer → Type 0
  Meaning c f (node, err e) = core node ≡ c
  Meaning c f (node, ok id) =
      Committed c f (core node) id
      ⊎ (CardTaken c f (core node) id ⊎ MessageTaken c f (core node) id)
