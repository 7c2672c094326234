-- ===== src/Inbound/Redelivered.antt =====
-- What becomes of a frame with the update of a card that comes again.
use skattr.Base.{
  ◌≡◌, ◌≢◌, refl, ap, ◌∙◌, sym, inl, inr, some, none, List, Bytes, Option, select, arith,
}
use skattr.Base.Results.{Result, ok, err}
use skattr.Envelope.{ContactCard, Envelope, Kind}
use skattr.Contacts.Cards.{put_card}
use skattr.Contacts.Once.{Reach, put_card_once}
use skattr.Inbound.{GroupRow, Node, InboundError, Mls, Codecs, is_group, first_group}
use skattr.Inbound.Sessions.{load, opened}
use skattr.Inbound.Core.{Core, core}
use skattr.Inbound.Meaning.{Request, Meaning}
use skattr.Inbound.Outcomes.{answer, dispatch_for_group-Meaning}

module _ {G : Type 0} (mls : Mls G) (codecs : Codecs) where
  -- The kind of the message that was decrypted.
  abbrev kind_in : Result InboundError (G × Option Envelope) → Option Kind
  kind_in (ok (g, some env)) = some env.kind
  kind_in _ = none

  -- The row that `load` reads.
  abbrev pub row_of : Bytes → List GroupRow → Option GroupRow
  row_of gid groups = first_group (select (is_group gid) groups)

  opened-row_of :
      (gid ciphertext : Bytes) (groups groups' : List GroupRow)
      → row_of gid groups ≡ row_of gid groups'
      → opened mls codecs groups gid ciphertext ≡ opened mls codecs groups' gid ciphertext
  unfolding load
  opened-row_of gid ciphertext groups groups' e = ground (arith, e)

  card_of :
      (c : Core) (f : Request) (card : ContactCard)
      → kind_in (opened mls codecs c.groups f.gid f.ciphertext)
        ≡ some (Kind.contact_card_update card)
      → (node : Node) (r : Result InboundError Bytes) (id : Bytes)
      → Meaning mls codecs c f (node, r)
      → r ≡ ok id
      → (put_card codecs.card c.contacts card ≡ ok node.contacts) × (node.groups ≡ c.groups)
  card_of c f card o node (err e) id m e' = absurd (let j : err e ≡ ok id = e' in cc)
  card_of c f card o node (ok x) id (inl m) e =
      let k : none ≡ some (Kind.contact_card_update card) = sym (ap kind_in m.decrypted) ∙ o in
      absurd (cc k)
  card_of c f card o node (ok x) id (inr (inl m)) e =
      let k : some (Kind.contact_card_update m.card) ≡ some (Kind.contact_card_update card) =
        ap some (sym m.is_card) ∙ sym (ap kind_in m.decrypted) ∙ o in
      let one : m.card ≡ card = cc k in
      (ap (put_card codecs.card c.contacts) (sym one) ∙ m.stored, m.rest.0)
  card_of c f card o node (ok x) id (inr (inr m)) e =
      let k : some m.envelope.kind ≡ some (Kind.contact_card_update card) =
        sym (ap kind_in m.decrypted) ∙ o in
      absurd (m.no_card card (cc k))

  -- The update of a card that was acknowledged is not acknowledged again: as long as the row of
  -- its group is not written and no contact is removed, whatever else changes, the same frame is
  -- refused whenever it comes, for whichever peer.
  pub card_redelivered :
      (node : Node) (f : Request) (g : G) (env : Envelope) (card : ContactCard) (id : Bytes)
      (later : Node) (again : Request) (x : Bytes)
      → opened mls codecs node.groups f.gid f.ciphertext ≡ ok (g, some env)
      → env.kind ≡ Kind.contact_card_update card
      → (answer mls codecs node f).1 ≡ ok id
      → row_of f.gid later.groups ≡ row_of f.gid (answer mls codecs node f).0.groups
      → Reach codecs.card (answer mls codecs node f).0.contacts later.contacts
      → again.gid ≡ f.gid
      → again.ciphertext ≡ f.ciphertext
      → (answer mls codecs later again).1 ≢ ok x
  card_redelivered node f g env card id later again x o k acked eg r ei ec acked_again =
      let first = answer mls codecs node f in
      let is_card : kind_in (opened mls codecs node.groups f.gid f.ciphertext)
          ≡ some (Kind.contact_card_update card) =
        ap kind_in o ∙ ap some k in
      let (stored, kept) =
        card_of (core node) f card is_card first.0 first.1 id
          (dispatch_for_group-Meaning mls codecs node f) acked in
      let second = answer mls codecs later again in
      let same_card : kind_in (opened mls codecs later.groups again.gid again.ciphertext)
          ≡ some (Kind.contact_card_update card) =
        (λ i. kind_in (opened mls codecs later.groups (ei i) (ec i)))
        ∙ ap kind_in (
            opened-row_of f.gid f.ciphertext later.groups node.groups (eg ∙ ap (row_of f.gid) kept))
        ∙ is_card in
      let (stored', _) =
        card_of (core later) again card same_card second.0 second.1 x
          (dispatch_for_group-Meaning mls codecs later again) acked_again in
      put_card_once codecs.card node.contacts card first.0.contacts later.contacts card
        second.0.contacts stored r refl (omega arith) stored'
