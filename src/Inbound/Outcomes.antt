-- ===== src/Inbound/Outcomes.antt =====
-- The answers of `dispatch_for_group`, branch by branch.
use skattr.Base.{
  ◌+◌, ◌≤◌, true, ltb, Option-cases, ℕ, ◌≡◌, ◌≢◌, refl, ap, ◌∙◌, sym, subst, inl, inr, List, Option,
  none, some, Bytes, length, ◌==◌, if◌then◌else◌, same, same_iff, arith, Bool-cases,
}
use skattr.Base.Results.{Result, ok, err, Result-cases}
use skattr.Envelope.{ContactCard, Envelope, Kind}
use skattr.Receiver.{Arrival, Database, ReceiveOutcome, new, duplicate, rejected, receive_in_tx}
use skattr.Contacts.{Contacts}
use skattr.Base.Int.{pos_part, neg_part}
use skattr.Contacts.Cards.{verify, verify_cbor, put_card}
use skattr.Contacts.Versions.{put_card-Put}
use skattr.Inbound.{GroupRow, Node, InboundError, out_of_window, Mls, Codecs, stage_kind, Answer}
use skattr.Inbound.Sessions.{save, opened}
use skattr.Inbound.Pipeline.{
  accept_card, on_card, on_commit, persist, on_persisted, to_arrival, on_envelope, on_decrypted,
  dispatch_for_group, not_rejected,
}
use skattr.Inbound.Core.{Core, core, stage_kind-core}
use skattr.Inbound.Meaning.{Request, Meaning}

module _ {G : Type 0} (mls : Mls G) (codecs : Codecs) where
  on_commit-Meaning :
      (node : Node) (f : Request) (g : G)
      → opened mls codecs node.groups f.gid f.ciphertext ≡ ok (g, none)
      → (r : Result InboundError (List GroupRow)) → save mls codecs node.groups f.gid g ≡ r
      → Meaning mls codecs (core node) f (on_commit mls codecs node f.fresh r)
  on_commit-Meaning node f g o (err e) s = refl
  on_commit-Meaning node f g o (ok groups) s =
      inl (record { group = g; decrypted = o; saved = s; rest = (refl, refl, refl) })

  accept_card_ok :
      (contacts contacts' : Contacts) (from : Bytes) (card : ContactCard) (now : ℕ)
      → accept_card mls codecs contacts from card now ≡ ok contacts'
      → (verify codecs.cards card now ≡ ok from)
        × (put_card codecs.card contacts card ≡ ok contacts')
  unfolding accept_card
  accept_card_ok contacts contacts' from card now e =
      elim (Result-cases (verify codecs.cards card now)) [
        | inl (claimed, v) ↦ elim (Bool-cases (same claimed from)) [
          | inl own ↦
              let who : claimed ≡ from = (same_iff claimed from).0 own in
              elim (Result-cases (put_card codecs.card contacts card)) [
                | inl (x, p) ↦ (v ∙ ap ok who, p ∙ ground (arith, v, own, p, e))
                | inr (x, p) ↦ absurd (ground (arith, v, own, p, e))
              ]
          | inr other ↦ absurd (ground (arith, v, other, e))
        ]
        | inr (x, v) ↦ absurd (ground (arith, v, e))
      ]

  -- What a verified card has shown.
  record Verified (card : ContactCard) (now : ℕ) (who : Bytes) : Type 0 where
    pub own : card.body.identity ≡ who
    pub unexpired : now + neg_part card.body.expires_at ≤ pos_part card.body.expires_at
    pub message : Bytes
    pub is_body : codecs.cards.body_bytes card.body ≡ some message
    pub signed : codecs.cards.verifies who message card.signature ≡ true

  verify_ok :
      (card : ContactCard) (now : ℕ) (who : Bytes)
      → verify codecs.cards card now ≡ ok who
      → Verified card now who
  unfolding verify verify_cbor
  verify_ok card now who e =
      let late = ltb (pos_part card.body.expires_at) (now + neg_part card.body.expires_at) in
      elim (Bool-cases late) [
        | inl t ↦ absurd (ground (arith, t, e))
        | inr in_time ↦ elim (Option-cases (codecs.cards.body_bytes card.body)) [
          | inl n ↦ absurd (ground (arith, in_time, n, e))
          | inr (message, b) ↦
              elim (Bool-cases (codecs.cards.verifies card.body.identity message card.signature)) [
                | inl signed ↦
                    let own : card.body.identity ≡ who = ground (arith, in_time, b, signed, e) in
                    record {
                      own = own;
                      unexpired = ground (arith, in_time);
                      message = message;
                      is_body = b;
                      signed =
                          subst (λ k. codecs.cards.verifies k message card.signature ≡ true) own
                            signed;
                    }
                | inr forged ↦ absurd (ground (arith, in_time, b, forged, e))
              ]
        ]
      ]

  on_card-Meaning :
      (node : Node) (f : Request) (g : G) (env : Envelope) (card : ContactCard)
      → opened mls codecs node.groups f.gid f.ciphertext ≡ ok (g, some env)
      → env.kind ≡ Kind.contact_card_update card
      → (r : Result InboundError Contacts)
      → accept_card mls codecs node.contacts f.from card f.now ≡ r
      → Meaning mls codecs (core node) f (on_card mls codecs node f.from card env.id r)
  on_card-Meaning node f g env card o k (err e) a = refl
  on_card-Meaning node f g env card o k (ok contacts) a =
      let (genuine, stored) = accept_card_ok node.contacts contacts f.from card f.now a in
      let v = verify_ok card f.now f.from genuine in
      inr (
        inl (record {
          group = g;
          envelope = env;
          card = card;
          decrypted = o;
          is_card = k;
          is_id = refl;
          own = v.own;
          unexpired = v.unexpired;
          message = v.message;
          is_body = v.is_body;
          signed = v.signed;
          stored = stored;
          put = put_card-Put codecs.card node.contacts card contacts stored;
          rest = (refl, refl);
          told = refl;
        }))

  not_rejected_ok :
      (x y : Database × ReceiveOutcome)
      → not_rejected mls codecs x ≡ ok y
      → (x ≡ y) × (y.1 ≢ rejected)
  not_rejected_ok (db, new n) y e =
      let k : (db, new n) ≡ y = ground (arith, e) in
      (
        k,
        λ r.
            absurd
              (let j : new n ≡ rejected = ap (λ (z : Database × ReceiveOutcome). z.1) k ∙ r in cc),
      )
  not_rejected_ok (db, duplicate) y e =
      let k : (db, duplicate) ≡ y = ground (arith, e) in
      (
        k,
        λ r. absurd (
            let j : duplicate ≡ rejected = ap (λ (z : Database × ReceiveOutcome). z.1) k ∙ r in cc),
      )
  not_rejected_ok (db, rejected) y e = absurd (let k : err out_of_window ≡ ok y = e in cc)

  persist_ok :
      (node : Node) (g : G) (a : Arrival) (groups : List GroupRow) (db : Database)
      (o : ReceiveOutcome)
      → persist mls codecs node g a ≡ ok (groups, (db, o))
      → (save mls codecs node.groups a.group_id g ≡ ok groups)
        × (receive_in_tx codecs.envelope node.database a ≡ ok (db, o))
        × (o ≢ rejected)
  unfolding persist
  persist_ok node g a groups db o e =
      elim (Result-cases (save mls codecs node.groups a.group_id g)) [
        | inl (gs, s) ↦ elim (Result-cases (receive_in_tx codecs.envelope node.database a)) [
          | inl (out, r) ↦ elim (Result-cases (not_rejected mls codecs out)) [
            | inl (kept, n) ↦
                let (same_out, fine) = not_rejected_ok out kept n in
                let same_groups : gs ≡ groups = ground (arith, s, r, n, e) in
                let same_kept : kept ≡ (db, o) = ground (arith, s, r, n, e) in
                (
                  s ∙ ap ok same_groups,
                  r ∙ ap ok (same_out ∙ same_kept),
                  λ k. fine (ap (λ (z : Database × ReceiveOutcome). z.1) same_kept ∙ k),
                )
            | inr (x, n) ↦ absurd (ground (arith, s, r, n, e))
          ]
          | inr (x, r) ↦ absurd (ground (arith, s, r, e))
        ]
        | inr (x, s) ↦ absurd (ground (arith, s, e))
      ]

  on_persisted-Meaning :
      (node : Node) (f : Request) (g : G) (env : Envelope)
      → opened mls codecs node.groups f.gid f.ciphertext ≡ ok (g, some env)
      → ((card : ContactCard) → env.kind ≢ Kind.contact_card_update card)
      → (r : Result InboundError (List GroupRow × (Database × ReceiveOutcome)))
      → persist mls codecs node g (to_arrival mls codecs f.from f.gid g env f.enforce f.now) ≡ r
      → Meaning mls codecs (core node) f (on_persisted mls codecs node env.id r)
  unfolding on_persisted
  on_persisted-Meaning node f g env o no_card (err e) p = refl
  on_persisted-Meaning node f g env o no_card (ok (groups, (db, out))) p =
      let (saved, received, accepted) =
        persist_ok node g (to_arrival mls codecs f.from f.gid g env f.enforce f.now) groups db out
          p in
      inr (
        inr (record {
          group = g;
          envelope = env;
          outcome = out;
          decrypted = o;
          saved = saved;
          received = received;
          accepted = accepted;
          no_card = no_card;
          is_id = refl;
          kept = refl;
          told = refl;
        }))

  -- The attachments have no part in it.
  staged-Meaning :
      (node staged : Node) (f : Request) (g : G) (env : Envelope)
      → core staged ≡ core node
      → opened mls codecs node.groups f.gid f.ciphertext ≡ ok (g, some env)
      → ((card : ContactCard) → env.kind ≢ Kind.contact_card_update card)
      → Meaning mls codecs (core node) f (
          on_persisted mls codecs staged env.id (
            persist mls codecs staged g (to_arrival mls codecs f.from f.gid g env f.enforce f.now)))
  staged-Meaning node staged f g env c o no_card =
      let answer =
        on_persisted mls codecs staged env.id (
          persist mls codecs staged g (to_arrival mls codecs f.from f.gid g env f.enforce f.now)) in
      subst (λ x. Meaning mls codecs x f answer) c
        (on_persisted-Meaning staged f g env
          (ap (λ (x : Core). opened mls codecs x.groups f.gid f.ciphertext) c ∙ o) no_card _ refl)

  other_kind :
      (node : Node) (f : Request) (g : G) (env : Envelope)
      → opened mls codecs node.groups f.gid f.ciphertext ≡ ok (g, some env)
      → (kind : Kind) → ((card : ContactCard) → env.kind ≢ Kind.contact_card_update card)
      → Meaning mls codecs (core node) f (
          on_persisted mls codecs (stage_kind codecs.manifest node f.from kind f.now) env.id (
            persist mls codecs
              (stage_kind codecs.manifest node f.from kind f.now)
              g
              (to_arrival mls codecs f.from f.gid g env f.enforce f.now)))
  other_kind node f g env o kind no_card =
      staged-Meaning node (stage_kind codecs.manifest node f.from kind f.now) f g env
        (stage_kind-core codecs.manifest node f.from kind f.now) o no_card

  on_envelope-Meaning :
      (node : Node) (f : Request) (g : G) (env : Envelope)
      → opened mls codecs node.groups f.gid f.ciphertext ≡ ok (g, some env)
      → (kind : Kind) → env.kind ≡ kind
      → Meaning mls codecs
          (core node)
          f
          (on_envelope mls codecs node f.from f.gid g env f.enforce f.now kind)
  unfolding on_envelope
  on_envelope-Meaning node f g env o (Kind.contact_card_update card) k =
      on_card-Meaning node f g env card o k _ refl
  on_envelope-Meaning node f g env o (Kind.text body) k =
      other_kind node f g env o (Kind.text body) (λ card e.
        absurd (let j : Kind.text body ≡ Kind.contact_card_update card = sym k ∙ e in cc))
  on_envelope-Meaning node f g env o (Kind.file manifest) k =
      other_kind node f g env o (Kind.file manifest) (λ card e.
        absurd (let j : Kind.file manifest ≡ Kind.contact_card_update card = sym k ∙ e in cc))
  on_envelope-Meaning node f g env o (Kind.reaction x y) k =
      other_kind node f g env o (Kind.reaction x y) (λ card e.
        absurd (let j : Kind.reaction x y ≡ Kind.contact_card_update card = sym k ∙ e in cc))
  on_envelope-Meaning node f g env o (Kind.edit x y) k =
      other_kind node f g env o (Kind.edit x y)
        (λ card e. absurd (let j : Kind.edit x y ≡ Kind.contact_card_update card = sym k ∙ e in cc))
  on_envelope-Meaning node f g env o (Kind.delete x) k =
      other_kind node f g env o (Kind.delete x)
        (λ card e. absurd (let j : Kind.delete x ≡ Kind.contact_card_update card = sym k ∙ e in cc))
  on_envelope-Meaning node f g env o Kind.typing k =
      other_kind node f g env o Kind.typing
        (λ card e. absurd (let j : Kind.typing ≡ Kind.contact_card_update card = sym k ∙ e in cc))

  on_decrypted-Meaning :
      (node : Node) (f : Request) (r : Result InboundError (G × Option Envelope))
      → opened mls codecs node.groups f.gid f.ciphertext ≡ r
      → Meaning mls codecs
          (core node)
          f
          (on_decrypted mls codecs node f.from f.gid f.enforce f.now f.fresh r)
  unfolding on_decrypted
  on_decrypted-Meaning node f (err e) o = refl
  on_decrypted-Meaning node f (ok (g, none)) o = on_commit-Meaning node f g o _ refl
  on_decrypted-Meaning node f (ok (g, some env)) o =
      on_envelope-Meaning node f g env o env.kind refl

  abbrev pub answer : Node → Request → Answer
  answer node f =
      dispatch_for_group mls codecs node f.from f.gid f.ciphertext f.enforce f.now f.fresh

  pub dispatch_for_group-Meaning :
      (node : Node) (f : Request) → Meaning mls codecs (core node) f (answer node f)
  unfolding dispatch_for_group
  dispatch_for_group-Meaning node f = elim (Bool-cases (length f.gid == 32)) [
    | inl e ↦ rw (e, if◌then◌else◌) (on_decrypted-Meaning node f _ refl)
    | inr e ↦ rw (e, if◌then◌else◌) refl
  ]
