-- ===== src/Inbound/Polled.antt =====
-- The poller with the inbound pipeline of this module. The chunks of attachments are a parameter, and
-- each deposit that is not one draws the time and an id.
use skattr.Base.{ℕ, ◌≡◌, ◌⊎◌, Bool, true, List, [], ◌∷◌, none, Bytes, Option}
use skattr.Mailbox.Policy.{Policy}
use skattr.Poller.{InboundDispatch}
use skattr.Poller.Drained.{Ran}
use skattr.Inbound.{Node, Mls, Codecs}
use skattr.Inbound.Entry.{dispatch_mailbox}
use skattr.Inbound.Fetched.{TakenIn}

pub record Clock : Type 0 where
  pub now : ℕ
  pub fresh : Bytes

module _ {G : Type 0} (mls : Mls G) (codecs : Codecs)
    (take_chunk : Node → Bytes → Node × Bool) where
  abbrev pub Draws : Type 0
  Draws = Node × List Clock

  abbrev pub chunk_step : Draws → Bytes → Draws × Bool
  chunk_step (node, clocks) ciphertext =
      let (node', taken) = take_chunk node ciphertext in ((node', clocks), taken)

  abbrev pub mailbox_step : Draws → Bytes → Draws × Option Bytes
  mailbox_step (node, []) ciphertext = ((node, []), none)
  mailbox_step (node, c ∷ clocks) ciphertext =
      let (node', id) = dispatch_mailbox mls codecs node ciphertext c.now c.fresh in
      ((node', clocks), id)

  abbrev pub pipeline : InboundDispatch Draws
  pipeline = record { dispatch_attachment_chunk = chunk_step; dispatch_mailbox = mailbox_step }

  -- On the way from `x` to `y` the ciphertext was taken as a chunk, or its payload was taken in, by the
  -- node `before`, and the node that this gave went on, by further deposits only, to `y`.
  abbrev pub Ingested : Draws → Bytes → Draws → Type 0
  Ingested x ciphertext y =
      (before : Draws) × Ran pipeline x before
      × (((take_chunk before.0 ciphertext).1 ≡ true)
            × Ran pipeline (chunk_step before ciphertext).0 y
          ⊎ ((now : ℕ) × (node' : Node) × (clocks : List Clock) × (id : Bytes) × TakenIn mls codecs
                (take_chunk before.0 ciphertext).0 ciphertext now node' id
              × Ran pipeline (node', clocks) y))
