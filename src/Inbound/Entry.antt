-- ===== src/Inbound/Entry.antt =====
-- `dispatch` and `dispatch_mailbox` of crates/core/src/daemon/inbound.rs.
use skattr.Base.{
  ℕ, Bool, true, false, ◌&&◌, List, [], ◌∷◌, Option, none, some, Bytes, length, ◌==◌, if◌then◌else◌,
}
use skattr.Base.Results.{Result, ok, err}
use skattr.Envelope.{Envelope}
use skattr.Contacts.{get_group_id, contact_for_group}
use skattr.Inbound.{GroupRow, Node, InboundError, no_group, Mls, Codecs, Answer}
use skattr.Inbound.Sessions.{load, decrypt, opened}
use skattr.Inbound.Pipeline.{dispatch_for_group}

module _ {G : Type 0} (mls : Mls G) (codecs : Codecs) where
  -- A contact without a group has the empty id.
  unfoldable pub in_group_of :
      Node → (from ciphertext : Bytes) → ℕ → (fresh : Bytes) → Option Bytes → Answer
  unfolding dispatch_for_group
  in_group_of node from ciphertext now fresh none = (node, err no_group)
  in_group_of node from ciphertext now fresh (some []) = (node, err no_group)
  in_group_of node from ciphertext now fresh (some (b ∷ g)) =
      dispatch_for_group mls codecs node from (b ∷ g) ciphertext true now fresh

  unfoldable pub dispatch_inner : Node → (from ciphertext : Bytes) → ℕ → (fresh : Bytes) → Answer
  unfolding in_group_of
  dispatch_inner node from ciphertext now fresh =
      in_group_of node from ciphertext now fresh (get_group_id node.contacts from)

  abbrev pub to_ack : Answer → Node × Option Bytes
  to_ack (node, ok id) = (node, some id)
  to_ack (node, err _) = (node, none)

  -- A frame of a peer is acknowledged with the id, or not at all.
  unfoldable pub dispatch :
      Node → (from ciphertext : Bytes) → ℕ → (fresh : Bytes) → Node × Option Bytes
  unfolding dispatch_inner
  dispatch node from ciphertext now fresh = to_ack (dispatch_inner node from ciphertext now fresh)

  -- The trial on one group: the peer whose message it is.
  abbrev pub has_payload : Result InboundError (G × Option Envelope) → Bool
  has_payload (ok (_, some _)) = true
  has_payload _ = false

  unfoldable pub trial : Node → Bytes → Bytes → Option Bytes
  unfolding load decrypt
  trial node gid ciphertext =
      if has_payload (opened mls codecs node.groups gid ciphertext) && (length gid == 32)
      then contact_for_group node.contacts gid
      else none

  -- The first group whose message it is decides, else the rest.
  unfoldable pub on_trial :
      Node
      → (gid ciphertext : Bytes) → ℕ
      → Bytes
      → Node × Option Bytes
      → Option Bytes
      → Node × Option Bytes
  unfolding dispatch_for_group
  on_trial node gid ciphertext now fresh rest none = rest
  on_trial node gid ciphertext now fresh rest (some peer) =
      to_ack (dispatch_for_group mls codecs node peer gid ciphertext false now fresh)

  unfoldable pub try_groups : Node → Bytes → ℕ → Bytes → List GroupRow → Node × Option Bytes
  unfolding trial on_trial
  try_groups node ciphertext now fresh [] = (node, none)
  try_groups node ciphertext now fresh (r ∷ groups) =
      let rest = try_groups node ciphertext now fresh groups in
      on_trial node r.group_id ciphertext now fresh rest (trial node r.group_id ciphertext)

  -- The groups stand in the order of their ids.
  unfoldable pub dispatch_mailbox :
      Node → (ciphertext : Bytes) → ℕ → (fresh : Bytes) → Node × Option Bytes
  unfolding try_groups
  dispatch_mailbox node ciphertext now fresh = try_groups node ciphertext now fresh node.groups
