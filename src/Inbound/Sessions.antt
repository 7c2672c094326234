-- ===== src/Inbound/Sessions.antt =====
-- `load`, `decrypt` and `save_in_tx` of crates/core/src/mls/group.rs.
use Prim.Native.Nat.{◌^◌}
use skattr.Base.{List, Option, none, some, Bytes, ltb, if◌then◌else◌, select}
use skattr.Base.Results.{Result, ok, err, ◌>>=◌}
use skattr.Envelope.{Envelope}
use skattr.Inbound.{
  GroupRow, InboundError, unknown_group, load_failed, decrypt_failed, save_failed, Mls, Codecs,
  is_group, first_group, put_group,
}

module _ {G : Type 0} (mls : Mls G) (codecs : Codecs) where
  unfoldable pub load : List GroupRow → Bytes → Result InboundError G
  load groups gid = elim (first_group (select (is_group gid) groups)) [
    | none ↦ err unknown_group
    | some r ↦ elim (mls.restore r.state_blob gid) [ none ↦ err load_failed | some g ↦ ok g ]
  ]

  unfoldable pub decode_payload : G → Option Bytes → Result InboundError (G × Option Envelope)
  decode_payload g none = ok (g, none)
  decode_payload g (some bytes) = elim (codecs.envelope.from_reader bytes) [
    | none ↦ err decrypt_failed
    | some e ↦ ok (g, some e)
  ]

  unfoldable pub decrypt : G → Bytes → Result InboundError (G × Option Envelope)
  unfolding decode_payload
  decrypt g ciphertext = elim (mls.process g ciphertext) [
    | none ↦ err decrypt_failed
    | some (g', payload) ↦ decode_payload g' payload
  ]

  unfoldable pub save : List GroupRow → Bytes → G → Result InboundError (List GroupRow)
  unfolding put_group
  save groups gid g = elim (mls.snapshot g) [
    | none ↦ err save_failed
    | some blob ↦
        if ltb (mls.epoch g) (2 ^ 63)
        then ok
            (put_group (record { group_id = gid; state_blob = blob; epoch = mls.epoch g }) groups)
        else err save_failed
  ]

  -- `load`, then `decrypt`.
  abbrev pub opened : List GroupRow → Bytes → Bytes → Result InboundError (G × Option Envelope)
  opened groups gid ciphertext = load groups gid >>= λ g. decrypt g ciphertext
