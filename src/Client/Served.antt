-- ===== src/Client/Served.antt =====
-- The client on a connection to the server of this repository: each frame that is sent is one turn
-- of the server's loop, unless the client's codec does not write it.
use skattr.Base.{
  ◌≡◌, refl, ◌⊎◌, inl, inr, Bool, true, false, List, [], ◌∷◌, Option, none, some, Bytes,
}
use skattr.Mailbox.Failure.{Result, ok, err, Result-cases}
use skattr.Mailbox.Codec.{MailboxFrame, encode_frame}
use skattr.Mailbox.Policy.{Policy}
use skattr.Mailbox.Dispatch.{State, Libraries}
use skattr.Mailbox.Server.{frame, Draw, send, turn}
use skattr.Client.{Exchange, send_failed, closed, answered}

-- The server, and what it will draw for the frames to come; without a further draw it hangs up.
abbrev pub Served : Type 0
Served = State × List Draw

-- Without an answer the connection is closed for good.
abbrev pub reply : State → List Draw → Option MailboxFrame → Served × Exchange
reply s ds none = ((s, []), closed)
reply s ds (some f) = ((s, ds), answered f)

-- A request that was written.
unfoldable pub arrive : Policy → Libraries → Served → MailboxFrame → Served × Exchange
arrive p libs (s, []) f = ((s, []), closed)
arrive p libs (s, d ∷ ds) f = let (s', resp) = turn p libs (frame f) d s in reply s' ds resp

-- `framed.send` of the client, given the codec's result and what comes of a written request.
abbrev transmit : Result Bytes → Served → Served × Exchange → Served × Exchange
transmit (ok bytes) w exchanged = exchanged
transmit (err e) w exchanged = (w, send_failed)

unfoldable pub serve : Policy → Libraries → Served → MailboxFrame → Served × Exchange
serve p libs w f = transmit (encode_frame libs.bodies f []) w (arrive p libs w f)

module _ (p : Policy) (libs : Libraries) where
  -- What is sent is the frame, or nothing.
  pub send-cases :
      (hangs_up : Bool) (f : MailboxFrame)
      → (send p libs hangs_up f ≡ some f) ⊎ (send p libs hangs_up f ≡ none)
  unfolding send
  send-cases true f = inr refl
  send-cases false f = elim (Result-cases (encode_frame libs.bodies f [])) [
    | inl (bytes, e) ↦ inl (rw e refl)
    | inr (x, e) ↦ inr (rw e refl)
  ]

pub reply-deposits : (s : State) (ds : List Draw) (o : Option MailboxFrame) → (reply s ds o).0.0 ≡ s
reply-deposits s ds none = refl
reply-deposits s ds (some f) = refl

-- The frame can be encoded, within 16 MiB.
abbrev pub Encoded : Libraries → MailboxFrame → Type 0
Encoded libs f = (bytes : Bytes) × (encode_frame libs.bodies f [] ≡ ok bytes)

module _ (p : Policy) (libs : Libraries) (w : Served) (f : MailboxFrame) where
  pub serve-arrive : Encoded libs f → serve p libs w f ≡ arrive p libs w f
  unfolding serve
  serve-arrive (bytes, e) = rw e refl

  -- A request arrives, or the client fails and the server does not notice.
  pub serve-cases : (serve p libs w f ≡ arrive p libs w f) ⊎ (serve p libs w f ≡ (w, send_failed))
  unfolding serve
  serve-cases = elim (Result-cases (encode_frame libs.bodies f [])) [
    | inl (bytes, e) ↦ inl (rw e refl)
    | inr (x, e) ↦ inr (rw e refl)
  ]
