-- ===== src/Receiver/Once.antt =====
-- A message that was accepted is not accepted again.
use skattr.Base.{
  ℕ, ◌≤◌, ◌<◌, ◌≡◌, refl, ap, sym, subst, inl, inr, ◌⊎◌, true, List, [], ◌∷◌, Bytes, length,
  same_refl, select, Has, Has-select, Has-append_left, Has-append_right, arith,
}
use skattr.Base.Results.{Result, ok, err}
use skattr.Wire.{Serde}
use skattr.Envelope.{Envelope}
use skattr.History.{History}
use skattr.Receiver.{
  Seen, is_seen, contains, sweep_older_than, Database, New, ReceiveOutcome, new, duplicate,
  rejected, ReceiveError, group_id_length, insert_failed, Arrival, receive,
}
use skattr.Receiver.Outcomes.{was_seen, mark, Meaning, receive-Meaning}

module _ (cbor : Serde Envelope) where
  -- What may happen to the database: an envelope arrives, the sweep forgets what was seen before a
  -- time that is no later than `oldest`, or the messages change in any other way.
  pub data Step (oldest : ℕ) : Database → Database → Type 0 where
    receives : {db : Database} (a : Arrival) → Step oldest db (receive cbor db a).0
    sweeps :
        {db : Database} (cutoff : ℕ)
        → cutoff ≤ oldest
        → Step oldest db (record db { seen = sweep_older_than db.seen cutoff })
    changes : {db : Database} (h : History) → Step oldest db (record db { history = h })

  pub data Reach (oldest : ℕ) (db : Database) : Database → Type 0 where
    here : Reach oldest db db
    next : {x y : Database} → Reach oldest db x → Step oldest x y → Reach oldest db y

  Meaning-Has :
      (s : Seen) (db : Database) (a : Arrival) (db' : Database)
      (r : Result ReceiveError ReceiveOutcome)
      → Meaning cbor db a db' r
      → Has s db.seen
      → Has s db'.seen
  Meaning-Has s db a db' (ok rejected) m h = subst (λ x. Has s x.seen) (sym m.1) h
  Meaning-Has s db a db' (ok duplicate) m h = subst (λ x. Has s x.seen) (sym m.2) h
  Meaning-Has s db a db' (ok (new n)) m h = subst (Has s) (sym m.3) (Has-append_left s db.seen _ h)
  Meaning-Has s db a db' (err group_id_length) m h = subst (λ x. Has s x.seen) (sym m.3) h
  Meaning-Has s db a db' (err (insert_failed e)) m h = subst (λ x. Has s x.seen) (sym m.3) h

  Step-Has :
      (s : Seen) (oldest : ℕ) {x y : Database}
      → oldest ≤ s.seen_at
      → Step oldest x y
      → Has s x.seen
      → Has s y.seen
  Step-Has s oldest {x} le (receives a) h =
      Meaning-Has s x a (receive cbor x a).0 (receive cbor x a).1 (receive-Meaning cbor x a) h
  Step-Has s oldest {x} le (sweeps cutoff lt) h =
      unfold sweep_older_than in Has-select _ s x.seen (ground (arith, le, lt)) h
  Step-Has s oldest le (changes g) h = h

  Reach-Has :
      (s : Seen) (oldest : ℕ) (db : Database) {y : Database}
      → oldest ≤ s.seen_at
      → Reach oldest db y
      → Has s db.seen
      → Has s y.seen
  Reach-Has s oldest db le here h = h
  Reach-Has s oldest db le (next r st) h = Step-Has s oldest le st (Reach-Has s oldest db le r h)

  selected : (s : Seen) (t : List Seen) → Has s t → 0 < length t
  selected s [] h = absurd h
  selected s (x ∷ t) h = omega arith

  Has-contains :
      (s : Seen) (t : List Seen) (sender id : Bytes)
      → Has s t
      → sender ≡ s.sender
      → id ≡ s.message_id
      → contains t sender id ≡ true
  unfolding contains
  Has-contains s t sender id h es ei =
      let k : is_seen sender id s ≡ true =
        rw (es, ei, same_refl s.sender, same_refl s.message_id) refl in
      ground
        (arith, selected s (select (is_seen sender id) t) (Has-select (is_seen sender id) s t k h))

  new_marks :
      (db : Database) (a : Arrival) (n : New) (db' : Database)
      (r : Result ReceiveError ReceiveOutcome)
      → Meaning cbor db a db' r
      → r ≡ ok (new n)
      → Has (mark cbor a) db'.seen
  new_marks db a n db' (ok rejected) m e = cc
  new_marks db a n db' (ok duplicate) m e = cc
  new_marks db a n db' (ok (new x)) m e =
      subst (Has (mark cbor a)) (sym m.3) (Has-append_right (mark cbor a) db.seen _ (inl refl))
  new_marks db a n db' (err x) m e = cc

  -- An envelope that was seen.
  abbrev pub Again : Database → Database × Result ReceiveError ReceiveOutcome → Type 0
  Again db x = (x ≡ (db, ok duplicate)) ⊎ (x ≡ (db, ok rejected))

  seen-Again :
      (db : Database) (b : Arrival) (db' : Database) (r : Result ReceiveError ReceiveOutcome)
      → Meaning cbor db b db' r
      → was_seen cbor db b ≡ true
      → Again db (db', r)
  seen-Again db b db' (ok rejected) m s = inr (ap (λ x. (x, ok rejected)) m.1)
  seen-Again db b db' (ok duplicate) m s = inl (ap (λ x. (x, ok duplicate)) m.2)
  seen-Again db b db' (ok (new n)) m s = cc m.1
  seen-Again db b db' (err group_id_length) m s = cc m.1
  seen-Again db b db' (err (insert_failed e)) m s = cc m.1

  -- After an envelope was accepted as new, and whatever arrives, is swept up to its arrival, or
  -- becomes of the stored messages since, every envelope with its sender and its id is a duplicate
  -- or is rejected, and leaves the database as it is.
  pub receive_once :
      (db : Database) (a : Arrival) (n : New) (oldest : ℕ) (later : Database) (b : Arrival)
      → (receive cbor db a).1 ≡ ok (new n)
      → oldest ≤ a.now_ms
      → Reach oldest (receive cbor db a).0 later
      → b.sender ≡ a.sender
      → b.envelope.id ≡ a.envelope.id
      → Again later (receive cbor later b)
  receive_once db a n oldest later b e le r es ei =
      let marked =
        new_marks db a n (receive cbor db a).0 (receive cbor db a).1 (receive-Meaning cbor db a)
          e in
      let kept = Reach-Has (mark cbor a) oldest (receive cbor db a).0 le r marked in
      seen-Again later b (receive cbor later b).0 (receive cbor later b).1
        (receive-Meaning cbor later b)
        (Has-contains (mark cbor a) later.seen b.sender b.envelope.id kept es ei)
