-- ===== src/Receiver/Tests.antt =====
-- The receiver on a small database.
use skattr.Base.{◌≡◌, refl, true, [], ◌∷◌, Bytes, select, arith}
use skattr.Base.Results.{ok}
use skattr.History.{empty, kind_name, text_of, insert_in_tx}
use skattr.History.Tests.{toy_envelope, text_with}
use skattr.Receiver.{
  Database, New, new, Arrival, outside_window, insert_seen, commit, receive_in_tx, on_insert,
  receive,
}
use skattr.Receiver.Outcomes.{Meaning, receive-Meaning}
use skattr.Receiver.Once.{here, next, receives, Again, receive_once}

abbrev group : Bytes
group =
    1 ∷ 2 ∷ 3 ∷ 4 ∷ 5 ∷ 6 ∷ 7 ∷ 8 ∷ 1 ∷ 2 ∷ 3 ∷ 4 ∷ 5 ∷ 6 ∷ 7 ∷ 8 ∷ 1 ∷ 2 ∷ 3 ∷ 4 ∷ 5 ∷ 6 ∷ 7 ∷ 8
    ∷ 1 ∷ 2 ∷ 3 ∷ 4 ∷ 5 ∷ 6 ∷ 7 ∷ 8 ∷ []

abbrev fresh : Database
fresh = record { history = empty; seen = [] }

abbrev arrival : Arrival
arrival = record {
  sender = 9 ∷ [];
  group_id = group;
  envelope = text_with 1 (7 ∷ []);
  now_ms = 120;
  mls_generation = 3;
  ts_daemon_recv = 121;
  enforce_ts_window = true;
}

abbrev accepted : New
accepted = record {
  envelope = text_with 1 (7 ∷ []);
  row_id = 1;
  sender = 9 ∷ [];
  group_id = group;
  mls_generation = 3;
  ts_daemon_recv = 121;
}

receives_new : (receive toy_envelope fresh arrival).1 ≡ ok (new accepted)
unfolding receive receive_in_tx commit insert_seen outside_window on_insert insert_in_tx kind_name
    text_of select
receives_new = refl

abbrev after : Database
after = (receive toy_envelope fresh arrival).0

receive-Meaning_example :
    Meaning toy_envelope fresh arrival after (receive toy_envelope fresh arrival).1
receive-Meaning_example = receive-Meaning toy_envelope fresh arrival

receive_once_example :
    Again toy_envelope
      (receive toy_envelope after arrival).0
      (receive toy_envelope (receive toy_envelope after arrival).0 arrival)
receive_once_example =
    receive_once toy_envelope fresh arrival accepted 100 (receive toy_envelope after arrival).0
      arrival receives_new (omega arith) (next here (receives arrival)) refl refl
