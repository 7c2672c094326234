-- ===== src/History/Tests.antt =====
-- The message history on a small table, with a toy encoding of texts.
use skattr.Base.{
  ℕ, ◌+◌, ◌<◌, ◌≡◌, ◌≢◌, refl, ap, sym, inl, inr, [], ◌∷◌, ◌++◌, Option, none, some, Bytes, length,
  take, select, same, order_by, insert_before, arith,
}
use skattr.Base.Results.{ok}
use skattr.Base.Int.{ℤ, pos, negsuc}
use skattr.Wire.{Serde}
use skattr.Envelope.{Envelope, Kind}
use skattr.History.{
  Message, History, KindName, InsertParams, empty, new_row, kind_name, text_of, in_group,
  insert_in_tx, recent,
}
use skattr.History.Updates.{
  mark_delivered_by_envelope_id, mark_failed, mark_dismissed, prune_keep_last, later,
}
use skattr.History.Validity.{IsValid}
use skattr.History.Insert.{holders, insert_once}
use skattr.History.Delivery.{Pairwise, Marked, marks_scoped}
use skattr.History.Pruning.{prune_keep_last_exact}
use skattr.History.Export.{export_loop, to_records}
use skattr.History.Export.Paging.{export_complete}
use skattr.History.Recent.{recent_messages, page_rows, to_page}
use skattr.History.Recent.Records.{undecodable_ends}
use skattr.History.Recent.Scrolling.{newest, scroll, scroll_complete}

-- A text with an id of one byte is its version, its id, its time and its body.
abbrev encode_parts : ℕ → Bytes → ℤ → Option Bytes → Kind → Option Bytes
encode_parts v (i ∷ []) (pos t) none (Kind.text body) = some (v ∷ i ∷ t ∷ body)
encode_parts _ _ _ _ _ = none

abbrev decode_parts : Bytes → Option Envelope
decode_parts (v ∷ i ∷ t ∷ body) =
    some (record { v = v; id = i ∷ []; ts = pos t; reply_to = none; kind = Kind.text body })
decode_parts _ = none

pub decode-encode_parts :
    (v : ℕ) (id : Bytes) (ts : ℤ) (reply_to : Option Bytes) (kind : Kind) (b : Bytes)
    → encode_parts v id ts reply_to kind ≡ some b
    → decode_parts b ≡ some (record { v = v; id = id; ts = ts; reply_to = reply_to; kind = kind })
decode-encode_parts v (i ∷ []) (pos t) none (Kind.text body) b e =
    ap (λ (o : Option Bytes). elim o [ none ↦ none | some x ↦ decode_parts x ]) (sym e)
decode-encode_parts v [] ts r k b e = cc
decode-encode_parts v (i ∷ j ∷ ids) ts r k b e = cc
decode-encode_parts v (i ∷ []) (negsuc t) r k b e = cc
decode-encode_parts v (i ∷ []) (pos t) (some r) k b e = cc
decode-encode_parts v (i ∷ []) (pos t) none (Kind.file m) b e = cc
decode-encode_parts v (i ∷ []) (pos t) none (Kind.reaction x y) b e = cc
decode-encode_parts v (i ∷ []) (pos t) none (Kind.edit x y) b e = cc
decode-encode_parts v (i ∷ []) (pos t) none (Kind.delete x) b e = cc
decode-encode_parts v (i ∷ []) (pos t) none Kind.typing b e = cc
decode-encode_parts v (i ∷ []) (pos t) none (Kind.contact_card_update c) b e = cc

abbrev pub toy_envelope : Serde Envelope
toy_envelope = record {
  into_writer = λ e. encode_parts e.v e.id e.ts e.reply_to e.kind;
  from_reader = decode_parts;
  reads_back = λ e b. decode-encode_parts e.v e.id e.ts e.reply_to e.kind b;
}

abbrev pub text_with : ℕ → Bytes → Envelope
text_with i body = record {
  v = 1;
  id = i ∷ [];
  ts = pos 100;
  reply_to = none;
  kind = Kind.text body;
}

abbrev pub group : Bytes
group = 3 ∷ []

abbrev pub other_group : Bytes
other_group = 4 ∷ []

abbrev me : Bytes
me = 9 ∷ []

abbrev to_store : Bytes → ℕ → InsertParams
to_store g i = record {
  group_id = g;
  sender = me;
  envelope = text_with i (7 ∷ []);
  mls_generation = i;
  ts_daemon_recv = 50;
}

abbrev row : Bytes → ℕ → Message
row g i = new_row toy_envelope i (to_store g i) KindName.text (1 ∷ i ∷ 100 ∷ 7 ∷ [])

abbrev one : History
one = record { rows = row group 1 ∷ []; last_id = 1; read_state = [] }

abbrev two : History
two = record { rows = row group 1 ∷ row group 2 ∷ []; last_id = 2; read_state = [] }

stores_one : insert_in_tx toy_envelope empty (to_store group 1) ≡ ok (one, 1)
unfolding insert_in_tx kind_name text_of select
stores_one = refl

empty-IsValid : IsValid empty
empty-IsValid = record { ascending = tt; old = tt; apart = tt }

two-IsValid : IsValid two
unfolding text_of same
two-IsValid = record {
  ascending = (omega arith, (omega arith, tt));
  old = (omega arith, (omega arith, tt));
  apart = ((refl, tt), (tt, tt));
}

insert_once_example :
    IsValid one
    × (empty.last_id < 1)
    × ((r : Message) × (one.rows ≡ empty.rows ++ (r ∷ [])) × (r.id ≡ 1) × (r.sender ≡ me))
    × (length (holders toy_envelope one (to_store group 1)) ≡ 1)
    × (insert_in_tx toy_envelope one (to_store group 1) ≢ ok (two, 2))
insert_once_example =
    insert_once toy_envelope empty (to_store group 1) one 1 (to_store group 1) (two, 2)
      empty-IsValid stores_one refl refl

marks_scoped_example :
    Pairwise (Marked me) two.rows (mark_delivered_by_envelope_id two (1 ∷ []) me 60).0.rows
    × Pairwise (Marked me) two.rows (mark_failed two (1 ∷ []) me (5 ∷ [])).0.rows
    × Pairwise (Marked me) two.rows (mark_dismissed two (1 ∷ []) me 60).0.rows
marks_scoped_example = marks_scoped two (1 ∷ []) me (5 ∷ []) 60

groups_differ : group ≢ other_group
groups_differ e = absurd (let k : 3 ∷ [] ≡ 4 ∷ [] = e in cc)

prune_keep_last_exact_example :
    (order_by later (select (in_group group) (prune_keep_last two group 1).0.rows)
      ≡ take 1 (order_by later (select (in_group group) two.rows)))
    × (select (in_group other_group) (prune_keep_last two group 1).0.rows
        ≡ select (in_group other_group) two.rows)
    × ((prune_keep_last two group 1).1 + length (prune_keep_last two group 1).0.rows
        ≡ length two.rows)
    × IsValid (prune_keep_last two group 1).0
prune_keep_last_exact_example =
    prune_keep_last_exact two group other_group 1 two-IsValid groups_differ

export_complete_example :
    export_loop toy_envelope me (8 ∷ []) 3 two (some group) none
    ≡ some (ok (to_records toy_envelope me (8 ∷ []) (select (in_group group) two.rows)))
unfolding select same
export_complete_example =
    export_complete toy_envelope me (8 ∷ []) two 3 [] 3 two-IsValid.ascending (omega arith)

scroll_complete_example :
    scroll toy_envelope me (8 ∷ []) 3 two group 1 none
    ≡ some (ok (to_records toy_envelope me (8 ∷ []) (newest two group)))
unfolding select same order_by insert_before
scroll_complete_example =
    scroll_complete toy_envelope me (8 ∷ []) two 3 [] 1 3 two-IsValid
      (omega arith, (omega arith, tt))
      ((text_with 2 (7 ∷ []), refl), ((text_with 1 (7 ∷ []), refl), tt)) (omega arith) (omega arith)

-- A row whose blob is no envelope.
abbrev spoiled : Message
spoiled = record (row group 1) { body_blob = [] }

abbrev damaged : History
damaged = record two { rows = spoiled ∷ row group 2 ∷ [] }

undecodable_ends_example :
    (to_page 2
      (to_records toy_envelope me (8 ∷ []) (page_rows damaged group 2 none))).next_before_id
    ≡ none
unfolding recent_messages page_rows recent order_by insert_before select same to_records
undecodable_ends_example =
    undecodable_ends toy_envelope me (8 ∷ []) damaged 3 [] 2 none spoiled
      (to_page 2 (to_records toy_envelope me (8 ∷ []) (page_rows damaged group 2 none)))
      (inr (inl refl)) refl refl
