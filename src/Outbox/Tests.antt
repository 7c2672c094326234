-- ===== src/Outbox/Tests.antt =====
-- The outbox on concrete rows.
use skattr.Base.{
  ◌≡◌, ◌≢◌, ◌⊎◌, refl, true, [], ◌∷◌, none, some, Bytes, length, arith, same, select, Has,
}
use skattr.Outbox.{
  direct, mailbox, same_kind, Row, Outbox, empty, has_key, new_row, insert_row, is_mailbox,
  is_direct_for, due, due_mailbox, due_direct_for, set_mailbox_target, to_mailbox, update_id, done,
}
use skattr.Outbox.Enqueue.{IsValid, enqueue_ok}
use skattr.Outbox.Settle.{retarget_ok}
use skattr.Outbox.Due.{Batch, due_batches}

abbrev alice : Bytes
alice = 1 ∷ []

abbrev message : Bytes
message = 9 ∷ []

abbrev waiting : Row
waiting = new_row 1 alice message (4 ∷ 5 ∷ []) 100 direct 0

abbrev one_row : Outbox
one_row = record { rows = waiting ∷ []; last_id = 1 }

one_row-IsValid : IsValid one_row
one_row-IsValid = record { apart = (tt, tt); old = (omega arith, tt) }

abbrev moved : Outbox
moved = record { rows = to_mailbox 3 waiting ∷ []; last_id = 1 }

insert_first : insert_row empty alice message (4 ∷ 5 ∷ []) 100 direct 0 ≡ (one_row, some 1)
unfolding insert_row select
insert_first = refl

set_mailbox_first : set_mailbox_target one_row 1 3 ≡ done moved
unfolding set_mailbox_target update_id has_key same_kind select same
set_mailbox_first = refl

enqueue_ok_example :
    let (b', id) = insert_row one_row alice message [] 100 mailbox 3 in
    let count = length (select (has_key alice message mailbox 3) one_row.rows) in
    IsValid b'
    × ((x : Row) → Has x one_row.rows → Has x b'.rows)
    × (length (select (has_key alice message mailbox 3) b'.rows) ≡ 1)
    × (((count ≡ 1) × (id ≡ none))
        ⊎ ((count ≡ 0) × (id ≡ some 2) × Has (new_row 2 alice message [] 100 mailbox 3) b'.rows))
enqueue_ok_example = enqueue_ok one_row alice message [] 100 mailbox 3 one_row-IsValid

retarget_ok_example :
    IsValid moved
    × ((r : Row) → Has r one_row.rows → r.id ≡ 1 → Has (to_mailbox 3 r) moved.rows)
    × ((r : Row) → Has r one_row.rows → r.id ≢ 1 → Has r moved.rows)
    × (length moved.rows ≡ 1)
retarget_ok_example = retarget_ok one_row moved 1 3 one_row-IsValid set_mailbox_first

due_batches_example :
    Batch (λ r. true) one_row 150 10 (due one_row 150 10)
    × Batch is_mailbox one_row 150 10 (due_mailbox one_row 150 10)
    × Batch (is_direct_for alice) one_row 150 10 (due_direct_for one_row alice 150 10)
due_batches_example = due_batches one_row alice 150 10
