-- ===== src/Mailbox/Store/Tests.antt =====
-- The table of deposits on concrete rows.
use skattr.Base.{
  ℕ, ◌+◌, ◌≤◌, ◌≡◌, ◌↔◌, refl, false, [], ◌∷◌, Bytes, length, arith, same, select, Has,
}
use skattr.Mailbox.Failure.{ok, err, policy, server_full}
use skattr.Mailbox.Store.{
  Row, Table, add_u64, sum_bytes, is_for, is_expired, distinct_from, distinct_recipients, by_age,
  insert_by_age, evict, evict_expired_for, evict_expired_global, fit_recipient, fit_count,
  fit_global, append_row, insert, to_stored, fetch, delete,
}
use skattr.Mailbox.Store.Rows.{Unique}
use skattr.Mailbox.Store.Insert.{insert_ok}
use skattr.Mailbox.Store.Refusal.{Refusal, insert-Refusal}
use skattr.Mailbox.Store.Reads.{Pending, fetch_iff}
use skattr.Mailbox.Store.Removal.{remains, delete_exact}

abbrev row_of : (id h : ℕ) → Bytes → (at until : ℕ) → Row
row_of id h c at until = record {
  deposit_id = id ∷ [];
  recipient_hash = h ∷ [];
  ciphertext = c;
  deposited_at = at;
  expires_at = until;
}

abbrev old : Row
old = row_of 1 7 (1 ∷ 2 ∷ 3 ∷ []) 10 100

abbrev run_out : Row
run_out = row_of 2 8 (4 ∷ 5 ∷ []) 5 20

abbrev fresh : Row
fresh = row_of 3 7 (6 ∷ 7 ∷ []) 30 200

abbrev two : Table
two = old ∷ run_out ∷ []

two-Unique : Unique two
unfolding same
two-Unique = ((refl, tt), (tt, tt))

-- The server is full, and the row that has run out makes room.
insert-fresh : insert two fresh 10 6 5 30 ≡ ok (old ∷ fresh ∷ [])
unfolding insert fit_recipient fit_count fit_global append_row add_u64 sum_bytes distinct_recipients
    distinct_from by_age insert_by_age evict evict_expired_for evict_expired_global select same
insert-fresh = refl

insert_full : insert two fresh 10 4 5 30 ≡ err (policy server_full)
unfolding insert fit_recipient fit_count fit_global append_row add_u64 sum_bytes distinct_recipients
    distinct_from by_age insert_by_age evict evict_expired_for evict_expired_global select same
insert_full = refl

insert_ok_example :
    Has fresh (old ∷ fresh ∷ [])
    × ((x : Row) → Has x two → is_expired 30 x ≡ false → Has x (old ∷ fresh ∷ []))
    × Unique (old ∷ fresh ∷ [])
    × (sum_bytes (select (is_for (7 ∷ [])) (old ∷ fresh ∷ [])) ≤ 10)
    × (sum_bytes (old ∷ fresh ∷ []) ≤ 6)
    × (distinct_recipients (old ∷ fresh ∷ []) ≤ 5)
unfolding sum_bytes distinct_recipients distinct_from same
insert_ok_example =
    insert_ok two (old ∷ fresh ∷ []) fresh 10 6 5 30 two-Unique (omega arith) (omega arith)
      insert-fresh

insert-Refusal_example : Refusal two fresh 10 4 5 30 (policy server_full)
unfolding sum_bytes
insert-Refusal_example =
    insert-Refusal two fresh 10 4 5 30 (policy server_full) two-Unique (omega arith) insert_full

fetch_iff_example :
    Has (to_stored old) (fetch two (7 ∷ []) 30) ↔ Pending two (7 ∷ []) 30 (to_stored old)
fetch_iff_example = fetch_iff two (7 ∷ []) 30 (to_stored old)

delete_exact_example :
    ((delete two (7 ∷ []) ((1 ∷ []) ∷ (2 ∷ []) ∷ [])).0
      ≡ select (remains (7 ∷ []) ((1 ∷ []) ∷ (2 ∷ []) ∷ [])) two)
    × ((delete two (7 ∷ []) ((1 ∷ []) ∷ (2 ∷ []) ∷ [])).1
          + length (delete two (7 ∷ []) ((1 ∷ []) ∷ (2 ∷ []) ∷ [])).0
        ≡ 2)
    × ((delete two (7 ∷ []) ((1 ∷ []) ∷ (2 ∷ []) ∷ [])).1
          + (delete two (7 ∷ []) ((1 ∷ []) ∷ (2 ∷ []) ∷ [])).2
        ≡ 2)
delete_exact_example = delete_exact two (7 ∷ []) ((1 ∷ []) ∷ (2 ∷ []) ∷ []) two-Unique (omega arith)
