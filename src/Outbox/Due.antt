-- ===== src/Outbox/Due.antt =====
-- What the queries for due rows return.
use skattr.Base.{
  ℕ, ◌≤◌, ◌≡◌, ◌↔◌, refl, inl, inr, ◌⊎◌, Bool, true, List, map, Bytes, length, length-take, take,
  Has, Has-select, Has-select_inv, Has-sort_by, Has-sort_by_inv, Has-take, Has-take_or_drop,
  length-take_full, Sorted-take, sort_by-Sorted, arith,
}
use skattr.Outbox.{
  Row, OutboxRow, Outbox, map_row, retry_at, is_due, due_rows, is_mailbox, is_direct_for, due,
  due_mailbox, due_direct_for,
}

module _ (p : Row → Bool) (b : Outbox) (now : ℕ) where
  -- A query has just the rows that it asks for.
  pub due_rows_iff :
      (r : Row) → Has r (due_rows p b now) ↔ (Has r b.rows × (r.next_retry_at ≤ now) × (p r ≡ true))
  unfolding due_rows
  due_rows_iff r = (
    (λ m.
        let (d, h) = Has-select_inv (is_due p now) r b.rows (Has-sort_by_inv retry_at r _ m) in
        (h, ground (arith, d), ground (arith, d))),
    (λ (h, le, t).
        Has-sort_by retry_at r _ (Has-select (is_due p now) r b.rows (ground (arith, le, t)) h)),
  )

  -- A batch: a row that is asked for is in it, or the batch is full and all of it was due no later.
  abbrev pub Batch : ℕ → List OutboxRow → Type 0
  Batch limit out =
      (rows : List Row) × (out ≡ map map_row rows)
      × (length rows ≤ limit)
      × ((r : Row) → Has r rows → Has r b.rows × (r.next_retry_at ≤ now) × (p r ≡ true))
      × ((r : Row)
          → Has r b.rows
          → r.next_retry_at ≤ now
          → p r ≡ true
          → Has r rows
            ⊎ ((length rows ≡ limit)
                × ((x : Row) → Has x rows → x.next_retry_at ≤ r.next_retry_at)))

  due_Batch : (limit : ℕ) → Batch limit (map map_row (take limit (due_rows p b now)))
  unfolding due_rows
  due_Batch limit =
      let all = due_rows p b now in
      (
        take limit all,
        refl,
        omega (arith, length-take limit all),
        (λ r m. (due_rows_iff r).0 (Has-take limit r all m)),
        (λ r h le t. elim (Has-take_or_drop limit r all ((due_rows_iff r).1 (h, le, t))) [
          | inl m ↦ inl m
          | inr m ↦ inr (
            length-take_full limit r all m,
            λ x k. Sorted-take retry_at limit all x r (sort_by-Sorted retry_at _) k m,
          )
        ]),
      )

-- Each query for a batch returns due rows of its kind only, `limit` at most, and leaves none out
-- unless the batch is full of rows that have waited as long or longer.
pub due_batches :
    (b : Outbox) (target : Bytes) (now limit : ℕ)
    → Batch (λ r. true) b now limit (due b now limit)
      × Batch is_mailbox b now limit (due_mailbox b now limit)
      × Batch (is_direct_for target) b now limit (due_direct_for b target now limit)
unfolding due due_mailbox due_direct_for
due_batches b target now limit = (
  due_Batch (λ r. true) b now limit,
  due_Batch is_mailbox b now limit,
  due_Batch (is_direct_for target) b now limit,
)
