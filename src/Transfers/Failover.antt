-- ===== src/Transfers/Failover.antt =====
-- What becomes of a chunk that is due, over all mailboxes of its recipient.
use skattr.Base.{
  zero, suc, ◌+◌, ◌-◌, ◌^◌, ◌<◌, ◌≤◌, min, not, map, same, select, ℕ, ◌≡◌, refl, ap, sym, subst,
  inl, inr, ◌⊎◌, Bool, true, false, List, [], ◌∷◌, ◌++◌, some, Bytes, length, take, drop,
  take-append-drop, ◌==◌, ◌%◌, if◌then◌else◌, All, Has, Has-append_left, Has-append_right,
  All-intro, All-Has, arith, Bool-cases,
}
use skattr.Transfers.{
  AttachmentStatus, AttachmentRow, has_attachment, with_status, update_where, set_status,
}
use skattr.Transfers.Deposits.{
  DepositRow, DepositDue, deposited, is_deposit, is_left, mark_deposited, reschedule, all_deposited,
  delete_for_attachment,
}
use skattr.Transfers.Sweep.{
  Sweep, at_index, backoff_ms, next_attempt, get_chunk, rotate, walk, give_up, finish, on_walk,
  on_chunk, sweep_row,
}

Has-append_inv : {A : Type 0} (a : A) (xs ys : List A) → Has a (xs ++ ys) → Has a xs ⊎ Has a ys
Has-append_inv a [] ys h = inr h
Has-append_inv a (x ∷ xs) ys (inl e) = inl (inl e)
Has-append_inv a (x ∷ xs) ys (inr h) = elim (Has-append_inv a xs ys h) [
  | inl l ↦ inl (inr l)
  | inr r ↦ inr r
]

-- The rotation leaves out no mailbox, and adds none.
Has-rotate : (o : Bytes) (n : ℕ) (onions : List Bytes) → Has o onions → Has o (rotate n onions)
unfolding rotate
Has-rotate o n onions h =
    elim (Has-append_inv o (take n onions) (drop n onions)
      (subst (λ xs. Has o xs) (sym (take-append-drop n onions)) h)) [
        | inl l ↦ Has-append_right o (drop n onions) (take n onions) l
        | inr r ↦ Has-append_left o (drop n onions) (take n onions) r
      ]

Has-rotate_inv : (o : Bytes) (n : ℕ) (onions : List Bytes) → Has o (rotate n onions) → Has o onions
unfolding rotate
Has-rotate_inv o n onions h =
    subst (λ xs. Has o xs) (take-append-drop n onions)
      (elim (Has-append_inv o (drop n onions) (take n onions) h) [
        | inl l ↦ Has-append_right o (take n onions) (drop n onions) l
        | inr r ↦ Has-append_left o (take n onions) (drop n onions) r
      ])

module _ {W : Type 0} (deposit : W → (onion recipient_hash chunk : Bytes) → W × Bool) where
  -- At some point a mailbox gave the answer to the deposit of the chunk.
  abbrev Answered : Bytes → Bytes → Bool → Bytes → Type 0
  Answered hash chunk answer onion = (w : W) × ((deposit w onion hash chunk).1 ≡ answer)

  walk-refused :
      (w : W) (onions : List Bytes) (hash chunk : Bytes)
      → (walk deposit w onions hash chunk).1 ≡ false
      → All (Answered hash chunk false) onions
  unfolding walk
  walk-refused w [] hash chunk e = tt
  walk-refused w (o ∷ onions) hash chunk e = elim (Bool-cases (deposit w o hash chunk).1) [
    | inl t ↦ absurd (ground (arith, t, e))
    | inr f ↦
        ((w, f), walk-refused (deposit w o hash chunk).0 onions hash chunk (ground (arith, f, e)))
  ]

  walk-taken :
      (w : W) (onions : List Bytes) (hash chunk : Bytes)
      → (walk deposit w onions hash chunk).1 ≡ true
      → (o : Bytes) × Has o onions × Answered hash chunk true o
  unfolding walk
  walk-taken w [] hash chunk e = absurd (ground (arith, e))
  walk-taken w (o ∷ onions) hash chunk e = elim (Bool-cases (deposit w o hash chunk).1) [
    | inl t ↦ (o, inl refl, (w, t))
    | inr f ↦
        let (p, m, a) =
          walk-taken (deposit w o hash chunk).0 onions hash chunk (ground (arith, f, e)) in
        (p, inr m, a)
  ]

  -- The row of the chunk, changed by `f`, among the others.
  abbrev pub changed : (DepositRow → DepositRow) → DepositDue → List DepositRow → List DepositRow
  changed f row rows =
      map (λ r. if is_deposit row.attachment_id row.chunk_index r then f r else r) rows

  abbrev pub marked : Sweep W → DepositDue → List DepositRow
  marked s row = changed (λ r. record r { status = deposited }) row s.deposits

  -- The row waits for between 15 seconds and 15 minutes more, with one attempt more, and nothing else
  -- of the tables and the chunks changes.
  abbrev pub PutOff : Sweep W → DepositDue → ℕ → Sweep W → Type 0
  PutOff s row now s' =
      (w : W) × (delay : ℕ) × (15_000 ≤ delay)
      × (delay ≤ 900_000)
      × (s' ≡ record s {
        deposits =
            changed
              (λ r. record r {
                attempts = min (row.attempts + 1) (2 ^ 32 - 1);
                next_retry_at = now + delay;
              })
              row s.deposits;
        world = w;
      })

  -- The rows of the attachment that are still pending.
  abbrev pub left_over : Bytes → List DepositRow → List DepositRow
  left_over id rows = select (is_left id) rows

  -- The row is marked. With no other row pending, the rows and the chunks of the attachment are gone
  -- and its status is complete; otherwise nothing else changes.
  abbrev pub Settled : Sweep W → DepositDue → Sweep W → Type 0
  Settled s row s' =
      (w : W) × ((0 < length (left_over row.attachment_id (marked s row)))
          × (s' ≡ record s { deposits = marked s row; world = w })
        ⊎ ((length (left_over row.attachment_id (marked s row)) ≡ 0)
            × (s' ≡ record {
              deposits = select (λ r. not (same r.attachment_id row.attachment_id)) (marked s row);
              transfers = record (s.transfers) {
                rows =
                    map
                      (λ r.
                        if same r.attachment_id row.attachment_id
                        then record r { status = AttachmentStatus.complete }
                        else r)
                      s.transfers.rows;
              };
              chunks = select (λ c. not (same c.attachment_id row.attachment_id)) s.chunks;
              world = w;
            })))

  -- Every mailbox refused and the row is put off, or one took the chunk and the row is settled.
  abbrev pub Outcome :
      (Bytes → Bytes) → List Bytes → Sweep W → DepositDue → ℕ → Bytes → Sweep W → Type 0
  Outcome sha256 onions s row now chunk s' =
      (All (Answered (sha256 row.recipient) chunk false) onions × PutOff s row now s')
      ⊎ (((o : Bytes) × Has o onions × Answered (sha256 row.recipient) chunk true o)
          × Settled s row s')

  backoff_ms-bounds : (n : ℕ) → (15_000 ≤ backoff_ms n) × (backoff_ms n ≤ 900_000)
  unfolding backoff_ms at_index
  backoff_ms-bounds zero = (omega arith, omega arith)
  backoff_ms-bounds (suc zero) = (omega arith, omega arith)
  backoff_ms-bounds (suc (suc zero)) = (omega arith, omega arith)
  backoff_ms-bounds (suc (suc (suc zero))) = (omega arith, omega arith)
  backoff_ms-bounds (suc (suc (suc (suc n)))) =
      rw (let m : min (suc (suc (suc (suc n)))) 4 ≡ 4 = omega arith in m) (omega arith, omega arith)

  give_up-PutOff :
      (s : Sweep W) (row : DepositDue) (now : ℕ) (w : W)
      → PutOff s row now (give_up deposit (record s { world = w }) row now)
  unfolding reschedule
  give_up-PutOff s row now w =
      let n = next_attempt row.attempts in
      let (low, high) = backoff_ms-bounds n in (w, backoff_ms n, low, high, refl)

  update_where-map :
      (p : AttachmentRow → Bool) (f : AttachmentRow → AttachmentRow) (rows : List AttachmentRow)
      → update_where p f rows ≡ map (λ r. if p r then f r else r) rows
  unfolding update_where
  update_where-map p f [] = refl
  update_where-map p f (r ∷ rows) =
      ap (λ xs. (if p r then f r else r) ∷ xs) (update_where-map p f rows)

  finish-Settled :
      (s : Sweep W) (row : DepositDue) (w : W)
      → Settled s row (
          finish deposit
            (record s {
              deposits = mark_deposited s.deposits row.attachment_id row.chunk_index;
              world = w;
            })
            row.attachment_id)
  unfolding finish all_deposited mark_deposited delete_for_attachment set_status
  finish-Settled s row w =
      let id = row.attachment_id in
      elim (Bool-cases (length (left_over id (marked s row)) == 0)) [
        | inl e ↦
            rw (e, if◌then◌else◌)
              (
                w,
                inr (
                  ground (arith, e),
                  rw
                      (update_where-map (has_attachment id) (with_status AttachmentStatus.complete)
                        s.transfers.rows)
                      refl,
                ),
              )
        | inr e ↦ rw (e, if◌then◌else◌) (w, inl (ground (arith, e), refl))
      ]

  on_walk-Outcome :
      (sha256 : Bytes → Bytes) (onions : List Bytes) (s : Sweep W) (row : DepositDue) (now n : ℕ)
      (chunk : Bytes) (answer : W × Bool)
      → walk deposit s.world (rotate n onions) (sha256 row.recipient) chunk ≡ answer
      → Outcome sha256 onions s row now chunk (on_walk deposit s row now answer)
  unfolding on_walk
  on_walk-Outcome sha256 onions s row now n chunk (w, false) e =
      let refused =
        walk-refused s.world (rotate n onions) (sha256 row.recipient) chunk
          (ap (λ (a : W × Bool). a.1) e) in
      inl (
        All-intro _ onions (λ o m. All-Has _ o (rotate n onions) refused (Has-rotate o n onions m)),
        give_up-PutOff s row now w,
      )
  on_walk-Outcome sha256 onions s row now n chunk (w, true) e =
      let (o, m, a) =
        walk-taken s.world (rotate n onions) (sha256 row.recipient) chunk
          (ap (λ (a : W × Bool). a.1) e) in
      inr ((o, Has-rotate_inv o n onions m, a), finish-Settled s row w)

  -- A chunk that is due and on disk, of a recipient with a mailbox, is put off, by 15 seconds to
  -- 15 minutes and with one attempt more, only when every mailbox of the recipient has refused it
  -- or could not be reached, and otherwise one of them has taken it. Then its row is marked; and
  -- if no row of the attachment is pending any more, all its rows go, with its chunks on disk,
  -- and the attachment is complete. Nothing else changes in the tables.
  pub sweep_row-Outcome :
      (sha256 : Bytes → Bytes) (mailboxes : Bytes → List Bytes) (s : Sweep W) (row : DepositDue)
      (now : ℕ) (chunk : Bytes)
      → (length (mailboxes row.recipient) == 0) ≡ false
      → get_chunk s.chunks row.attachment_id row.chunk_index ≡ some chunk
      → Outcome sha256
          (mailboxes row.recipient)
          s
          row
          now
          chunk
          (sweep_row deposit sha256 mailboxes s row now)
  unfolding sweep_row on_chunk
  sweep_row-Outcome sha256 mailboxes s row now chunk some_onion there =
      rw (some_onion, if◌then◌else◌, there)
        (on_walk-Outcome sha256 (mailboxes row.recipient) s row now
          (row.chunk_index % length (mailboxes row.recipient)) chunk _ refl)
