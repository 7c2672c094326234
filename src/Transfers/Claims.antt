-- ===== src/Transfers/Claims.antt =====
-- How often an attachment is taken out of `pending`, whatever the lanes of the daemon do.
use skattr.Base.{
  ℕ, ◌+◌, ◌≤◌, ◌≡◌, refl, ◌∙◌, sym, inl, inr, Bool, true, false, not, ◌&&◌, List, [], ◌∷◌, ◌++◌,
  Bytes, length, ◌==◌, if◌then◌else◌, same, same_iff, same_refl, select, arith, Bool-cases,
}
use skattr.Transfers.{
  AttachmentStatus, pending, AttachmentRow, Transfers, TerminalStatus, to_status, is_pending,
  is_failed, has_attachment, is_waiting, is_failed_in, with_status, with_peer, update_where,
  new_row, insert, mark_received, claim_terminal, rearm_failed_in, set_status, set_peer, delete,
}

-- The calls of the repository that write. The daemon sets no status but `complete`.
pub data Call : Type 0 where
  inserts : (id : Bytes) (inbound : Bool) (manifest : Bytes) (total_chunks now : ℕ) → Call
  claims : (id : Bytes) → TerminalStatus → Call
  rearms : (id : Bytes) → Call
  completes : (id : Bytes) → Call
  sets_peer : (id peer : Bytes) → Call
  receives : (id : Bytes) (index : ℕ) → Call
  deletes : (id : Bytes) → Call

-- The table after a call, and whether the caller is told that it took effect.
abbrev pub after : Transfers → Call → Transfers × Bool
after t (inserts id inbound manifest total_chunks now) =
    insert t id inbound manifest total_chunks now
after t (claims id s) = claim_terminal t id s
after t (rearms id) = rearm_failed_in t id
after t (completes id) = (set_status t id AttachmentStatus.complete, false)
after t (sets_peer id peer) = (set_peer t id peer, false)
after t (receives id index) = (mark_received t id index, false)
after t (deletes id) = (delete t id, false)

abbrev pub is_claim : Bytes → Call → Bool
is_claim id (claims k s) = same k id
is_claim id _ = false

-- A call that makes the attachment pending.
abbrev pub is_arming : Bytes → Call → Bool
is_arming id (inserts k _ _ _ _) = same k id
is_arming id (rearms k) = same k id
is_arming id _ = false

-- How many of the calls took effect.
unfoldable pub count : (Call → Bool) → Transfers → List Call → ℕ
count p t [] = 0
count p t (c ∷ calls) =
    let rest = count p (after t c).0 calls in if p c && (after t c).1 then 1 + rest else rest

abbrev pub waiting : Bytes → List AttachmentRow → ℕ
waiting id rows = length (select (is_waiting id) rows)

abbrev pub rows_of : Bytes → List AttachmentRow → ℕ
rows_of id rows = length (select (has_attachment id) rows)

same_trans : (a b c : Bytes) → same a b ≡ true → same a c ≡ true → same b c ≡ true
same_trans a b c e f =
    let p = (same_iff a b).0 e in let q = (same_iff a c).0 f in (same_iff b c).1 (sym p ∙ q)

rows_of-update_where :
    (id : Bytes) (p : AttachmentRow → Bool) (f : AttachmentRow → AttachmentRow)
    (rows : List AttachmentRow)
    → ((r : AttachmentRow) → (f r).attachment_id ≡ r.attachment_id)
    → rows_of id (update_where p f rows) ≡ rows_of id rows
unfolding select update_where
rows_of-update_where id p f [] h = refl
rows_of-update_where id p f (r ∷ rows) h = elim (Bool-cases (p r)) [
  | inl e ↦ rw (e, if◌then◌else◌, h r) (ground (arith, rows_of-update_where id p f rows h))
  | inr e ↦ rw (e, if◌then◌else◌) (ground (arith, rows_of-update_where id p f rows h))
]

-- A change that makes no row pending.
waiting-update_where :
    (id : Bytes) (p : AttachmentRow → Bool) (f : AttachmentRow → AttachmentRow)
    (rows : List AttachmentRow)
    → ((r : AttachmentRow) → is_waiting id (f r) ≡ true → is_waiting id r ≡ true)
    → waiting id (update_where p f rows) ≤ waiting id rows
unfolding select update_where
waiting-update_where id p f [] h = omega arith
waiting-update_where id p f (r ∷ rows) h = elim (Bool-cases (p r)) [
  | inl e ↦ rw (e, if◌then◌else◌) (ground (arith, h r, waiting-update_where id p f rows h))
  | inr e ↦ rw (e, if◌then◌else◌) (ground (arith, waiting-update_where id p f rows h))
]

terminal-not_pending : (s : TerminalStatus) → is_pending (to_status s) ≡ false
unfolding is_pending to_status
terminal-not_pending TerminalStatus.complete = refl
terminal-not_pending TerminalStatus.failed = refl

-- No row waits after its claim.
waiting-claimed :
    (id : Bytes) (s : AttachmentStatus) (rows : List AttachmentRow)
    → is_pending s ≡ false
    → waiting id (update_where (is_waiting id) (with_status s) rows) ≡ 0
unfolding select update_where
waiting-claimed id s [] h = refl
waiting-claimed id s (r ∷ rows) h = elim (Bool-cases (is_waiting id r)) [
  | inl e ↦ rw (e, if◌then◌else◌) (ground (arith, h, waiting-claimed id s rows h))
  | inr e ↦ rw (e, if◌then◌else◌, e) (waiting-claimed id s rows h)
]

waiting-rearmed :
    (id : Bytes) (rows : List AttachmentRow)
    → waiting id (update_where (is_failed_in id) (with_status pending) rows)
      ≤ waiting id rows + length (select (is_failed_in id) rows)
unfolding select update_where
waiting-rearmed id [] = omega arith
waiting-rearmed id (r ∷ rows) = elim (Bool-cases (is_failed_in id r)) [
  | inl e ↦ rw (e, if◌then◌else◌) (ground (arith, waiting-rearmed id rows))
  | inr e ↦ rw (e, if◌then◌else◌) (ground (arith, waiting-rearmed id rows))
]

-- A condition on the rows of an id selects no more than these.
length-select-rows_of :
    (id : Bytes) (p : AttachmentRow → Bool) (rows : List AttachmentRow)
    → length (select (λ r. has_attachment id r && p r) rows) ≤ rows_of id rows
unfolding select
length-select-rows_of id p [] = omega arith
length-select-rows_of id p (r ∷ rows) = ground (arith, length-select-rows_of id p rows)

length-select-kept :
    (p q : AttachmentRow → Bool) (rows : List AttachmentRow)
    → length (select p (select q rows)) ≤ length (select p rows)
unfolding select
length-select-kept p q [] = omega arith
length-select-kept p q (r ∷ rows) = ground (arith, length-select-kept p q rows)

waiting-rearmed_other :
    (id k : Bytes) (rows : List AttachmentRow)
    → same k id ≡ false
    → waiting id (update_where (is_failed_in k) (with_status pending) rows) ≤ waiting id rows
unfolding select update_where
waiting-rearmed_other id k [] d = omega arith
waiting-rearmed_other id k (r ∷ rows) d = elim (Bool-cases (is_failed_in k r)) [
  | inl e ↦
      rw (e, if◌then◌else◌)
        (ground (arith, e, d, same_trans r.attachment_id k id, waiting-rearmed_other id k rows d))
  | inr e ↦ rw (e, if◌then◌else◌) (ground (arith, waiting-rearmed_other id k rows d))
]

abbrev took : Bool → ℕ
took b = if b then 1 else 0

-- A call leaves one row of the id at most, and what it takes out of `pending` was there or came in.
abbrev Balanced : Bytes → Transfers → Call → Type 0
Balanced id t c =
    (rows_of id (after t c).0.rows ≤ 1)
    × (waiting id (after t c).0.rows + took (is_claim id c && (after t c).1)
        ≤ waiting id t.rows + took (is_arming id c && (after t c).1))

claim-Balanced :
    (id k : Bytes) (s : TerminalStatus) (t : Transfers)
    → rows_of id t.rows ≤ 1
    → Balanced id t (claims k s)
unfolding claim_terminal
claim-Balanced id k s t le =
    let rows =
      rows_of-update_where id (is_waiting k) (with_status (to_status s)) t.rows (λ r. refl) in
    let fewer =
      waiting-update_where id (is_waiting k) (with_status (to_status s)) t.rows
        (λ r e. ground (arith, e, terminal-not_pending s)) in
    elim (Bool-cases (same k id)) [
      | inl e ↦ (
        omega (arith, rows, le),
        ground (
          arith,
          e,
          (let own : waiting id (update_where (is_waiting k) (with_status (to_status s)) t.rows)
                  ≡ 0 =
                rw ((same_iff k id).0 e)
                  (waiting-claimed id (to_status s) t.rows (terminal-not_pending s)) in
              own),
          (same_iff k id).0 e,
        ),
      )
      | inr e ↦ (omega (arith, rows, le), ground (arith, e, fewer))
    ]

rearm-Balanced : (id k : Bytes) (t : Transfers) → rows_of id t.rows ≤ 1 → Balanced id t (rearms k)
unfolding rearm_failed_in
rearm-Balanced id k t le =
    let rows = rows_of-update_where id (is_failed_in k) (with_status pending) t.rows (λ r. refl) in
    elim (Bool-cases (same k id)) [
      | inl e ↦ (
        omega (arith, rows, le),
        rw ((same_iff k id).0 e) (
            let few = length-select-rows_of id (λ r. r.inbound && is_failed r.status) t.rows in
            ground (arith, few, le, same_refl id, waiting-rearmed id t.rows)),
      )
      | inr e ↦ (omega (arith, rows, le), ground (arith, e, waiting-rearmed_other id k t.rows e))
    ]

-- A new row waits under its own id only.
waiting-append :
    (id k : Bytes) (inbound : Bool) (manifest : Bytes) (total_chunks now : ℕ)
    (rows : List AttachmentRow)
    → (rows_of id (rows ++ (new_row k inbound manifest total_chunks now ∷ []))
        ≡ rows_of id rows + took (same k id))
      × (waiting id (rows ++ (new_row k inbound manifest total_chunks now ∷ []))
          ≡ waiting id rows + took (same k id))
unfolding select is_pending
waiting-append id k inbound manifest total_chunks now [] = elim (Bool-cases (same k id)) [
  | inl e ↦ (ground (arith, e), ground (arith, e))
  | inr e ↦ (ground (arith, e), ground (arith, e))
]
waiting-append id k inbound manifest total_chunks now (r ∷ rows) =
    let (m, w) = waiting-append id k inbound manifest total_chunks now rows in
    (ground (arith, m), ground (arith, w))

insert-Balanced :
    (id k : Bytes) (inbound : Bool) (manifest : Bytes) (total_chunks now : ℕ) (t : Transfers)
    → rows_of id t.rows ≤ 1
    → Balanced id t (inserts k inbound manifest total_chunks now)
unfolding insert
insert-Balanced id k inbound manifest total_chunks now t le =
    let (m, w) = waiting-append id k inbound manifest total_chunks now t.rows in
    elim (Bool-cases (length (select (has_attachment k) t.rows) == 0)) [
      | inl e ↦ elim (Bool-cases (same k id)) [
        | inl own ↦
            let none_yet : rows_of id t.rows ≡ 0 =
              rw (← (same_iff k id).0 own) (ground (arith, e)) in
            rw (e, if◌then◌else◌) (ground (arith, m, own, none_yet), ground (arith, w, own))
        | inr other ↦ rw (e, if◌then◌else◌) (ground (arith, m, other, le), ground (arith, w, other))
      ]
      | inr e ↦ rw (e, if◌then◌else◌) (le, ground arith)
    ]

call-Balanced : (id : Bytes) (t : Transfers) (c : Call) → rows_of id t.rows ≤ 1 → Balanced id t c
unfolding set_status set_peer mark_received delete is_pending
call-Balanced id t (inserts k inbound manifest total_chunks now) le =
    insert-Balanced id k inbound manifest total_chunks now t le
call-Balanced id t (claims k s) le = claim-Balanced id k s t le
call-Balanced id t (rearms k) le = rearm-Balanced id k t le
call-Balanced id t (completes k) le = (
  omega (
    arith,
    le,
    rows_of-update_where id (has_attachment k) (with_status AttachmentStatus.complete) t.rows
        (λ r. refl),
  ),
  omega (
    arith,
    waiting-update_where id (has_attachment k) (with_status AttachmentStatus.complete) t.rows
        (λ r e. ground (arith, e)),
  ),
)
call-Balanced id t (sets_peer k p) le = (
  omega (arith, le, rows_of-update_where id (has_attachment k) (with_peer p) t.rows (λ r. refl)),
  omega (arith, waiting-update_where id (has_attachment k) (with_peer p) t.rows (λ r e. e)),
)
call-Balanced id t (receives k index) le = (le, omega arith)
call-Balanced id t (deletes k) le = (
  omega (arith, le, length-select-kept (has_attachment id) (λ r. not (has_attachment k r)) t.rows),
  omega (arith, length-select-kept (is_waiting id) (λ r. not (has_attachment k r)) t.rows),
)

-- Whatever writes to a table with one row of an attachment at most, the claims of the attachment that
-- are told that they won, complete or failed, are no more than the insertions and the re-armings of it
-- that took effect, and one if it was pending at first.
pub claims_bounded :
    (id : Bytes) (t : Transfers) (calls : List Call)
    → rows_of id t.rows ≤ 1
    → count (is_claim id) t calls ≤ waiting id t.rows + count (is_arming id) t calls
unfolding count
claims_bounded id t [] le = omega arith
claims_bounded id t (c ∷ calls) le =
    let (one, balance) = call-Balanced id t c le in
    ground (arith, balance, claims_bounded id (after t c).0 calls one)
