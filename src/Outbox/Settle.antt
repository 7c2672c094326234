-- ===== src/Outbox/Settle.antt =====
-- Acknowledging, rescheduling and retargeting a message.
use skattr.Base.{
  ℕ, ◌+◌, ◌<◌, ◌≡◌, ◌≢◌, ◌↔◌, refl, sym, ap, ◌∙◌, subst, inl, inr, Bool, true, false, not, List, [],
  ◌∷◌, some, Bytes, length, ◌==◌, if◌then◌else◌, same, select, All, All-select, All-Has, Has,
  Has-select, Has-select_inv, Has-sort_by, Has-sort_by_inv, arith, Bool-cases, Option-cases,
  none_selected,
}
use skattr.Outbox.{
  Row, Outbox, has_id, first, delete_where, is_message, ack_by_message_id, delete_by_target,
  delete_by_id, update_id, to_mailbox, clashes, later, reschedule, set_mailbox_target, done, failed,
  conflict, due_rows, is_due, retry_at,
}
use skattr.Outbox.Updates.{
  AllApart-Has, All-update_id, AllApart-update_id, Has-update_id, length-update_id,
}
use skattr.Outbox.Enqueue.{AllApart-select, IsValid}

delete_where-IsValid : (p : Row → Bool) (b : Outbox) → IsValid b → IsValid (delete_where p b).0
delete_where-IsValid p b v = record {
  apart = AllApart-select (λ r. not (p r)) b.rows v.apart;
  old = All-select _ (λ r. not (p r)) b.rows v.old;
}

reschedule-IsValid : (b : Outbox) (id at : ℕ) → IsValid b → IsValid (reschedule b id at)
unfolding reschedule
reschedule-IsValid b id at v = record {
  apart =
      AllApart-update_id id (later at) b.rows (λ x. refl)
        (λ x y m k i d. elim (AllApart-Has b.rows x y v.apart m k) [
          | inl e ↦ absurd (d (sym (ap (λ z. z.id) e) ∙ i))
          | inr (f, _) ↦ f
        ])
        v.apart;
  old =
      All-update_id _ id (later at) b.rows (λ x m i. All-Has _ x b.rows v.old m)
        (λ x m d. All-Has _ x b.rows v.old m);
}

first_inv : (rows : List Row) (r : Row) → first rows ≡ some r → Has r rows
first_inv [] r e = cc
first_inv (x ∷ rows) r e = inl cc

-- What a retargeting that is done has found: the row, and no other with its new key.
retarget_inv :
    (b b' : Outbox) (id mailbox_id : ℕ)
    → set_mailbox_target b id mailbox_id ≡ done b'
    → (r : Row) × Has r b.rows
      × (r.id ≡ id)
      × All (λ x. clashes id mailbox_id r x ≡ false) b.rows
      × (b' ≡ record { rows = update_id id (to_mailbox mailbox_id) b.rows; last_id = b.last_id })
unfolding set_mailbox_target
retarget_inv b b' id mailbox_id e = elim (Option-cases (first (select (has_id id) b.rows))) [
  | inl n ↦ absurd (ground (arith, n))
  | inr (r, s) ↦
      let (is, there) = Has-select_inv (has_id id) r b.rows (first_inv _ r s) in
      elim (Bool-cases (length (select (clashes id mailbox_id r) b.rows) == 0)) [
        | inl z ↦ (
          r,
          there,
          ground (arith, is),
          none_selected _ b.rows (ground (arith, z)),
          let k : done (record {
            rows = update_id id (to_mailbox mailbox_id) b.rows;
            last_id = b.last_id;
          })
                  ≡ done b' =
                rw (s, set_mailbox_target, z, if◌then◌else◌) at e in
              cc,
        )
        | inr z ↦ absurd (
            let k : failed conflict ≡ done b' = rw (s, set_mailbox_target, z, if◌then◌else◌) at e in
            cc)
      ]
]

-- A row that is retargeted goes to the mailbox as it was otherwise, under a key that no other row
-- has; the other rows stay, and the table stays valid.
pub retarget_ok :
    (b b' : Outbox) (id mailbox_id : ℕ)
    → IsValid b
    → set_mailbox_target b id mailbox_id ≡ done b'
    → IsValid b'
      × ((r : Row) → Has r b.rows → r.id ≡ id → Has (to_mailbox mailbox_id r) b'.rows)
      × ((r : Row) → Has r b.rows → r.id ≢ id → Has r b'.rows)
      × (length b'.rows ≡ length b.rows)
retarget_ok b b' id mailbox_id v e =
    let (r, there, is, clear, eq) = retarget_inv b b' id mailbox_id e in
    let f = to_mailbox mailbox_id in
    rw eq (
      record {
        apart =
            AllApart-update_id id f b.rows (λ x. refl)
              (λ x y m k i d.
                let same_row : x ≡ r = elim (AllApart-Has b.rows x r v.apart m there) [
                  | inl q ↦ q
                  | inr (_, n) ↦ absurd (n (i ∙ sym is))
                ] in
                rw same_row (ground (arith, All-Has _ y b.rows clear k, d)))
              v.apart;
        old =
            All-update_id _ id f b.rows (λ x m i. All-Has _ x b.rows v.old m)
              (λ x m d. All-Has _ x b.rows v.old m);
      },
      (λ x m i.
          subst (λ z. Has z (update_id id f b.rows)) (ground (arith, i))
            (Has-update_id id f b.rows x m)),
      (λ x m d.
          subst (λ z. Has z (update_id id f b.rows)) (ground (arith, d))
            (Has-update_id id f b.rows x m)),
      length-update_id id f b.rows,
    )

-- Deleting, acknowledging and rescheduling keep a table valid.
pub settle-IsValid :
    (b : Outbox) (target message_id : Bytes) (id at : ℕ)
    → IsValid b
    → IsValid (delete_by_target b target)
      × IsValid (delete_by_id b id).0
      × IsValid (ack_by_message_id b target message_id).0
      × IsValid (reschedule b id at)
unfolding delete_by_target delete_by_id ack_by_message_id
settle-IsValid b target message_id id at v = (
  delete_where-IsValid (λ r. same r.target target) b v,
  delete_where-IsValid (has_id id) b v,
  delete_where-IsValid (is_message target message_id) b v,
  reschedule-IsValid b id at v,
)

length-select_split :
    (p : Row → Bool) (rows : List Row)
    → length (select p rows) + length (select (λ r. not (p r)) rows) ≡ length rows
unfolding select
length-select_split p [] = refl
length-select_split p (r ∷ rows) = ground (arith, length-select_split p rows)

-- After an acknowledgement no row for the message to that target is left, direct or by mailbox,
-- every other row is, and the answer says whether there was one.
pub ack_exact :
    (b : Outbox) (target message_id : Bytes)
    → let (b', removed) = ack_by_message_id b target message_id in
      ((r : Row) → Has r b'.rows ↔ (Has r b.rows × (is_message target message_id r ≡ false)))
      × ((removed ≡ true) ↔ (length (select (is_message target message_id) b.rows) ≢ 0))
unfolding ack_by_message_id
ack_exact b target message_id =
    let p = is_message target message_id in
    (
      (λ r. (
        (λ m. let (e, h) = Has-select_inv (λ x. not (p x)) r b.rows m in (h, ground (arith, e))),
        (λ (h, e). Has-select (λ x. not (p x)) r b.rows (ground (arith, e)) h),
      )),
      (
        (λ e z. ground (arith, length-select_split p b.rows)),
        (λ some_there. ground (arith, length-select_split p b.rows)),
      ),
    )

-- A row that is rescheduled is not due before its new time, and no other row is held up.
pub reschedule_not_early :
    (p : Row → Bool) (b : Outbox) (id at now : ℕ)
    → now < at
    → ((r : Row) → Has r (due_rows p (reschedule b id at) now) → r.id ≢ id)
      × ((r : Row)
          → r.id ≢ id
          → Has r (due_rows p b now)
          → Has r (due_rows p (reschedule b id at) now))
unfolding due_rows reschedule
reschedule_not_early p b id at now early =
    let rows = update_id id (later at) b.rows in
    (
      (λ r m i.
          let (d, h) = Has-select_inv (is_due p now) r rows (Has-sort_by_inv retry_at r _ m) in
          let time : r.next_retry_at ≡ at =
            All-Has (λ x. x.id ≡ id → x.next_retry_at ≡ at) r rows
              (All-update_id _ id (later at) b.rows (λ x _ _ _. refl) (λ x _ n e. absurd (n e))) h
              i in
          ground (arith, d, time)),
      (λ r n m.
          let (d, h) = Has-select_inv (is_due p now) r b.rows (Has-sort_by_inv retry_at r _ m) in
          Has-sort_by retry_at r _ (
            Has-select (is_due p now) r rows d (
              subst (λ z. Has z rows) (ground (arith, n))
                (Has-update_id id (later at) b.rows r h)))),
    )
