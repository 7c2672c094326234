-- ===== src/Outbox/Enqueue.antt =====
-- Enqueuing a message, and what keeps the table well formed.
use skattr.Base.{
  ℕ, suc, ◌≤◌, ◌≡◌, ◌≢◌, ◌↔◌, refl, ap, ◌∙◌, inl, inr, ◌⊎◌, Bool, true, false, List, [], ◌∷◌, ◌++◌,
  none, some, Bytes, length, ◌==◌, if◌then◌else◌, same_refl, same_iff, same_sym, select,
  select-append, All, All-append, All-select, All-intro, All-Has, Has, Has-append_left,
  Has-append_right, length-append, arith, Bool-cases, none_selected, select_none,
}
use skattr.Outbox.{
  OutboxTargetKind, direct, mailbox, same_kind, Row, Outbox, has_key, new_row, insert_row,
}

pub same_kind_refl : (k : OutboxTargetKind) → same_kind k k ≡ true
unfolding same_kind
same_kind_refl direct = refl
same_kind_refl mailbox = refl

same_kind_sym : (k l : OutboxTargetKind) → same_kind k l ≡ same_kind l k
unfolding same_kind
same_kind_sym direct direct = refl
same_kind_sym direct mailbox = refl
same_kind_sym mailbox direct = refl
same_kind_sym mailbox mailbox = refl

same_kind_iff : (k l : OutboxTargetKind) → (same_kind k l ≡ true) ↔ (k ≡ l)
unfolding same_kind
same_kind_iff direct direct = (λ e. refl, λ e. refl)
same_kind_iff direct mailbox = (λ e. cc, λ e. cc)
same_kind_iff mailbox direct = (λ e. cc, λ e. cc)
same_kind_iff mailbox mailbox = (λ e. refl, λ e. refl)

-- Two rows have the same key.
abbrev pub same_key : Row → Row → Bool
same_key r x = has_key r.target r.message_id r.target_kind r.mailbox_id x

pub same_key_sym : (r x : Row) → same_key r x ≡ same_key x r
unfolding has_key
same_key_sym r x =
    rw
      (
        same_sym r.target x.target,
        same_sym r.message_id x.message_id,
        same_kind_sym r.target_kind x.target_kind,
      )
      (ground arith)

-- A row differs from the given ones in key and in id.
abbrev pub Apart : Row → List Row → Type 0
Apart r rows = All (λ x. (same_key r x ≡ false) × (r.id ≢ x.id)) rows

abbrev pub AllApart : List Row → Type 0
AllApart [] = Unit {0}
AllApart (r ∷ rows) = Apart r rows × AllApart rows

-- Keys and ids are unique, and the ids are those given out.
pub record IsValid (b : Outbox) : Type 0 where
  pub apart : AllApart b.rows
  pub old : All (λ r. r.id ≤ b.last_id) b.rows

pub AllApart-select : (p : Row → Bool) (rows : List Row) → AllApart rows → AllApart (select p rows)
unfolding select
AllApart-select p [] u = tt
AllApart-select p (r ∷ rows) (a, u) = elim (Bool-cases (p r)) [
  | inl e ↦ rw (e, if◌then◌else◌) (All-select _ p rows a, AllApart-select p rows u)
  | inr e ↦ rw (e, if◌then◌else◌) (AllApart-select p rows u)
]

AllApart-append_row :
    (r : Row) (rows : List Row)
    → All (λ x. (same_key x r ≡ false) × (x.id ≢ r.id)) rows
    → AllApart rows
    → AllApart (rows ++ (r ∷ []))
AllApart-append_row r [] a u = (tt, tt)
AllApart-append_row r (x ∷ rows) (h, a) (f, u) =
    (All-append _ rows (r ∷ []) f (h, tt), AllApart-append_row r rows a u)

has_key-same_key :
    (target message_id : Bytes) (kind : OutboxTargetKind) (mailbox_id : ℕ) (r x : Row)
    → has_key target message_id kind mailbox_id r ≡ true
    → has_key target message_id kind mailbox_id x ≡ same_key r x
unfolding has_key
has_key-same_key target message_id kind mailbox_id r x e = ground (
  arith,
  same_iff r.target target,
  same_iff r.message_id message_id,
  same_kind_iff r.target_kind kind,
)

key_once :
    (target message_id : Bytes) (kind : OutboxTargetKind) (mailbox_id : ℕ) (rows : List Row)
    → AllApart rows
    → length (select (has_key target message_id kind mailbox_id) rows) ≤ 1
unfolding select
key_once target message_id kind mailbox_id [] u = omega arith
key_once target message_id kind mailbox_id (r ∷ rows) (a, u) =
    elim (Bool-cases (has_key target message_id kind mailbox_id r)) [
      | inl e ↦
          let none_left = select_none (has_key target message_id kind mailbox_id) rows (
            All-intro _ rows (λ x m.
              has_key-same_key target message_id kind mailbox_id r x e
              ∙ (All-Has _ x rows a m).0)) in
          rw (e, if◌then◌else◌) (omega (arith, ap length none_left))
      | inr e ↦ rw (e, if◌then◌else◌) (key_once target message_id kind mailbox_id rows u)
    ]

insert_row-present :
    (b : Outbox) (target message_id payload : Bytes) (at : ℕ) (kind : OutboxTargetKind)
    (mailbox_id : ℕ)
    → (length (select (has_key target message_id kind mailbox_id) b.rows) == 0) ≡ false
    → insert_row b target message_id payload at kind mailbox_id ≡ (b, none)
unfolding insert_row
insert_row-present b target message_id payload at kind mailbox_id e = rw (e, if◌then◌else◌) refl

module _ (b : Outbox) (target message_id payload : Bytes) (at : ℕ) (kind : OutboxTargetKind)
    (mailbox_id : ℕ) where
  abbrev r : Row
  r = new_row (suc b.last_id) target message_id payload at kind mailbox_id

  count_after :
      length (select (has_key target message_id kind mailbox_id) b.rows) ≡ 0
      → length (select (has_key target message_id kind mailbox_id) (b.rows ++ (r ∷ []))) ≡ 1
  unfolding has_key select
  count_after e =
      rw
        (
          select-append (has_key target message_id kind mailbox_id) b.rows (r ∷ []),
          length-append (select (has_key target message_id kind mailbox_id) b.rows)
              (select (has_key target message_id kind mailbox_id) (r ∷ [])),
        )
        (ground (arith, same_refl target, same_refl message_id, same_kind_refl kind))

  append-IsValid :
      IsValid b
      → length (select (has_key target message_id kind mailbox_id) b.rows) ≡ 0
      → IsValid (record { rows = b.rows ++ (r ∷ []); last_id = suc b.last_id })
  append-IsValid v e = record {
    apart =
        AllApart-append_row r b.rows
          (All-intro _ b.rows (λ x m. (
            same_key_sym x r ∙ All-Has _ x b.rows (none_selected _ b.rows e) m,
            let le = All-Has _ x b.rows v.old m in omega (arith, le),
          )))
          v.apart;
    old =
        All-append _ b.rows (r ∷ [])
          (All-intro _ b.rows (λ x m. let le = All-Has _ x b.rows v.old m in omega (arith, le)))
          (omega arith, tt);
  }

  -- A message is enqueued just when no row has its destination, and under a new id then. There is
  -- one row for it afterwards, the rows that were there stay, and the table stays valid.
  pub enqueue_ok :
      IsValid b
      → let (b', id) = insert_row b target message_id payload at kind mailbox_id in
        let count = length (select (has_key target message_id kind mailbox_id) b.rows) in
        IsValid b'
        × ((x : Row) → Has x b.rows → Has x b'.rows)
        × (length (select (has_key target message_id kind mailbox_id) b'.rows) ≡ 1)
        × (((count ≡ 1) × (id ≡ none))
            ⊎ ((count ≡ 0) × (id ≡ some (suc b.last_id)) × Has r b'.rows))
  unfolding insert_row
  enqueue_ok v =
      let p = has_key target message_id kind mailbox_id in
      elim (Bool-cases (length (select p b.rows) == 0)) [
        | inl e ↦
            let none_there : length (select p b.rows) ≡ 0 = ground (arith, e) in
            rw (e, insert_row, if◌then◌else◌)
              (
                append-IsValid v none_there,
                (λ x m. Has-append_left x b.rows (r ∷ []) m),
                count_after none_there,
                inr (none_there, refl, Has-append_right r b.rows (r ∷ []) (inl refl)),
              )
        | inr e ↦
            let one : length (select p b.rows) ≡ 1 =
              ground (arith, e, key_once target message_id kind mailbox_id b.rows v.apart) in
            rw (e, insert_row, if◌then◌else◌) (v, (λ x m. m), one, inl (one, refl))
      ]

  enqueued :
      (length (
          select
            (has_key target message_id kind mailbox_id)
            (insert_row b target message_id payload at kind mailbox_id).0.rows)
        == 0)
      ≡ false
  unfolding insert_row
  enqueued =
      let p = has_key target message_id kind mailbox_id in
      elim (Bool-cases (length (select p b.rows) == 0)) [
        | inl e ↦
            rw (e, insert_row, if◌then◌else◌) (ground (arith, count_after (ground (arith, e))))
        | inr e ↦ rw (e, insert_row, if◌then◌else◌) e
      ]

  -- Enqueuing a message for the same destination again changes nothing and gives no id, whatever
  -- its payload and its time are.
  pub enqueue_twice :
      (payload' : Bytes) (at' : ℕ)
      → let b' = (insert_row b target message_id payload at kind mailbox_id).0 in
        insert_row b' target message_id payload' at' kind mailbox_id ≡ (b', none)
  enqueue_twice payload' at' =
      insert_row-present (insert_row b target message_id payload at kind mailbox_id).0 target
        message_id payload' at' kind mailbox_id enqueued
