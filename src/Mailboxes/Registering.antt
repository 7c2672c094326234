-- ===== src/Mailboxes/Registering.antt =====
-- Registering a mailbox.
use skattr.Base.{
  ℕ, suc, ◌<◌, ◌≡◌, refl, ap, ◌∙◌, sym, inl, inr, ◌⊎◌, true, false, List, [], ◌∷◌, ◌++◌, some,
  Bytes, length, length-append, ◌==◌, same_refl, select, select-append, arith, Bool-cases,
}
use skattr.Mailboxes.{
  MailboxRole, mine, theirs, same_role, MailboxRow, Mailboxes, has_key, new_row, insert_row,
  first_id, ensure,
}

same_role_refl : (r : MailboxRole) → same_role r r ≡ true
unfolding same_role
same_role_refl mine = refl
same_role_refl theirs = refl

abbrev pub holders : Bytes → MailboxRole → Mailboxes → List MailboxRow
holders onion role t = select (has_key onion role) t.rows

first_of : (rows : List MailboxRow) → 0 < length rows → (id : ℕ) × (first_id rows ≡ some id)
first_of [] lt = absurd (omega arith)
first_of (r ∷ rows) lt = (r.id, refl)

holders-new :
    (t : Mailboxes) (onion : Bytes) (role : MailboxRole) (now : ℕ)
    → length (holders onion role t) ≡ 0
    → holders onion role (insert_row t onion role now)
      ≡ holders onion role t ++ (new_row (suc t.last_id) onion role now ∷ [])
unfolding insert_row
holders-new t onion role now e = rw e (
    select-append (has_key onion role) t.rows _
    ∙ ap (λ x. holders onion role t ++ x)
        (unfold select in rw (same_refl onion, same_role_refl role) refl))

ensure-held :
    (t : Mailboxes) (onion : Bytes) (role : MailboxRole) (now : ℕ)
    → 0 < length (holders onion role t)
    → ensure t onion role now ≡ (t, first_id (holders onion role t))
unfolding ensure insert_row
ensure-held t onion role now lt =
    let k : (length (holders onion role t) == 0) ≡ false = ground (arith, lt) in rw k refl

-- Registering a mailbox succeeds; it has one row more than before if the mailbox had none in that
-- role and stays as it was otherwise, and registering it again gives the same id and changes
-- nothing.
pub ensure_idempotent :
    (t : Mailboxes) (onion : Bytes) (role : MailboxRole) (now again : ℕ)
    → (id : ℕ) × ((ensure t onion role now).1 ≡ some id)
      × (ensure (ensure t onion role now).0 onion role again
          ≡ ((ensure t onion role now).0, some id))
      × (((ensure t onion role now).0 ≡ t)
          ⊎ ((length (holders onion role t) ≡ 0)
              × (id ≡ suc t.last_id)
              × (length (ensure t onion role now).0.rows ≡ suc (length t.rows))))
unfolding ensure insert_row
ensure_idempotent t onion role now again = elim (Bool-cases (length (holders onion role t) == 0)) [
  | inl free ↦
      let e : length (holders onion role t) ≡ 0 = ground (arith, free) in
      let id = suc t.last_id in
      let one : holders onion role (insert_row t onion role now) ≡ new_row id onion role now ∷ [] =
        holders-new t onion role now e
        ∙ ap (λ x. x ++ (new_row id onion role now ∷ [])) (empty (holders onion role t) e) in
      (
        id,
        ap first_id one,
        ensure-held (insert_row t onion role now) onion role again (rw one (omega arith))
            ∙ ap (λ x. (insert_row t onion role now, first_id x)) one,
        inr (e, refl, rw free (length-append t.rows _ ∙ omega arith)),
      )
  | inr held ↦
      let lt : 0 < length (holders onion role t) = ground (arith, held) in
      let (id, f) = first_of (holders onion role t) lt in
      let same = ensure-held t onion role now lt in
      (
        id,
        ap (λ x. x.1) same ∙ f,
        ap (λ x. ensure x.0 onion role again) same
            ∙ ensure-held t onion role again lt
            ∙ ap (λ x. (t, x)) f
            ∙ ap (λ x. (x.0, some id)) (sym same),
        inl (ap (λ x. x.0) same),
      )
]
  where
    empty : (xs : List MailboxRow) → length xs ≡ 0 → xs ≡ []
    empty [] e = refl
    empty (x ∷ xs) e = absurd (omega arith)
