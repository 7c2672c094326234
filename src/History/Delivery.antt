-- ===== src/History/Delivery.antt =====
-- What the delivery marks change: nothing of a row that another sender wrote, and nothing of the
-- delivery time once it is set.
use skattr.Base.{
  ℕ, ◌≤◌, ◌≡◌, refl, ap, ◌∙◌, sym, subst, inl, inr, ◌⊎◌, Bool, true, false, List, [], ◌∷◌, Option,
  none, some, Bytes, if◌then◌else◌, same_iff, All, arith, Bool-cases, select_none,
}
use skattr.History.{Message, History}
use skattr.History.Updates.{
  update_where, is_null, is_own, is_undelivered, mark_delivered_by_envelope_id, mark_failed,
  mark_dismissed,
}
use skattr.History.Rows.{Ascending}
use skattr.History.Validity.{IsValid, KeysApart, key_clash, clash}

-- The rows of two tables, pair by pair.
abbrev pub Pairwise : (Message → Message → Type 0) → List Message → List Message → Type 0
Pairwise R [] [] = Unit {0}
Pairwise R [] (y ∷ ys) = ⊥
Pairwise R (x ∷ xs) [] = ⊥
Pairwise R (x ∷ xs) (y ∷ ys) = R x y × Pairwise R xs ys

pub Pairwise-update_where :
    (R : Message → Message → Type 0) (p : Message → Bool) (f : Message → Message)
    (rows : List Message)
    → ((r : Message) → p r ≡ true → R r (f r))
    → ((r : Message) → R r r)
    → Pairwise R rows (update_where p f rows)
unfolding update_where
Pairwise-update_where R p f [] changed kept = tt
Pairwise-update_where R p f (r ∷ rows) changed kept =
    let rest = Pairwise-update_where R p f rows changed kept in
    elim (Bool-cases (p r)) [
      | inl e ↦ rw (e, if◌then◌else◌) (changed r e, rest)
      | inr e ↦ rw (e, if◌then◌else◌) (kept r, rest)
    ]

-- What a mark by `me` may do to a row: who wrote it, what it says and its place stay, a row of
-- another sender stays whole, and so do the delivery time and the reason of a delivered one.
pub record Marked (me : Bytes) (r x : Message) : Type 0 where
  pub same_id : x.id ≡ r.id
  pub same_group : x.group_id ≡ r.group_id
  pub same_sender : x.sender ≡ r.sender
  pub same_envelope : x.envelope_id ≡ r.envelope_id
  pub same_body : x.body_blob ≡ r.body_blob
  pub foreign : (r.sender ≡ me) ⊎ (x ≡ r)
  pub delivered :
      (r.delivered_at ≡ none)
      ⊎ ((x.delivered_at ≡ r.delivered_at) × (x.failed_reason ≡ r.failed_reason))

Marked-refl : (me : Bytes) (r : Message) → Marked me r r
Marked-refl me r = record {
  same_id = refl;
  same_group = refl;
  same_sender = refl;
  same_envelope = refl;
  same_body = refl;
  foreign = inr refl;
  delivered = inr (refl, refl);
}

own_sender : (id me : Bytes) (r : Message) → is_own id me r ≡ true → r.sender ≡ me
own_sender id me r e = ground (arith, e, same_iff r.sender me)

undelivered_none : (o : Option ℕ) → is_null o ≡ true → o ≡ none
undelivered_none none e = refl
undelivered_none (some n) e = cc

Marked-own :
    (me : Bytes) (r : Message) (d dis : Option ℕ) (f : Option Bytes)
    → r.sender ≡ me
    → (r.delivered_at ≡ none) ⊎ ((d ≡ r.delivered_at) × (f ≡ r.failed_reason))
    → Marked me r (record r { delivered_at = d; dismissed_at = dis; failed_reason = f })
Marked-own me r d dis f own kept = record {
  same_id = refl;
  same_group = refl;
  same_sender = refl;
  same_envelope = refl;
  same_body = refl;
  foreign = inl own;
  delivered = kept;
}

-- Whatever is acknowledged, given up or dismissed in the name of `me`, by whatever envelope id, no
-- row is added, lost or moved, a row that another sender wrote stays as it is, and a delivery time
-- that was set stays, with the reason of failure that stood beside it.
pub marks_scoped :
    (h : History) (id me reason : Bytes) (now : ℕ)
    → Pairwise (Marked me) h.rows (mark_delivered_by_envelope_id h id me now).0.rows
      × Pairwise (Marked me) h.rows (mark_failed h id me reason).0.rows
      × Pairwise (Marked me) h.rows (mark_dismissed h id me now).0.rows
unfolding mark_delivered_by_envelope_id mark_failed mark_dismissed
marks_scoped h id me reason now = (
  Pairwise-update_where _ (is_undelivered id me) _ h.rows
      (λ r e.
        Marked-own me r _ _ _ (own_sender id me r (ground (arith, e)))
          (inl (undelivered_none r.delivered_at (ground (arith, e)))))
      (Marked-refl me),
  Pairwise-update_where _ (is_undelivered id me) _ h.rows
      (λ r e.
        Marked-own me r _ _ _ (own_sender id me r (ground (arith, e)))
          (inl (undelivered_none r.delivered_at (ground (arith, e)))))
      (Marked-refl me),
  Pairwise-update_where _ (is_own id me) _ h.rows
      (λ r e. Marked-own me r _ _ _ (own_sender id me r e) (inr (refl, refl))) (Marked-refl me),
)

update_where_none :
    (p : Message → Bool) (f : Message → Message) (rows : List Message)
    → All (λ r. p r ≡ false) rows
    → update_where p f rows ≡ rows
unfolding update_where
update_where_none p f [] h = refl
update_where_none p f (r ∷ rows) (e, h) =
    rw (e, if◌then◌else◌) (ap (λ t. r ∷ t) (update_where_none p f rows h))

update_where-done :
    (p : Message → Bool) (f : Message → Message) (rows : List Message)
    → ((r : Message) → p r ≡ true → p (f r) ≡ false)
    → All (λ r. p r ≡ false) (update_where p f rows)
unfolding update_where
update_where-done p f [] done = tt
update_where-done p f (r ∷ rows) done = elim (Bool-cases (p r)) [
  | inl e ↦ rw (e, if◌then◌else◌) (done r e, update_where-done p f rows done)
  | inr e ↦ rw (e, if◌then◌else◌) (e, update_where-done p f rows done)
]

-- An acknowledgement that comes again marks nothing, whenever it comes: the answer is that no row
-- was updated, and the table stays.
pub ack_again :
    (h : History) (id me : Bytes) (now again : ℕ)
    → mark_delivered_by_envelope_id (mark_delivered_by_envelope_id h id me now).0 id me again
      ≡ ((mark_delivered_by_envelope_id h id me now).0, false)
unfolding mark_delivered_by_envelope_id
ack_again h id me now again =
    let p = is_undelivered id me in
    let rows = update_where p (λ r. record r { delivered_at = some now }) h.rows in
    let done : All (λ r. p r ≡ false) rows =
      update_where-done p _ h.rows (λ r e. ground (arith, e)) in
    rw
      (
        update_where_none p (λ r. record r { delivered_at = some again }) rows done,
        select_none p rows done,
      )
      refl

-- A mark keeps a table valid.
module _ (me : Bytes) where
  Pairwise-Ascending :
      (n : ℕ) (xs ys : List Message) → Pairwise (Marked me) xs ys → Ascending n xs → Ascending n ys
  Pairwise-Ascending n [] [] m a = tt
  Pairwise-Ascending n [] (y ∷ ys) m a = absurd m
  Pairwise-Ascending n (x ∷ xs) [] m a = absurd m
  Pairwise-Ascending n (x ∷ xs) (y ∷ ys) (m, ms) (lt, a) = (
    omega (arith, m.same_id),
    Pairwise-Ascending y.id xs ys ms (subst (λ i. Ascending i xs) (sym m.same_id) a),
  )

  Pairwise-old :
      (n : ℕ) (xs ys : List Message)
      → Pairwise (Marked me) xs ys
      → All (λ r. r.id ≤ n) xs
      → All (λ r. r.id ≤ n) ys
  Pairwise-old n [] [] m h = tt
  Pairwise-old n [] (y ∷ ys) m h = absurd m
  Pairwise-old n (x ∷ xs) [] m h = absurd m
  Pairwise-old n (x ∷ xs) (y ∷ ys) (m, ms) (le, h) =
      (omega (arith, m.same_id), Pairwise-old n xs ys ms h)

  clash-eq : (x y a b : Message) → Marked me x y → Marked me a b → clash y b ≡ clash x a
  clash-eq x y a b m ma =
      λ i. key_clash (m.same_envelope i) (m.same_group i) (ma.same_envelope i) (ma.same_group i)

  Pairwise-clash :
      (x y : Message) (xs ys : List Message)
      → Marked me x y
      → Pairwise (Marked me) xs ys
      → All (λ r. clash x r ≡ false) xs
      → All (λ r. clash y r ≡ false) ys
  Pairwise-clash x y [] [] m ms h = tt
  Pairwise-clash x y [] (b ∷ ys) m ms h = absurd ms
  Pairwise-clash x y (a ∷ xs) [] m ms h = absurd ms
  Pairwise-clash x y (a ∷ xs) (b ∷ ys) m (ma, ms) (e, h) =
      (clash-eq x y a b m ma ∙ e, Pairwise-clash x y xs ys m ms h)

  Pairwise-KeysApart :
      (xs ys : List Message) → Pairwise (Marked me) xs ys → KeysApart xs → KeysApart ys
  Pairwise-KeysApart [] [] m u = tt
  Pairwise-KeysApart [] (y ∷ ys) m u = absurd m
  Pairwise-KeysApart (x ∷ xs) [] m u = absurd m
  Pairwise-KeysApart (x ∷ xs) (y ∷ ys) (m, ms) (a, u) =
      (Pairwise-clash x y xs ys m ms a, Pairwise-KeysApart xs ys ms u)

  pub Marked-IsValid :
      (h : History) (rows : List Message)
      → Pairwise (Marked me) h.rows rows
      → IsValid h
      → IsValid (record h { rows = rows })
  Marked-IsValid h rows m v = record {
    ascending = Pairwise-Ascending 0 h.rows rows m v.ascending;
    old = Pairwise-old h.last_id h.rows rows m v.old;
    apart = Pairwise-KeysApart h.rows rows m v.apart;
  }
