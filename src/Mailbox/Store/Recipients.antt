-- ===== src/Mailbox/Store/Recipients.antt =====
-- The number of distinct recipients, when rows go and when one is appended.
use mathlib.Core.Path.{fun_ext}
use mathlib.Core.List.{append-nil}
use skattr.Base.{
  ℕ, suc, ◌≤◌, ◌<◌, ◌≡◌, ◌≢◌, ◌⊎◌, inl, inr, ap, Bool, true, false, ◌||◌, [], ◌∷◌, ◌++◌, Bytes,
  length, arith, Bool-cases, same, same_iff, same_sym, select,
}
use skattr.Mailbox.Store.{Row, Table, is_for, distinct_from, distinct_recipients}

abbrev with_seen : Bytes → (Bytes → Bool) → Bytes → Bool
with_seen k seen h = same h k || seen h

with_seen_comm :
    (j k : Bytes) (seen : Bytes → Bool)
    → with_seen j (with_seen k seen) ≡ with_seen k (with_seen j seen)
with_seen_comm j k seen = fun_ext (λ h. ground arith)

with_seen_twice :
    (k : Bytes) (seen : Bytes → Bool) → with_seen k (with_seen k seen) ≡ with_seen k seen
with_seen_twice k seen = fun_ext (λ h. ground arith)

-- One hash more that was seen hides one recipient at most.
distinct_from-with_seen :
    (k : Bytes) (seen : Bytes → Bool) (t : Table)
    → distinct_from seen t ≤ suc (distinct_from (with_seen k seen) t)
unfolding distinct_from
distinct_from-with_seen k seen [] = omega arith
distinct_from-with_seen k seen (r ∷ t) = ground (
  arith,
  distinct_from-with_seen k seen t,
  distinct_from-with_seen k (with_seen r.recipient_hash seen) t,
  ap (λ (s : Bytes → Bool). distinct_from s t) (with_seen_comm k r.recipient_hash seen),
  same_iff r.recipient_hash k,
  ap (λ (s : Bytes → Bool). distinct_from s t) (with_seen_twice r.recipient_hash seen),
)

distinct_from-select_append :
    (p : Row → Bool) (seen : Bytes → Bool) (t u : Table)
    → distinct_from seen (select p t ++ u) ≤ distinct_from seen (t ++ u)
unfolding distinct_from select
distinct_from-select_append p seen [] u = omega arith
distinct_from-select_append p seen (r ∷ t) u = ground (
  arith,
  distinct_from-select_append p seen t u,
  distinct_from-select_append p (with_seen r.recipient_hash seen) t u,
  distinct_from-with_seen r.recipient_hash seen (t ++ u),
)

distinct_from-append :
    (seen : Bytes → Bool) (t : Table) (r : Row)
    → distinct_from seen (t ++ (r ∷ [])) ≤ suc (distinct_from seen t)
unfolding distinct_from
distinct_from-append seen [] r = ground arith
distinct_from-append seen (x ∷ t) r = ground (
  arith,
  distinct_from-append seen t r,
  distinct_from-append (with_seen x.recipient_hash seen) t r,
)

-- A row for a recipient that has one, or was seen, adds none.
distinct_from-append_known :
    (seen : Bytes → Bool) (t : Table) (r : Row)
    → (seen r.recipient_hash ≡ true) ⊎ (length (select (is_for r.recipient_hash) t) ≢ 0)
    → distinct_from seen (t ++ (r ∷ [])) ≡ distinct_from seen t
unfolding distinct_from select
distinct_from-append_known seen [] r k = ground arith
distinct_from-append_known seen (x ∷ t) r k =
    elim (Bool-cases (same x.recipient_hash r.recipient_hash)) [
      | inl s ↦ ground (
        arith,
        same_iff x.recipient_hash r.recipient_hash,
        same_sym x.recipient_hash r.recipient_hash,
        ap seen ((same_iff x.recipient_hash r.recipient_hash).0 s),
        distinct_from-append_known seen t r,
        distinct_from-append_known (with_seen x.recipient_hash seen) t r,
      )
      | inr d ↦ ground (
        arith,
        distinct_from-append_known seen t r,
        distinct_from-append_known (with_seen x.recipient_hash seen) t r,
      )
    ]

pub distinct_recipients-select-le :
    (p : Row → Bool) (t : Table) → distinct_recipients (select p t) ≤ distinct_recipients t
unfolding distinct_recipients
distinct_recipients-select-le p t =
    simp append-nil at (distinct_from-select_append p (λ h. false) t [])

-- After the count is checked, and whatever is evicted then, the new row keeps the count within
-- `max_recipients`.
pub distinct_recipients-append_row :
    (p : Row → Bool) (t : Table) (r : Row) (max_recipients : ℕ)
    → distinct_recipients t ≤ max_recipients
    → (length (select (is_for r.recipient_hash) t) ≢ 0) ⊎ (distinct_recipients t < max_recipients)
    → distinct_recipients (select p t ++ (r ∷ [])) ≤ max_recipients
unfolding distinct_recipients
distinct_recipients-append_row p t r max_recipients le (inl known) = omega (
  arith,
  le,
  distinct_from-select_append p (λ h. false) t (r ∷ []),
  distinct_from-append_known (λ h. false) t r (inr known),
)
distinct_recipients-append_row p t r max_recipients le (inr room) = omega (
  arith,
  room,
  distinct_from-select_append p (λ h. false) t (r ∷ []),
  distinct_from-append (λ h. false) t r,
)
