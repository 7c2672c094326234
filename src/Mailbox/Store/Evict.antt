-- ===== src/Mailbox/Store/Evict.antt =====
-- What the evictions of `insert` delete, and how much they free.
use skattr.Base.{
  ℕ, ◌+◌, ◌-◌, ◌≤◌, ◌≡◌, refl, sym, ap, ◌∙◌, ◌⊎◌, inl, inr, Bool, true, false, not, ◌&&◌, [], ◌∷◌,
  length, arith, Bool-cases, if◌then◌else◌, leb, min, ◌^◌, same, same_refl, same_sym, select,
  All-intro, Has, Has-select, Has-select_inv, select-select, select-ext,
}
use skattr.Mailbox.Store.{Row, Table, sum_bytes, not_id, by_age, evict}
use skattr.Mailbox.Store.Rows.{
  Fresh, Unique, Unique-select, Unique-by_age, Unique-Has, Fresh-Has, sum_bytes-not_id,
  sum_bytes_mono, select-all, Has-by_age, Has-by_age_inv, All-by_age,
}

-- The rows that the loop leaves: a test that does not depend on the table.
kept : Table → ℕ → ℕ → Row → Bool
kept [] freed target r = true
kept (c ∷ cs) freed target r =
    let freed' = min (freed + length c.ciphertext) (2 ^ 64 - 1) in
    let more = kept cs freed' target r in
    not_id c.deposit_id r && (if leb target freed' then true else more)

evict-select :
    (cs : Table) (freed target : ℕ) (t : Table)
    → evict cs freed target t ≡ select (kept cs freed target) t
unfolding evict kept
evict-select [] freed target t = sym (select-all _ t (λ r h. refl))
evict-select (c ∷ cs) freed target t =
    elim (Bool-cases (leb target (min (freed + length c.ciphertext) (2 ^ 64 - 1)))) [
      | inl e ↦
          rw (e, if◌then◌else◌)
            (select-ext (not_id c.deposit_id) (kept (c ∷ cs) freed target) t (λ r. ground arith))
      | inr e ↦
          rw (e, if◌then◌else◌)
            (evict-select cs (min (freed + length c.ciphertext) (2 ^ 64 - 1)) target
                (select (not_id c.deposit_id) t)
              ∙ select-select (kept cs _ target) (not_id c.deposit_id) t
              ∙ select-ext _ (kept (c ∷ cs) freed target) t (λ r. ground arith))
    ]

-- A row whose id no candidate has is kept.
kept-other :
    (cs : Table) (freed target : ℕ) (r : Row)
    → Fresh r.deposit_id cs
    → kept cs freed target r ≡ true
unfolding kept
kept-other [] freed target r f = refl
kept-other (c ∷ cs) freed target r (fc, f) = ground (
  arith,
  same_sym c.deposit_id r.deposit_id,
  kept-other cs (min (freed + length c.ciphertext) (2 ^ 64 - 1)) target r f,
)

abbrev freed_by : ℕ → Row → ℕ
freed_by freed c = min (freed + length c.ciphertext) (2 ^ 64 - 1)

kept-gone :
    (c : Row) (cs : Table) (freed target : ℕ)
    → leb target (freed_by freed c) ≡ false
    → ((r : Row) → Has r cs → kept cs (freed_by freed c) target r ≡ false)
    → (r : Row) → Has r (c ∷ cs)
    → kept (c ∷ cs) freed target r ≡ false
unfolding kept
kept-gone c cs freed target e gone r (inl a) =
    ground (arith, same_refl c.deposit_id, ap (λ (x : Row). same x.deposit_id c.deposit_id) a)
kept-gone c cs freed target e gone r (inr h) = ground (arith, gone r h)

-- Candidates with other ids are still there once one is deleted.
still_there :
    (c : Row) (cs t : Table)
    → Fresh c.deposit_id cs
    → ((r : Row) → Has r (c ∷ cs) → Has r t)
    → (r : Row) → Has r cs
    → Has r (select (not_id c.deposit_id) t)
still_there c cs t f inside r h =
    Has-select (not_id c.deposit_id) r t (rw (Fresh-Has c.deposit_id r cs f h)) (inside r (inr h))

-- The candidates are rows of the table, and each is counted by `q`: either the loop frees what is
-- asked for, or it deletes every candidate.
evict_frees :
    (q : Row → Bool) (cs : Table) (freed target : ℕ) (t : Table)
    → Unique cs
    → ((r : Row) → Has r cs → Has r t)
    → ((r : Row) → Has r cs → q r ≡ true)
    → (target + sum_bytes (select q (evict cs freed target t)) ≤ freed + sum_bytes (select q t))
      ⊎ ((r : Row) → Has r cs → kept cs freed target r ≡ false)
unfolding evict
evict_frees q [] freed target t u inside counted = inr (λ r h. absurd h)
evict_frees q (c ∷ cs) freed target t (f, u) inside counted =
    let dropped = sum_bytes-not_id q c t (inside c (inl refl)) (counted c (inl refl)) in
    let rest =
      evict_frees q cs (freed_by freed c) target (select (not_id c.deposit_id) t) u
        (still_there c cs t f inside) (λ r h. counted r (inr h)) in
    elim (Bool-cases (leb target (freed_by freed c))) [
      | inl e ↦ rw (e, if◌then◌else◌) (inl (ground (arith, dropped)))
      | inr e ↦ elim rest [
        | inl enough ↦ rw (e, if◌then◌else◌) (inl (ground (arith, dropped, enough)))
        | inr gone ↦ inr (kept-gone c cs freed target e gone)
      ]
    ]

-- An eviction among the rows that `w` selects: what both evictions do.
unfoldable pub evict_where : (Row → Bool) → ℕ → Table → Table
evict_where w target t = evict (by_age (select w t)) 0 target t

pub evict_where-select :
    (w : Row → Bool) (target : ℕ) (t : Table)
    → (p : Row → Bool) × (evict_where w target t ≡ select p t)
unfolding evict_where
evict_where-select w target t =
    (kept (by_age (select w t)) 0 target, evict-select (by_age (select w t)) 0 target t)

-- No row that `w` rejects is lost.
pub evict_where-keeps :
    (w : Row → Bool) (target : ℕ) (t : Table) (r : Row)
    → Unique t
    → Has r t
    → w r ≡ false
    → Has r (evict_where w target t)
unfolding evict_where
evict_where-keeps w target t r u h e =
    rw (evict-select (by_age (select w t)) 0 target t)
      (Has-select _ r t (kept-other (by_age (select w t)) 0 target r (All-by_age _ _ other)) h)
  where
    other : Fresh r.deposit_id (select w t)
    other = All-intro _ (select w t) λ c m.
        let (wc, hc) = Has-select_inv w c t m in
        elim (Bool-cases (same c.deposit_id r.deposit_id)) [
          | inl s ↦ absurd (cc (ap w (Unique-Has c r t u hc h s)))
          | inr d ↦ d
        ]

pub evict_where_frees :
    (q w : Row → Bool) (target : ℕ) (t : Table)
    → Unique t
    → ((r : Row) → w r ≡ true → q r ≡ true)
    → (target + sum_bytes (select q (evict_where w target t)) ≤ sum_bytes (select q t))
      ⊎ (sum_bytes (select q (evict_where w target t))
          ≤ sum_bytes (select (λ r. q r && not (w r)) t))
unfolding evict_where
evict_where_frees q w target t u counted = elim (evict_frees q cs 0 target t unique inside counts) [
  | inl enough ↦ inl (omega (arith, enough))
  | inr gone ↦ inr (
      rw (evict-select cs 0 target t, select-select q (kept cs 0 target) t)
        (sum_bytes_mono _ _ t (λ r h k. left gone r h k)))
]
  where
    cs : Table
    cs = by_age (select w t)

    unique : Unique cs
    unique = Unique-by_age (select w t) (Unique-select w t u)

    inside : (r : Row) → Has r cs → Has r t
    inside r h = (Has-select_inv w r t (Has-by_age_inv r (select w t) h)).1

    counts : (r : Row) → Has r cs → q r ≡ true
    counts r h = counted r (Has-select_inv w r t (Has-by_age_inv r (select w t) h)).0

    left :
        ((r : Row) → Has r cs → kept cs 0 target r ≡ false)
        → (r : Row) → Has r t
        → kept cs 0 target r && q r ≡ true
        → q r && not (w r) ≡ true
    left gone r h k = elim (Bool-cases (w r)) [
      | inl e ↦ ground (arith, gone r (Has-by_age r (select w t) (Has-select w r t e h)))
      | inr e ↦ ground arith
    ]
