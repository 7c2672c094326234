-- ===== src/History/Validity.antt =====
-- What holds of every table that the repository makes: ids rise, and the unique index holds.
use skattr.Base.{
  ◌≤◌, ◌≡◌, refl, inl, inr, Bool, false, ◌&&◌, List, [], ◌∷◌, ◌++◌, Option, none, some, Bytes,
  if◌then◌else◌, same, same_sym, select, All, All-append, All-select, arith, Bool-cases,
  Option-cases,
}
use skattr.History.{Message, History, has_key}
use skattr.History.Rows.{Ascending}

-- Two rows hold one key.
abbrev pub key_clash : Option Bytes → Bytes → Option Bytes → Bytes → Bool
key_clash e g e' g' = elim e [
  | none ↦ false
  | some id ↦ same g' g && (elim e' [ none ↦ false | some id' ↦ same id' id ])
]

abbrev pub clash : Message → Message → Bool
clash r x = key_clash r.envelope_id r.group_id x.envelope_id x.group_id

abbrev pub KeysApart : List Message → Type 0
KeysApart [] = Unit {0}
KeysApart (r ∷ rows) = All (λ x. clash r x ≡ false) rows × KeysApart rows

pub record IsValid (h : History) : Type 0 where
  pub ascending : Ascending 0 h.rows
  pub old : All (λ r. r.id ≤ h.last_id) h.rows
  pub apart : KeysApart h.rows

pub KeysApart-select :
    (p : Message → Bool) (rows : List Message) → KeysApart rows → KeysApart (select p rows)
unfolding select
KeysApart-select p [] u = tt
KeysApart-select p (r ∷ rows) (a, u) = elim (Bool-cases (p r)) [
  | inl e ↦ rw (e, if◌then◌else◌) (All-select _ p rows a, KeysApart-select p rows u)
  | inr e ↦ rw (e, if◌then◌else◌) (KeysApart-select p rows u)
]

pub KeysApart-append :
    (r : Message) (rows : List Message)
    → All (λ x. clash x r ≡ false) rows
    → KeysApart rows
    → KeysApart (rows ++ (r ∷ []))
KeysApart-append r [] a u = (tt, tt)
KeysApart-append r (x ∷ rows) (h, a) (f, u) =
    (All-append _ rows (r ∷ []) f (h, tt), KeysApart-append r rows a u)

-- A row that does not hold the key does not clash with one that holds it.
pub clash-of_key :
    (g id : Bytes) (x r : Message)
    → r.group_id ≡ g
    → r.envelope_id ≡ some id
    → has_key g id x ≡ false
    → clash x r ≡ false
clash-of_key g id x r eg ei f = elim (Option-cases x.envelope_id) [
  | inl e ↦ rw e refl
  | inr (xid, e) ↦ rw (e, eg, ei) (ground (arith, same_sym g x.group_id, same_sym id xid, e, f))
]
