-- ===== src/Mailbox/Store.antt =====
-- crates/mailbox/src/store.rs: the table `deposits` and the transactions on it. The table is the
-- list of its rows in rowid order, which is the order of insertion; `ORDER BY deposited_at` keeps
-- that order among equal times, as SQLite does. Statements succeed but for a second row with one
-- `deposit_id`, the primary key. The random id of a new row is an argument.
pub mod Rows
pub mod Evict
pub mod Caps
pub mod Recipients
pub mod Insert
pub mod Refusal
pub mod Reads
pub mod Removal
mod Tests
use skattr.Base.{
  ℕ, suc, false, ◌+◌, ◌-◌, ◌%◌, ◌^◌, Bool, not, ◌&&◌, ◌||◌, List, [], ◌∷◌, ◌++◌, map, Bytes, length,
  ltb, leb, ◌==◌, if◌then◌else◌, same, select, min,
}
use skattr.Mailbox.Failure.{
  Result, ok, err, ◌>>=◌, ◌>>◌, storage, policy, sqlite, recipient_full, server_full,
  recipient_limit,
}

pub record Row : Type 0 where
  pub deposit_id : Bytes
  pub recipient_hash : Bytes
  pub ciphertext : Bytes
  pub deposited_at : ℕ
  pub expires_at : ℕ

abbrev pub Table : Type 0
Table = List Row

pub record StoredDeposit : Type 0 where
  pub deposit_id : Bytes
  pub ciphertext : Bytes
  pub received_at : ℕ

-- u64 addition, which wraps in a release build.
unfoldable pub add_u64 : ℕ → ℕ → ℕ
add_u64 a b = (a + b) % 2 ^ 64

-- `SUM(LENGTH(ciphertext))`
unfoldable pub sum_bytes : Table → ℕ
sum_bytes [] = 0
sum_bytes (r ∷ t) = length r.ciphertext + sum_bytes t

abbrev pub is_for : Bytes → Row → Bool
is_for h r = same r.recipient_hash h

abbrev pub is_id : Bytes → Row → Bool
is_id id r = same r.deposit_id id

abbrev pub not_id : Bytes → Row → Bool
not_id id r = not (same r.deposit_id id)

-- `expires_at < ?`: what the sweep and the evictions may delete.
abbrev pub is_expired : ℕ → Row → Bool
is_expired now r = ltb r.expires_at now

-- `COUNT(DISTINCT recipient_hash)`: the hashes that `seen` does not have yet.
unfoldable pub distinct_from : (Bytes → Bool) → Table → ℕ
distinct_from seen [] = 0
distinct_from seen (r ∷ t) =
    let rest = distinct_from seen t in
    let more = suc (distinct_from (λ h. same h r.recipient_hash || seen h) t) in
    if seen r.recipient_hash then rest else more

unfoldable pub distinct_recipients : Table → ℕ
distinct_recipients t = distinct_from (λ h. false) t

-- `ORDER BY deposited_at ASC`
unfoldable pub insert_by_age : Row → Table → Table
insert_by_age r [] = r ∷ []
insert_by_age r (x ∷ t) =
    if leb r.deposited_at x.deposited_at then r ∷ x ∷ t else x ∷ insert_by_age r t

unfoldable pub by_age : Table → Table
by_age [] = []
by_age (r ∷ t) = insert_by_age r (by_age t)

-- The loop of both evictions: delete candidates until `target` bytes are freed.
unfoldable pub evict : Table → ℕ → ℕ → Table → Table
evict [] freed target t = t
evict (c ∷ cs) freed target t =
    let t' = select (not_id c.deposit_id) t in
    let freed' = min (freed + length c.ciphertext) (2 ^ 64 - 1) in
    let more = evict cs freed' target t' in if leb target freed' then t' else more

unfoldable pub evict_expired_for : Table → Bytes → ℕ → ℕ → Table
evict_expired_for t h target now =
    evict (by_age (select (λ r. is_for h r && is_expired now r) t)) 0 target t

unfoldable pub evict_expired_global : Table → ℕ → ℕ → Table
evict_expired_global t target now = evict (by_age (select (is_expired now) t)) 0 target t

-- The first cap of `insert`: the bytes stored for the recipient.
unfoldable pub fit_recipient : Table → Bytes → ℕ → ℕ → ℕ → Result Table
fit_recipient t h new_len cap now =
    let wanted = add_u64 (sum_bytes (select (is_for h) t)) new_len in
    let t' = evict_expired_for t h (wanted - cap) now in
    if ltb cap wanted
    then (if ltb cap (add_u64 (sum_bytes (select (is_for h) t')) new_len)
        then err (policy recipient_full)
        else ok t')
    else ok t

-- The second: the number of recipients, for one that has no rows.
unfoldable pub fit_count : Table → Bytes → ℕ → Result (Unit {0})
fit_count t h max_recipients =
    if length (select (is_for h) t) == 0 && leb max_recipients (distinct_recipients t)
    then err (policy recipient_limit)
    else ok tt

-- The third: the bytes stored altogether.
unfoldable pub fit_global : Table → ℕ → ℕ → ℕ → Result Table
fit_global t new_len cap now =
    let wanted = add_u64 (sum_bytes t) new_len in
    let t' = evict_expired_global t (wanted - cap) now in
    if ltb cap wanted
    then (if ltb cap (add_u64 (sum_bytes t') new_len) then err (policy server_full) else ok t')
    else ok t

-- The `INSERT` and the commit.
unfoldable pub append_row : Row → Table → Result Table
append_row r t =
    if 0 == length (select (is_id r.deposit_id) t) then ok (t ++ (r ∷ [])) else err (storage sqlite)

-- `Store::insert`. An error rolls the transaction back: the table stays as it was.
unfoldable pub insert :
    Table
    → Row
    → (recipient_cap_bytes global_storage_cap_bytes max_recipients now : ℕ) → Result Table
insert t r recipient_cap global_cap max_recipients now = do
  t₁ ← fit_recipient t r.recipient_hash (length r.ciphertext) recipient_cap now
  fit_count t₁ r.recipient_hash max_recipients
  t₂ ← fit_global t₁ (length r.ciphertext) global_cap now
  append_row r t₂

abbrev pub to_stored : Row → StoredDeposit
to_stored r = record {
  deposit_id = r.deposit_id;
  ciphertext = r.ciphertext;
  received_at = r.deposited_at;
}

-- `recipient_hash = ? AND expires_at > ?`
abbrev pub is_pending : Bytes → ℕ → Row → Bool
is_pending h now r = is_for h r && ltb now r.expires_at

unfoldable pub fetch : Table → Bytes → ℕ → List StoredDeposit
fetch t h now = map to_stored (by_age (select (is_pending h now) t))

-- `DELETE … WHERE deposit_id = ? AND recipient_hash = ?`: the rows that it leaves.
abbrev pub survives : Bytes → Bytes → Row → Bool
survives h id r = not (same r.deposit_id id && is_for h r)

-- The loop over the ids; `deleted` counts the rows that went.
unfoldable pub delete_loop : Bytes → List Bytes → Table → ℕ → Table × ℕ
delete_loop h [] t deleted = (t, deleted)
delete_loop h (id ∷ ids) t deleted =
    let t' = select (survives h id) t in delete_loop h ids t' (deleted + (length t - length t'))

-- The table after the call, and `(deleted, not_found)`.
unfoldable pub delete : Table → Bytes → List Bytes → Table × ℕ × ℕ
delete t h deposit_ids =
    let (t', deleted) = delete_loop h deposit_ids t 0 in
    (t', deleted, min (length deposit_ids) (2 ^ 32 - 1) - deleted)

-- The table after the call, and the number of rows removed.
unfoldable pub expire_sweep : Table → ℕ → Table × ℕ
expire_sweep t now = let t' = select (λ r. not (is_expired now r)) t in (t', length t - length t')
