-- ===== src/Mailboxes.antt =====
-- crates/core/src/storage/mailboxes.rs: the table of the mailboxes that this node polls (`mine`) and
-- of those of its contacts (`theirs`). The unique index is on (onion, role). The statements succeed;
-- onions are their bytes, clocks are not negative.
pub mod Registering
mod Tests
use skattr.Base.{
  ℕ, suc, Bool, true, false, not, ◌&&◌, ◌||◌, List, [], ◌∷◌, ◌++◌, Option, none, some, Bytes,
  length, map, ltb, leb, ◌==◌, if◌then◌else◌, same, select, order_by,
}

pub data MailboxRole : Type 0 where
  mine theirs : MailboxRole

-- `as_sql` and `from_sql` spell the roles and the states; they are compared here.
unfoldable pub same_role : MailboxRole → MailboxRole → Bool
same_role mine mine = true
same_role theirs theirs = true
same_role _ _ = false

pub data MailboxStatus : Type 0 where
  unknown reachable unreachable rate_limited pending_removal removed : MailboxStatus

pub record MailboxRow : Type 0 where
  pub id : ℕ
  pub onion : Bytes
  pub registered_at : ℕ
  pub role : MailboxRole
  pub status : MailboxStatus
  pub last_poll_at : Option ℕ
  pub last_error_at : Option ℕ
  pub last_error_kind : Option Bytes

pub record Mailboxes : Type 0 where
  pub rows : List MailboxRow
  pub last_id : ℕ

abbrev pub has_key : Bytes → MailboxRole → MailboxRow → Bool
has_key onion role r = same r.onion onion && same_role r.role role

abbrev pub has_id : ℕ → MailboxRow → Bool
has_id id r = r.id == id

abbrev pub new_row : ℕ → Bytes → MailboxRole → ℕ → MailboxRow
new_row id onion role now = record {
  id = id;
  onion = onion;
  registered_at = now;
  role = role;
  status = unknown;
  last_poll_at = none;
  last_error_at = none;
  last_error_kind = none;
}

-- `INSERT … ON CONFLICT DO NOTHING`, and `INSERT OR IGNORE`.
unfoldable pub insert_row : Mailboxes → Bytes → MailboxRole → ℕ → Mailboxes
insert_row t onion role now =
    let id = suc t.last_id in
    if length (select (has_key onion role) t.rows) == 0
    then record { rows = t.rows ++ (new_row id onion role now ∷ []); last_id = id }
    else t

abbrev pub first_id : List MailboxRow → Option ℕ
first_id [] = none
first_id (r ∷ _) = some r.id

-- The insertion, then the id by a query; `none` is the error that no row was found.
unfoldable pub ensure : Mailboxes → Bytes → MailboxRole → ℕ → Mailboxes × Option ℕ
unfolding insert_row
ensure t onion role now =
    let t' = insert_row t onion role now in (t', first_id (select (has_key onion role) t'.rows))

unfoldable pub add_mine : Mailboxes → Bytes → ℕ → Mailboxes × Option ℕ
unfolding ensure
add_mine t onion now = ensure t onion mine now

unfoldable pub ensure_theirs : Mailboxes → Bytes → ℕ → Mailboxes × Option ℕ
unfolding ensure
ensure_theirs t onion now = ensure t onion theirs now

unfoldable pub remove : Mailboxes → Bytes → MailboxRole → Mailboxes
remove t onion role = record t { rows = select (λ r. not (has_key onion role r)) t.rows }

abbrev pub is_mine : MailboxRow → Bool
is_mine r = same_role r.role mine

-- `ORDER BY registered_at, id`
abbrev pub registered_first : MailboxRow → MailboxRow → Bool
registered_first a b =
    ltb a.registered_at b.registered_at || (a.registered_at == b.registered_at && leb a.id b.id)

unfoldable pub list_mine : Mailboxes → List MailboxRow
list_mine t = order_by registered_first (select is_mine t.rows)

abbrev pub first_row : List MailboxRow → Option MailboxRow
first_row [] = none
first_row (r ∷ _) = some r

unfoldable pub get : Mailboxes → ℕ → Option MailboxRow
get t id = first_row (select (has_id id) t.rows)

-- `UPDATE … WHERE id = …`
unfoldable pub update_id : ℕ → (MailboxRow → MailboxRow) → List MailboxRow → List MailboxRow
update_id id f [] = []
update_id id f (r ∷ rows) = (if has_id id r then f r else r) ∷ update_id id f rows

abbrev pub set_status : MailboxStatus → MailboxRow → MailboxRow
set_status status r = record r { status = status }

unfoldable pub mark_status : Mailboxes → ℕ → MailboxStatus → Mailboxes
mark_status t id status = record t { rows = update_id id (set_status status) t.rows }

unfoldable pub mark_pending_removal : Mailboxes → ℕ → Mailboxes
unfolding mark_status
mark_pending_removal t id = mark_status t id pending_removal

unfoldable pub finalize_removal : Mailboxes → ℕ → Mailboxes
unfolding mark_status
finalize_removal t id = mark_status t id removed

abbrev pub polled_at : ℕ → MailboxRow → MailboxRow
polled_at now r = record r { last_poll_at = some now }

unfoldable pub touch_poll : Mailboxes → ℕ → ℕ → Mailboxes
touch_poll t id now = record t { rows = update_id id (polled_at now) t.rows }

abbrev pub failed_at : Bytes → ℕ → MailboxRow → MailboxRow
failed_at kind now r = record r { last_error_kind = some kind; last_error_at = some now }

unfoldable pub record_error : Mailboxes → ℕ → Bytes → ℕ → Mailboxes
record_error t id kind now = record t { rows = update_id id (failed_at kind now) t.rows }
