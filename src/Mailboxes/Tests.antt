-- ===== src/Mailboxes/Tests.antt =====
-- A mailbox that is registered twice, and removed.
use skattr.Base.{◌≡◌, refl, [], ◌∷◌, some, Bytes, length, same, select}
use skattr.Mailboxes.{mine, same_role, Mailboxes, insert_row, ensure, remove}

abbrev onion : Bytes
onion = 1 ∷ 2 ∷ []

abbrev none_yet : Mailboxes
none_yet = record { rows = []; last_id = 0 }

ensures_twice : (ensure (ensure none_yet onion mine 10).0 onion mine 20).1 ≡ some 1
unfolding ensure insert_row select same same_role
ensures_twice = refl

removes : length (remove (ensure none_yet onion mine 10).0 onion mine).rows ≡ 0
unfolding ensure insert_row remove select same same_role
removes = refl
