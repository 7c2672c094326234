-- ===== src/Mailbox/Server/Tests.antt =====
-- The handlers and the server on concrete requests, with the toy libraries.
use skattr.Base.{Bytes, false, ◌≡◌, refl, [], ◌∷◌, ◌++◌, some, arith, map, same, select}
use skattr.Mailbox.Protocol.{Deposit, Fetch, Delete}
use skattr.Mailbox.Failure.{ok}
use skattr.Mailbox.Store.{Row, Table}
use skattr.Mailbox.Store
use skattr.Mailbox.Auth.{get, verify, signing_input, op_byte_fetch, op_byte_delete}
use skattr.Mailbox.Policy.{recommended, resolve_ttl, new, from_policy, try_acquire, refilled}
use skattr.Mailbox.Codec.{MailboxFrame, deposit, fetch_response, delete_ok, deposit_ok}
use skattr.Mailbox.Dispatch.{
  State, check_version, take_deposit, take_global, store_row, take_fetch, check_signature,
  to_pending, handle_deposit, handle_fetch, handle_delete,
}
use skattr.Mailbox.Dispatch.Authorised.{Signed, fetch_authorised, delete_authorised}
use skattr.Mailbox.Dispatch.Errors.{AnswersOrKeeps, error_keeps_deposits}
use skattr.Mailbox.Server.{
  frame, Server, start, seen_by, turn, Draw, Reach, started, then_step, kept_conn, accepts, serves,
}
use skattr.Mailbox.Server.Reachable.{Safe, reachable-Safe}
use skattr.Mailbox.Dispatch.Invariant.{Inv}
use skattr.Mailbox.Server.Answers.{Outcome, turn_answers}
use skattr.Mailbox.Tests.{toy, nonce, key, issued, payload, signature_of}

abbrev stored : Row
stored = record {
  deposit_id = 1 ∷ [];
  recipient_hash = key;
  ciphertext = 8 ∷ 8 ∷ [];
  deposited_at = 12;
  expires_at = 100;
}

abbrev serving : State
serving = record {
  deposits = stored ∷ [];
  challenges = issued;
  conn_rl = record { deposits = new 30 0; fetches = new 6 0 };
  global_rl = new 1_000 0;
}

abbrev want : Fetch
want = record {
  version = 1;
  identity_pubkey = key;
  nonce = nonce;
  signature = signature_of op_byte_fetch;
}

abbrev drop_one : Delete
drop_one = record {
  version = 1;
  identity_pubkey = key;
  nonce = nonce;
  signature = signature_of op_byte_delete;
  deposit_ids = (1 ∷ []) ∷ [];
}

abbrev put : Deposit
put = record { version = 1; recipient_hash = key; ciphertext = 4 ∷ []; ttl_request = 3_600 }

abbrev after_fetch : State
after_fetch = (handle_fetch toy want 20 0 serving).0

fetch_answered : handle_fetch toy want 20 0 serving ≡ (
  after_fetch,
  ok (fetch_response (record { deposits = map to_pending (Store.fetch (stored ∷ []) key 20) })),
)
unfolding handle_fetch check_version take_fetch check_signature verify get signing_input same
    try_acquire refilled new
fetch_answered = refl

fetch_authorised_example :
    Signed toy
      (some payload)
      nonce
      key
      (signature_of op_byte_fetch)
      op_byte_fetch
      20
      serving
      after_fetch
    × (after_fetch.deposits ≡ stored ∷ [])
    × ((fetch_response (record { deposits = map to_pending (Store.fetch (stored ∷ []) key 20) }))
        ≡ fetch_response (record { deposits = map to_pending (Store.fetch (stored ∷ []) key 20) }))
fetch_authorised_example =
    fetch_authorised toy want 20 0 serving after_fetch
      (fetch_response (record { deposits = map to_pending (Store.fetch (stored ∷ []) key 20) }))
      fetch_answered

abbrev after_delete : State
after_delete = (handle_delete toy recommended drop_one 20 serving).0

abbrev dropped : MailboxFrame
dropped = delete_ok (record { deleted = 1; not_found = 0 })

delete_answered : handle_delete toy recommended drop_one 20 serving ≡ (after_delete, ok dropped)
unfolding handle_delete check_version check_signature verify get signing_input same Store.delete
    Store.delete_loop select
delete_answered = refl

delete_authorised_example :
    Signed toy
      (some payload)
      nonce
      key
      (signature_of op_byte_delete)
      op_byte_delete
      20
      serving
      after_delete
    × (after_delete.deposits ≡ (Store.delete (stored ∷ []) key ((1 ∷ []) ∷ [])).0)
delete_authorised_example =
    delete_authorised toy recommended drop_one 20 serving after_delete dropped delete_answered

error_keeps_deposits_example :
    AnswersOrKeeps toy (handle_deposit recommended put (2 ∷ []) 20 0) serving
    × AnswersOrKeeps toy (handle_fetch toy want 20 0) serving
    × AnswersOrKeeps toy (handle_delete toy recommended drop_one 20) serving
error_keeps_deposits_example =
    error_keeps_deposits toy recommended put (2 ∷ []) want drop_one 20 0 serving

-- One connection, on which a deposit is served.
abbrev opened : Server
opened = record (start recommended [] 0) { conns = from_policy recommended 5 ∷ [] }

abbrev draw : Draw
draw = record { random = 2 ∷ []; now = 20; now_us = 6; hangs_up = false }

abbrev after_put : State
after_put =
    (turn recommended toy (frame (deposit put)) draw (seen_by opened (from_policy recommended 5))).0

abbrev running : Server
running = record {
  deposits = after_put.deposits;
  challenges = after_put.challenges;
  global_rl = after_put.global_rl;
  conns =
      kept_conn
        (turn recommended toy (frame (deposit put)) draw
          (seen_by opened (from_policy recommended 5))).1
        after_put.conn_rl
      ++ [];
}

running-Reach : Reach recommended toy [] running
running-Reach =
    then_step (then_step (started 0) (accepts 5 (omega arith)))
      (serves [] [] (from_policy recommended 5) (frame (deposit put)) draw refl)

reachable-Safe_example : Safe recommended toy running
unfolding Store.sum_bytes Store.distinct_recipients Store.distinct_from
reachable-Safe_example =
    reachable-Safe recommended toy [] running (omega arith) (tt, omega arith, omega arith)
      running-Reach

running-Inv : Inv recommended serving
unfolding Store.sum_bytes Store.distinct_recipients Store.distinct_from get new
running-Inv = record {
  stored = ((tt, tt), omega arith, omega arith);
  nonces = (refl, tt);
  conn = (omega arith, omega arith);
  global = omega arith;
}

abbrev after_deposit : State
after_deposit = (handle_deposit recommended put (2 ∷ []) 20 6 serving).0

deposit_answered :
    handle_deposit recommended put (2 ∷ []) 20 6 serving
    ≡ (after_deposit, ok (deposit_ok (record { deposit_id = 2 ∷ []; expires_at = 3_620 })))
unfolding handle_deposit check_version take_deposit take_global store_row resolve_ttl try_acquire
    refilled new Store.insert Store.fit_recipient Store.fit_count Store.fit_global Store.append_row
    Store.add_u64 Store.sum_bytes Store.distinct_recipients Store.distinct_from select same
deposit_answered = refl

abbrev new_id : Bytes
new_id = 2 ∷ []

turn_answers_example :
    Outcome recommended toy
      (frame (deposit put))
      false
      (turn recommended toy
        (frame (deposit put))
        draw
        (seen_by opened (from_policy recommended 5))).1
turn_answers_example =
    turn_answers recommended toy (frame (deposit put)) draw
      (seen_by opened (from_policy recommended 5))
