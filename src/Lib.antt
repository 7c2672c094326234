-- ===== src/Lib.antt =====
-- Skattr: the mailbox server, its client and the poller, the inbound pipeline with the contacts and
-- the message history, the frames between peers, the outbox, attachments, the backoff, and ids as
-- text.
--
-- Skattr is an end-to-end encrypted messenger. Peers speak frames over Noise and Tor; a message for
-- a peer that is not online goes to a mailbox server, which keeps ciphertexts per hash of the
-- recipient's key until the recipient fetches and deletes them with signed requests. The sender keeps
-- each message in its outbox until it is acknowledged, and retries with backoff. A node polls its
-- own mailboxes, hands each ciphertext to its inbound pipeline, and stores each message once; the
-- daemon pages through the stored messages for its interfaces.
--
-- Base holds what the other modules share: the library names, tests and lists over the native
-- numbers, selection and sorting of rows. The other files and the code they model:
--   Wire          the framing that the two codecs share: length, type byte, payload
--   Frame         crates/core/src/transport/frame.rs: `decode` (`parse` is its match on the type
--                 byte), `encode` (`body` makes type and payload, `append_body` appends)
--   Mailbox       the server, crates/mailbox/src, on the types of crates/core/src/mailbox
--     Protocol    mailbox/protocol.rs of core: the bodies
--     Failure     error.rs: the errors and `to_wire_code`
--     Store       store.rs: `insert` in its three checks and the INSERT, `fetch`, `delete`,
--                 `expire_sweep`
--     Auth        auth.rs and mailbox/auth.rs of core: `issue`, `verify`, `sweep`, `signing_input`
--     Policy      policy.rs: `resolve_ttl`, token buckets and the limiters
--     Codec       codec.rs: `encode_frame`, `decode_frame`
--     Dispatch    dispatch.rs: the handlers, on a state of store, challenges and limiters
--     Server      server.rs and background.rs: one turn of the loop of a connection, and the steps
--                 of a server with many connections and the two sweeps
--   Client        crates/core/src/mailbox/client.rs: the requests (`deposit_blob`, `request_nonce`,
--                 `fetch_all`, `delete_ids`) on any connection; Client/Served connects it to the server
--   Mailboxes     crates/core/src/storage/mailboxes.rs: the table of mailboxes
--   Poller        crates/core/src/mailbox/poll.rs: `poll_dispatch_once`, `next_interval`, and the loop
--                 of an actor as `tick` and `bump_active` on what the actor keeps
--   Envelope      crates/core/src/envelope and the structs of crates/core/src/contact/card.rs
--   History       crates/core/src/storage/messages.rs and read_state.rs
--     Updates     the statements that change or delete rows
--     Export      `export_history` of crates/core/src/daemon/dispatch.rs and the loop of the export
--                 command in crates/cli/src/main.rs
--     Recent      `recent_messages` of crates/core/src/daemon/dispatch.rs
--   Contacts      crates/core/src/storage/contacts.rs
--     Cards       its cards, and `verify` of crates/core/src/contact/card.rs
--   Inbound       crates/core/src/daemon/inbound.rs: the node, its groups and attachments
--     Sessions    `load`, `decrypt` and `save_in_tx` of crates/core/src/mls/group.rs
--     Pipeline    `dispatch_for_group`
--     Entry       `dispatch` and `dispatch_mailbox`
--     Polled      the pipeline as what the poller hands the deposits to
--   Receiver      crates/core/src/delivery/receiver.rs and crates/core/src/storage/seen_messages.rs
--   Outbox        crates/core/src/storage/outbox.rs: every statement and query
--   Attachment    crates/core/src/attachment: chunker.rs, reassembler.rs, manifest.rs, and
--                 `chunk_key_material` of crates/core/src/identity/derive.rs
--   Transfers     crates/core/src/storage/attachments.rs: the table of attachments and that of chunks
--     Deposits    the table of the chunks that wait for a mailbox
--     Sweep       crates/core/src/delivery/chunk_sweep.rs: `run_chunk_sweep`
--   Backoff       crates/core/src/delivery/backoff.rs
--   Hex           crates/core/src/daemon/hex.rs: `display` and `parse_fixed`
-- Modules named Tests run the definitions on concrete values.
--
-- How state and effects are modelled. A table of SQLite is the list of its rows in the order of
-- their ids; `ORDER BY` sorts it stably; a statement fails only where a primary key or a unique index
-- is violated, and an error rolls the transaction back. A mutex is never poisoned, and a handler runs
-- as one step on what it locks, one at a time: the interleaving of two handlers between their locks
-- is not modelled. Of a connection there is what the codec made of its bytes, one item
-- at a time, and whether a request and its answer can be encoded and the answer gets through. A
-- server starts on any store.
-- Random bytes, the clock and the random factor of the backoff are arguments. Times
-- are unix seconds (microseconds for the rate limiters) and not negative. An array of bytes is a list
-- of bytes; its length is a hypothesis where it matters. A text is a list of code points where the
-- code looks into it.
--
-- Numbers. The sum of stored bytes and a new length wraps at 2^64 as in a release build; the theorems
-- on the caps have the hypothesis that it stays below 2^63, which `IsSane` of a policy gives for every
-- reachable state. A token bucket holds sixty-millionths of a token, so that a microsecond adds the
-- tokens per minute; the code has an f64, whose rounding is not modelled, nor is that of the jitter of
-- the backoff. The count of the reassembler saturates at the largest u64.
--
-- Libraries are parameters: ciborium at each type (`Serde`: what was written is read back), SHA-256
-- and Ed25519 (`Crypto`, of which nothing is assumed), HKDF and XChaCha20-Poly1305 (`Libraries` of
-- Attachment: what was encrypted is decrypted). The client takes its connection as a function on a
-- state, and the poller the inbound pipeline likewise, which Inbound/Polled fills. OpenMLS (`Mls`)
-- restores, processes and snapshots a group, of which nothing is assumed.
--
-- Fuel. `chunks_of` has the number of bytes as fuel, and each round takes one byte at least; the round
-- trip of Attachment rests on that. The loop of the export, and a client that follows the cursors of
-- `recent_messages`, have one request for each unit of fuel; the theorems on them say how many requests
-- are enough. All other loops are structural.
--
-- Not modelled: Tor, Noise and MLS, which are libraries; the tasks, sockets and timers around the
-- parts above, with the supervisor of the poll actors; other connections to a mailbox server during a
-- poll, and messages stored between two pages; full-text search; the delivery actors, invites and
-- Welcomes, the chunks of attachments that arrive, and the rest of the daemon; the user interfaces.
pub mod Attachment
pub mod Backoff
pub mod Base
pub mod Client
pub mod Contacts
pub mod Envelope
pub mod Frame
pub mod Hex
pub mod History
pub mod Inbound
pub mod Mailbox
pub mod Mailboxes
pub mod Outbox
pub mod Poller
pub mod Receiver
pub mod Transfers
pub mod Wire
