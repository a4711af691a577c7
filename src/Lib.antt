-- ===== src/Lib.antt =====
-- A verification library of tersa, a read-only mail client: it syncs a bounded snapshot of recent
-- mail of one account into an encrypted database and shows it in a terminal.
--
-- The parts and their files.
-- - Domain/Mailbox: crates/domain/src/mailbox.rs, identifiers, header texts, timestamps, envelopes
--   and messages. `new_…` is the `new` of a newtype, whose value is the text itself.
-- - Application: crates/application/src. Mailbox is mailbox.rs (tokens, limits, pages, errors),
--   Identity is identity.rs (the decision of the identity gate), Lifecycle is lifecycle.rs, and
--   SyncPolicy and Sync are sync.rs (the page loop, the reconcile, the body loop, the single
--   flight). The remote mailbox and the store are `Ports`, over a world that each call may change.
-- - Store: adapters/store-sqlcipher/src/lib.rs over the tables of migrations/0001_account_mailbox.sql.
--   Schema is the tables, Connection the lock and the transactions, Sql the statements as functions
--   on rows, Messages, Reader, Identity, Binding and Lifecycle the operations, Invariant their
--   histories. An operation is a function from the store to a result and the next store.
-- - Application/OAuth: crates/application/src/oauth.rs, the one-shot authorization session; Urls is
--   what it reads of a URL.
-- - Application/Token: crates/application/src/token.rs, the client of the token endpoint.
-- - Application/Metadata and Application/Search: crates/application/src/mailbox_metadata.rs and
--   mailbox_search.rs, the documents that are read and searched through the `Reader` port.
-- - Presentation: crates/presentation/src. Terminal is terminal.rs, the sanitizer of terminal text;
--   Mailbox and Views are mailbox.rs, the decoding of cached bodies and the view models.
-- - Broker: adapters/token-broker-core/src. Registry is registry.rs, Permits is permits.rs, Handles
--   is handle.rs and subject.rs. Core is broker.rs: Begin, Complete, Refresh and Revoke are its
--   operations, over the `Ports` of ports.rs; Journal keeps what an operation asks of its ports.
-- - Cli/Dates: apps/tersa/src/dates.rs, the UTC date of a timestamp.
-- - Runtime/Gate: adapters/sync-runtime/src/gate.rs, the identity gate and the sync behind it.
-- - Runtime/Loopback: adapters/sync-runtime/src/loopback.rs, the listener for the browser's callback.
--
-- How they interact: `gated_sync` runs `run_identity_gate` and gives its hash to `sync_recent` as
-- the fence; the store compares the fence with the recorded identity inside each transaction that
-- writes messages of a sync. Runtime/Gate/Fresh instantiates the gate's ports with the operations
-- of Store, and lets others change the store before each of its calls. Broker/Registry holds sessions of Application/OAuth, and Broker/Core
-- exchanges their grants through Application/Token under the permits of Broker/Permits. A poisoned lock is a flag of the state that nothing here sets.
--
-- Conventions. Texts are lists of code points, with their UTF-8 bytes computed; an `IdentityHash`
-- is a list of bytes, whose length is 32 where that matters; an i64 is a sign and a natural number,
-- and none overflows here; a u16 counter wraps around. SQLite is outside the repository: a
-- statement follows the schedule `faults` of the store, which says whether it answers or fails,
-- and a transaction that does not commit restores the tables. Every loop is structural: over the
-- pages that the policy allows, over the items of a page, over the survivors, over the four
-- attempts of the gate, over the bytes of a body and over the 32 connections of the listener; so no fuel is added to the source's own bounds.
--
-- Not modelled: the opening, keying, validation and file recovery of the database, the key vault,
-- the Gmail client, sockets, lock files and the terminal, which are calls of the system or of
-- third-party code; and the parsing of the command line and the layout of printed dates.
pub mod Prelude
pub mod Domain
pub mod Application
pub mod Store
pub mod Runtime
pub mod Broker
pub mod Presentation
pub mod Cli
pub mod Examples
