-- ===== src/Examples/Syncs.antt =====
-- The theorems on the bounded sync and on the identity gate at concrete inputs.
use tersa_app.Prelude.{
  ℕ, ◌+◌, ◌≡◌, refl, ap, true, false, none, some, List, [], ◌∷◌, arith, length, if◌then◌else◌,
}
use tersa_app.Prelude.Int.{pos}
use tersa_app.Prelude.Result.{Result, ok, err}
use tersa_app.Prelude.Text.{Text, text_eq}
use tersa_app.Domain.Mailbox.{AccountId, MessageEnvelope}
use tersa_app.Application.Mailbox.{not_found}
use tersa_app.Application.Identity.{IdentityHash, HasherError, normalize_subject}
use tersa_app.Application.SyncPolicy.{SyncPolicy, failure, single_flight, no_progress, new_policy}
use tersa_app.Application.Sync.{Ports, sync_with_flight, Coordinator, sync_recent, is_active}
use tersa_app.Application.Sync.Rounds.{IsPolicy}
use tersa_app.Application.Sync.Bounds.{Reported, sync_with_flight-Reported}
use tersa_app.Application.Sync.Flight.{sync_recent_lem}
use tersa_app.Store.Schema.{fresh}
use tersa_app.Store.Sql.{inserted_row}
use tersa_app.Store.Connection.{Store, with_connection, transaction, statement, finish}
use tersa_app.Store.Messages.{recorded_identity, read_recorded_identity}
use tersa_app.Store.Identity.{
  load_identity, reconcile_identity, write_identity_hash, write_identity_body,
}
use tersa_app.Runtime.Gate.{run_identity_gate}
use tersa_app.Runtime.Gate.Fresh.{Contended, store_ports, surviving, run_identity_gate_lem}

abbrev account : AccountId
account = 109 ∷ []

abbrev envelope : MessageEnvelope
envelope = record {
  message_id = 97 ∷ [];
  thread_id = 116 ∷ [];
  from = [];
  subject = [];
  preview = [];
  received_at = pos 5;
  unread = true;
}

-- a mailbox of one page, whose bodies are gone, over the number of calls made
abbrev ports : Ports ℕ
ports = record {
  list_recent_envelopes =
      λ a size token w. (ok (record { items = envelope ∷ []; next_token = none }), w + 1);
  fetch_message = λ a id w. (err not_found, w + 1);
  reconcile_recent_envelopes = λ a es n h w. (ok ((97 ∷ []) ∷ []), w + 1);
  cache_message_if_present = λ a m h w. (ok true, w + 1);
}

abbrev policy : SyncPolicy
policy = record { page_size = 10; max_pages = 2; keep_limit = 20; full_body_limit = 5 }

policy-IsPolicy : IsPolicy policy
policy-IsPolicy = record {
  few_pages = omega arith;
  small_limit = omega arith;
  fewer_bodies = omega arith;
}

sync_with_flight-Reported_example : Reported policy (sync_with_flight ports account policy [] 0).0
sync_with_flight-Reported_example =
    sync_with_flight-Reported ports account policy [] 0 policy-IsPolicy

abbrev busy : Coordinator ℕ
busy = record { world = 0; active_accounts = (98 ∷ []) ∷ []; poisoned = false }

sync_recent_lem_example : sync_recent ports account policy [] busy ≡ (
    if busy.poisoned
    then (err (failure single_flight no_progress), busy)
    else if is_active account busy
    then (err (failure single_flight no_progress), busy)
    else (let (r, w) = sync_with_flight ports account policy [] 0 in
        (r, record busy { world = w })))
sync_recent_lem_example = sync_recent_lem ports account policy [] busy

accepted_policy : new_policy 10 2 20 5 ≡ ok policy
unfolding new_policy
accepted_policy = refl

abbrev eight : List ℕ → List ℕ
eight tail = 7 ∷ 7 ∷ 7 ∷ 7 ∷ 7 ∷ 7 ∷ 7 ∷ 7 ∷ tail

abbrev hash_32 : IdentityHash
hash_32 = eight (eight (eight (eight [])))

abbrev hash : AccountId → Text → Result HasherError IdentityHash
hash a t = ok hash_32

hash-wide : (a : AccountId) (t : Text) (h : IdentityHash) → hash a t ≡ ok h → length h ≡ 32
hash-wide a t h e = ground arith

abbrev store : Store
store = record { account = account; db = fresh account; faults = []; poisoned = false }

-- another process that records another identity, with a message
abbrev other_hash : IdentityHash
other_hash = 8 ∷ 7 ∷ 7 ∷ 7 ∷ 7 ∷ 7 ∷ 7 ∷ 7 ∷ eight (eight (eight []))

abbrev recorded_by_another : Store → Store
recorded_by_another s = record s {
  db = record s.db {
    messages = inserted_row envelope none ∷ [];
    identity = record { account_id = account; identity_hash = other_hash; algo_version = 2 } ∷ [];
  };
}

-- it comes between the first load and the first record, so that the gate loses the race and tries again
abbrev raced : Contended
raced = record { store = store; others = (λ s. s) ∷ recorded_by_another ∷ []; found = store }

abbrev after_race : Contended
after_race = record {
  store = record store {
    db = record (fresh account) {
      identity = record { account_id = account; identity_hash = hash_32; algo_version = 2 } ∷ [];
    };
  };
  others = [];
  found = recorded_by_another store;
}

came_through :
    run_identity_gate (store_ports hash) account (49 ∷ []) raced ≡ (ok hash_32, after_race)
unfolding run_identity_gate load_identity reconcile_identity write_identity_hash write_identity_body
    with_connection transaction statement finish text_eq read_recorded_identity inserted_row
came_through = refl

run_identity_gate_lem_example :
    let c' = (run_identity_gate (store_ports hash) account (49 ∷ []) raced).1 in
    (hash account (normalize_subject (49 ∷ [])) ≡ ok hash_32)
    × (recorded_identity account c'.store.db ≡ ok (some hash_32))
    × (c'.store.db.messages
        ≡ surviving (recorded_identity account c'.found.db) hash_32 c'.found.db.messages)
run_identity_gate_lem_example =
    run_identity_gate_lem hash account (49 ∷ []) hash_32 raced hash-wide
      (ap (λ p. p.0) came_through)
