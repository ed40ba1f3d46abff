-- ===== src/Tests/Ledgers.antt =====
-- The stores of a small ledger: a state that is its save point, and a history in an association list.
use eloan_peer.Prelude.{
  ℕ, suc, ◌≡◌, refl, sym, ap, ◌∙◌, false, Option, none, some, List, [], ◌∷◌, Result, ok, codes,
}
use eloan_peer.Prelude.GoString.{GoString}
use eloan_peer.Prelude.Assoc.{Assoc, lookup, insert, erase, lookup-insert, lookup-erase}
use eloan_peer.Version.{Height, new_height}
use eloan_peer.Version.Codec.{to_bytes}
use eloan_peer.StateDb.{new_update_batch}
use eloan_peer.Rwset.{KvRwSet}
use eloan_peer.Rwset.Codec.{ProtoCodec, from_proto_bytes, from_proto_sets}
use eloan_peer.StateLevelDb.{Write, put_entry, delete_entry, LevelDb, save_point_key}
use eloan_peer.StateLevelDb.Stores.{Stores, written}
use eloan_peer.TxValidationFlags.{is_invalid, is_valid, is_set_to, flag}
use eloan_peer.Validator.Block.{Block, flags_of}
use eloan_peer.Ledger.{BlockStore}
use eloan_peer.TxMgr.{StateStore, BlockValidator}
use eloan_peer.TxMgr.Recovery.{Saves, Prepares}
use eloan_peer.History.{
  construct_composite_history_key, batch_of, block_history, tx_history, valid_history,
  endorser_history, set_history, ns_history,
}
use eloan_peer.History.Committed.{ok-inj}
use eloan_peer.History.Records.{some-inj}
use eloan_peer.History.Recovery.{Indexes}
use eloan_peer.KvLedger.Crash.{Appends}
use eloan_peer.Tests.Fixtures.{ns}
use eloan_peer.Tests.Codecs.{codec}
use eloan_peer.Tests.Blocks.{decode}

abbrev pub apply_writes : List Write → Assoc GoString → Assoc GoString
apply_writes [] m = m
apply_writes (put_entry k v ∷ ws) m = apply_writes ws (insert k v m)
apply_writes (delete_entry k ∷ ws) m = apply_writes ws (erase k m)

abbrev pub first_entry : Assoc GoString → Option (GoString × GoString) × Assoc GoString
first_entry [] = (none, [])
first_entry (e ∷ m) = (some e, m)

abbrev pub level : LevelDb
level = record {
  Store = Assoc GoString;
  get_entry = λ k m. ok (lookup k m);
  write_batch = λ ws m. ok (apply_writes ws m);
  Iter = Assoc GoString;
  get_iterator = λ s e m. m;
  next_entry = first_entry;
}

lookup-apply :
    (k : GoString) (ws : List Write) (m : Assoc GoString)
    → lookup k (apply_writes ws m) ≡ written k ws (lookup k m)
unfolding written
lookup-apply k [] m = refl
lookup-apply k (put_entry j v ∷ ws) m =
    lookup-apply k ws (insert j v m) ∙ ap (written k ws) (lookup-insert j k v m)
lookup-apply k (delete_entry j ∷ ws) m =
    lookup-apply k ws (erase j m) ∙ ap (written k ws) (lookup-erase j k m)

pub level-Stores : Stores level
level-Stores = record {
  reads = λ k m. (lookup k m, refl);
  get-write = λ k ws s s' o wrote before.
      ap (λ x. ok (lookup k x)) (sym (ok-inj wrote))
      ∙ ap ok (lookup-apply k ws s ∙ ap (written k ws) (ok-inj before));
}

abbrev pub write_k : KvRwSet
write_k = record {
  reads = [];
  range_queries_info = [];
  writes = (record { key = codes "k"; is_delete = false; value = some (codes "v") }) ∷ [];
}

abbrev pub proto : ProtoCodec
proto = record {
  marshal_kv = λ s. ok [];
  unmarshal_kv = λ b. ok write_k;
  marshal_tx = λ l. ok [];
  unmarshal_tx = λ b. ok ((ns, []) ∷ []);
}

abbrev pub envelope_results : GoString → Result GoString
envelope_results env = ok env

abbrev pub chain : ℕ → Block
chain n = record { number = n; tx_data = codes "x" ∷ []; filter = 0 ∷ [] }

abbrev pub blocks : BlockStore Block
blocks = record {
  Store = ℕ;
  get_blockchain_info = λ n. ok (some n);
  retrieve_block_by_number = λ k n. ok (chain k);
  add_block = λ b n. ok (suc n);
}

abbrev pub store : StateStore
store = record {
  State = Option Height;
  get_latest_save_point = λ s. ok s;
  apply_updates = λ b h s. (none, some h);
}

abbrev pub validator : BlockValidator store
validator = record {
  Validator = Unit {0};
  validate_and_prepare_batch = λ b f s w. (ok (new_update_batch, b.filter), w);
}

pub saves : Saves store
saves = record { saves = λ b h s. (some h, refl, refl) }

pub prepares : (h : ℕ) → Prepares store validator chain h
prepares h = record { numbers = λ n. refl; prepares = λ n s w low. (new_update_batch, w, refl) }

pub indexes : (h : ℕ) → Indexes codec level proto decode envelope_results chain h
unfolding batch_of block_history tx_history valid_history endorser_history set_history ns_history
    is_invalid is_valid is_set_to flag from_proto_bytes from_proto_sets flags_of new_height
indexes h = record {
  numbers = λ n. refl;
  flagged = λ n low. refl;
  indexes = λ n low. (
    put_entry (construct_composite_history_key codec ns (codes "k") n 0) []
        ∷ put_entry save_point_key (to_bytes codec (new_height n 1))
        ∷ [],
    refl,
    λ s. (_, refl),
  );
}

pub appends : Appends blocks chain
appends = record {
  appends = λ n s s' holds a. record {
    height = ap (λ x. ok (some x)) (sym (ok-inj a) ∙ ap suc (some-inj (ok-inj holds.height)));
    retrieves = λ k low. refl;
  };
}
