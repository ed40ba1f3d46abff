-- ===== src/VersionedDb.antt =====
-- The interface VersionedDB of statedb.go, through which the validator reads the committed state.
use eloan_peer.Prelude.{◌≡◌, Option, none, List, Result, ok, err, failed, panic}
use eloan_peer.Prelude.GoString.{GoString}
use eloan_peer.Version.{Height}
use eloan_peer.StateDb.{VersionedValue, VersionedKv}
use eloan_peer.StateDb.Iterator.{Item, Yields}
use eloan_peer.StateDb.Iterator.Range.{IsScan}

-- The methods that validation calls; they do not change the database.
pub record VersionedDb : Type 1 where
  pub Iter : Type 0
  pub next : Iter → Item × Iter
  pub get_state : GoString → GoString → Result (Option VersionedValue)
  pub get_state_range_scan_iterator : GoString → GoString → GoString → Result Iter
  pub get_latest_save_point : Result (Option Height)

-- The database answers without errors from the state `at`: what the comments of the interface say.
pub record Represents (db : VersionedDb) (at : GoString → GoString → Option VersionedValue)
    : Type 0 where
  pub state : (ns key : GoString) → db.get_state ns key ≡ ok (at ns key)
  pub scan :
      (ns start_key end_key : GoString)
      → (it : db.Iter) × (xs : List VersionedKv) × (db.get_state_range_scan_iterator ns start_key
            end_key
          ≡ ok it)
        × Yields db.next xs it
        × IsScan ns start_key end_key (at ns) xs

-- The pointer that `GetState` and `GetLatestSavePoint` return where their error is dropped. A panic
-- goes on.
unfoldable pub or_nil {ℓ} : {A : Type ℓ} → Result (Option A) → Result (Option A)
or_nil (ok o) = ok o
or_nil (err panic) = err panic
or_nil (err (failed text)) = ok none
