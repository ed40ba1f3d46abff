-- ===== src/Tests/Fixtures.antt =====
-- A committed state of two keys, and a block whose earlier writes delete one and add another.
use mathlib.Core.Path.{subst}
use eloan_peer.Prelude.{
  refl, Option, none, some, [], ok, codes, sym, Bool, ◌&&◌, if◌then◌else◌, arith, true, false,
}
use eloan_peer.Prelude.GoString.{GoString, str_eq}
use eloan_peer.Prelude.Assoc.{Assoc, lookup}
use eloan_peer.Version.{Height, IsUint64}
use eloan_peer.Version.Order.{Fits}
use eloan_peer.StateDb
use eloan_peer.StateDb.{NsUpdates, UpdateBatch, VersionedValue, insert2, lookup2}
use eloan_peer.StateDb.Batch.{lookup2-insert2}
use eloan_peer.Validator.{committed_version}
use eloan_peer.StateDb.Wf.{AllDistinct-insert2, AllDistinct-nil, IsWf}
use eloan_peer.StateDb.RangeScan.{get_range_scan_iterator-IsScan}
use eloan_peer.StateDb.Iterator.{NsIterator, ns_next, get_range_scan_iterator}
use eloan_peer.VersionedDb.{VersionedDb, Represents}

abbrev pub ns : GoString
ns = codes "lscc"

abbrev pub key_a : GoString
key_a = codes "a"

abbrev pub key_b : GoString
key_b = codes "b"

abbrev pub key_c : GoString
key_c = codes "c"

abbrev pub height_1 : Height
height_1 = record { block_num = 1; tx_num = 0 }

abbrev pub height_2 : Height
height_2 = record { block_num = 2; tx_num = 3 }

abbrev pub value_1 : VersionedValue
value_1 = record { value = some (codes "x"); version = some height_1 }

abbrev pub deleted : VersionedValue
deleted = record { value = none; version = some height_2 }

abbrev pub batch_of : Assoc NsUpdates → UpdateBatch
batch_of m = record {
  updates = m;
  cals = [];
  r_lists = [];
  update_num = 0;
  cal_num = 0;
  r_list_num = 0;
}

abbrev pub committed : UpdateBatch
committed = batch_of (insert2 ns key_a value_1 (insert2 ns key_b value_1 []))

abbrev pub updates : UpdateBatch
updates = batch_of (insert2 ns key_b deleted (insert2 ns key_c value_1 []))

pub updates-IsWf : IsWf updates
updates-IsWf = record {
  updates =
      AllDistinct-insert2 ns key_b deleted (insert2 ns key_c value_1 [])
        (AllDistinct-insert2 ns key_c value_1 [] (AllDistinct-nil VersionedValue));
  cals = AllDistinct-nil VersionedValue;
}

committed-IsWf : IsWf committed
committed-IsWf = record {
  updates =
      AllDistinct-insert2 ns key_a value_1 (insert2 ns key_b value_1 [])
        (AllDistinct-insert2 ns key_b value_1 [] (AllDistinct-nil VersionedValue));
  cals = AllDistinct-nil VersionedValue;
}

-- A database that keeps its state in a batch.
abbrev pub state : GoString → GoString → Option VersionedValue
state ns' key = StateDb.get ns' key committed

abbrev pub db : VersionedDb
db = record {
  Iter = NsIterator;
  next = ns_next;
  get_state = λ ns' key. ok (state ns' key);
  get_state_range_scan_iterator =
      λ ns' start_key end_key. ok (get_range_scan_iterator ns' start_key end_key committed);
  get_latest_save_point = ok none;
}

pub db-Represents : Represents db state
db-Represents = record {
  state = λ ns' key. refl;
  scan = λ ns' start_key end_key.
      (let (xs, y, s) =
          get_range_scan_iterator-IsScan ns' start_key end_key committed committed-IsWf in
        (get_range_scan_iterator ns' start_key end_key committed, xs, refl, y, s));
}

pub small_1 : IsUint64 height_1
small_1 = record { block_fits = omega arith; tx_fits = omega arith }

pub small_2 : IsUint64 height_2
small_2 = record { block_fits = omega arith; tx_fits = omega arith }

Fits-if :
    (b : Bool) (v : VersionedValue) (o : Option VersionedValue)
    → Fits v.version
    → Fits (committed_version o)
    → Fits (committed_version (if b then some v else o))
Fits-if true v o f g = f
Fits-if false v o f g = g

Fits-insert2 :
    (key k : GoString) (v : VersionedValue) (m : Assoc NsUpdates)
    → Fits v.version
    → Fits (committed_version (lookup2 ns k m))
    → Fits (committed_version (lookup2 ns k (insert2 ns key v m)))
Fits-insert2 key k v m f g =
    subst (λ o. Fits (committed_version o)) (sym (lookup2-insert2 ns key ns k v m))
      (Fits-if (str_eq ns ns && str_eq key k) v (lookup2 ns k m) f g)

pub versions-Fit :
    (k : GoString)
    → Fits (committed_version (state ns k)) × Fits (committed_version (StateDb.get ns k updates))
unfolding StateDb.get
versions-Fit k = (
  Fits-insert2 key_a k value_1 (insert2 ns key_b value_1 []) small_1
      (Fits-insert2 key_b k value_1 [] small_1 (unfold lookup2 in unfold lookup in tt)),
  Fits-insert2 key_b k deleted (insert2 ns key_c value_1 []) small_2
      (Fits-insert2 key_c k value_1 [] small_1 (unfold lookup2 in unfold lookup in tt)),
)
