-- ===== src/Rlist.antt =====
-- core/ledger/kvledger/txmgmt/statedb/rlist.go: ordered lists of ids, kept in the state as trees of
-- buckets. The list objects point to one another, so they live in a store of nodes.
pub mod Load
pub mod Sizes
pub mod Lookup
pub mod Insertion
pub mod Removal
pub mod Save
pub mod Pair
pub mod Tree
pub mod Small
use eloan_peer.Prelude.{
  ℕ, ◌+◌, ◌-◌, ◌%◌, Bool, true, false, Option, none, some, List, [], ◌∷◌, ◌++◌, Result, ok, err,
  panic, ltb, leb, length, get_elem?, set, codes,
}
use eloan_peer.Prelude.GoString.{GoString}
use eloan_peer.Prelude.Assoc.{Assoc}
use eloan_peer.StateDb.{RListRef}
use eloan_peer.Strconv.{u64_mod, sign_bit}

-- An `int` is its bit pattern, below 2^64. The field `db` is a parameter of the methods. The maps
-- are those of the root, which the others reach through `rootlist`, a field that every constructor
-- sets.
pub record RList : Type 0 where
  pub bucket_id : GoString
  pub r_list_name : GoString
  pub bucket_seq_no : ℕ
  pub parent_list : Option RListRef
  pub bucket_list : List RListRef
  pub id_list : List GoString
  pub size : ℕ
  pub is_load : Bool
  pub need_save : Bool
  pub need_delete : Bool
  pub ns : GoString
  pub put_stub : Assoc (Option GoString)
  pub rootlist : RListRef
  pub map_r_list : Assoc RListRef

pub record BucketListData : Type 0 where
  pub bucket_id : GoString
  pub size : ℕ

pub record RListData : Type 0 where
  pub bucket_id : GoString
  pub bucket_seq_no : ℕ
  pub parent_bucket_id : GoString
  pub bucket_list_data : List BucketListData
  pub id_list : List GoString
  pub size : ℕ

-- The protobuf library: what `Marshal` returns, nil on an error, and what `Unmarshal` leaves in the
-- message, of which both callers drop the error.
pub record ListCodec : Type 0 where
  pub marshal : RListData → Option GoString
  pub unmarshal : GoString → RListData

abbrev pub Store : Type 0
Store = List RList

-- A method of a list: it changes the store, or panics.
abbrev pub M : Type 0 → Type 0
M A = Store → Result (A × Store)

abbrev pub pure : {A : Type 0} → A → M A
pure a s = ok (a, s)

abbrev pub fault : {A : Type 0} → M A
fault s = err panic

abbrev pub and_then : {A B : Type 0} → Result (A × Store) → (A → M B) → Result (B × Store)
and_then (err e) k = err e
and_then (ok (a, s)) k = k a s

infixl 5 ◌>>=◌ ◌>>◌
abbrev pub ◌>>=◌ : {A B : Type 0} → M A → (A → M B) → M B
◌>>=◌ m k s = and_then (m s) k

abbrev pub ◌>>◌ : {B : Type 0} → M (Unit {0}) → M B → M B
m >> n = m >>= λ _. n

abbrev pub when : Bool → M (Unit {0}) → M (Unit {0})
when b m = elim b [ true ↦ m | false ↦ pure tt ]

-- `*p`
unfoldable pub deref : RListRef → M RList
deref p s = elim (get_elem? s p) [ none ↦ err panic | some this ↦ ok (this, s) ]

-- `*p = this`
unfoldable pub assign : RListRef → RList → M (Unit {0})
assign p this s = ok (tt, set s p this)

-- `p.x = …`
unfoldable pub modify : RListRef → (RList → RList) → M (Unit {0})
modify p f = do this ← deref p; assign p (f this)

-- `new(RList)` with its fields
unfoldable pub alloc : RList → M RListRef
alloc this s = ok (length s, s ++ this ∷ [])

-- `a < b` on the type `int`
unfoldable pub int_lt : ℕ → ℕ → Bool
int_lt a b = ltb ((a + sign_bit) % u64_mod) ((b + sign_bit) % u64_mod)

-- `a < 0`
unfoldable pub is_negative : ℕ → Bool
is_negative a = leb sign_bit a

unfoldable pub sub_int : ℕ → ℕ → ℕ
sub_int a b = (a + (u64_mod - b)) % u64_mod

abbrev pub minus_one : ℕ
minus_one = u64_mod - 1

-- The keys under which the lists are stored.
abbrev pub datab_key : GoString → GoString → GoString
datab_key name id = codes "__RLIST_" ++ (name ++ (codes "_DATAB_" ++ id))
