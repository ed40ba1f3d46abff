-- ===== src/Tests/Lists.antt =====
-- Runs of the ordered lists, at small sizes of buckets.
use eloan_peer.Prelude.{
  ℕ, zero, suc, ◌+◌, ◌≡◌, refl, true, none, some, List, [], ◌∷◌, Result, ok, err, codes, arith,
  length,
}
use eloan_peer.Prelude.GoString.{GoString, str_eq}
use eloan_peer.Rlist.Insertion.{
  add_body, remove_existing, add_to_branch, add_to_leaf, clamp, insert_id, put_ids, put_root,
  split_branch, split_leaf,
}
use eloan_peer.Prelude.Assoc.{insert, lookup}
use eloan_peer.Rlist.Sizes.{
  add_bucket, add_size, cut_at, index_of, index_or_zero, insert_at, remove_bucket, set_need_save,
}
use eloan_peer.Strconv.{add_int64, digits, format_int, format_uint, negate}
use eloan_peer.VersionedDb.{VersionedDb, or_nil}
use eloan_peer.RLists.{RLists}
use eloan_peer.Rlist.{
  RList, ListCodec, Store, M, pure, ◌>>=◌, ◌>>◌, deref, alloc, modify, assign, int_lt, is_negative,
  sub_int,
}
use eloan_peer.Rlist.Load.{
  empty_list, new_r_list, load, read_state, stored, new_bucket, register, registered,
}
use eloan_peer.Rlist.Lookup.{
  get_id_by_index, index_of_id, at_bucket, bucket_of, count_before, elem_at, get_id_body, get_index,
  index_in_bucket, pending, sizes_before,
}
use eloan_peer.Rlist.Removal.{
  add_id, remove_id, add_index_id, add_again, delete_if_empty, give_up_leaf, merge_if_small,
  parent_of_several, remove_body, remove_from_branch, remove_from_leaf, remove_idx, remove_index,
}
use eloan_peer.Rlist.Save.{r_lists}
use eloan_peer.Rlist.Tree.{IsTree, leaf, branch, nil, cons, get_id_by_index-IsTree}
use eloan_peer.Rlist.Small.Ids.{id_at, without, insert_nth, nearest}
use eloan_peer.Rlist.Small.Traces.{
  Change, add, add_at, remove, all_changed, changed, session, session-IsList,
}

-- An empty state.
abbrev pub empty_db : VersionedDb
empty_db = record {
  Iter = Unit {0};
  next = λ i. (ok none, i);
  get_state = λ ns key. ok none;
  get_state_range_scan_iterator = λ ns a b. ok tt;
  get_latest_save_point = ok none;
}

abbrev pub no_codec : ListCodec
no_codec = record {
  marshal = λ d. none;
  unmarshal = λ b. record {
    bucket_id = [];
    bucket_seq_no = 0;
    parent_bucket_id = [];
    bucket_list_data = [];
    id_list = [];
    size = 0;
  };
}

-- The lists over the empty state, with buckets of up to five ids.
abbrev pub lists : RLists
lists = r_lists empty_db no_codec 4 20

abbrev session_of : List Change
session_of =
    add (codes "a")
    ∷ add (codes "b")
    ∷ add_at 0 (codes "c")
    ∷ add (codes "a")
    ∷ remove (codes "b")
    ∷ []

session-IsList_example :
    (s' : Store) × (session empty_db no_codec 4 9 [] (codes "L") session_of 1 []
      ≡ ok (id_at 1 (all_changed session_of []), s'))
session-IsList_example =
    session-IsList empty_db no_codec 4 9 [] (codes "L") [] session_of 1 (omega arith) refl
      (λ id. refl) (omega arith)

session_read : id_at 1 (all_changed session_of []) ≡ codes "a"
unfolding id_at all_changed changed without insert_nth nearest str_eq
session_read = refl

-- A root with two buckets.
abbrev bucket : GoString → List GoString → RList
bucket id ids = record empty_list {
  bucket_id = id;
  parent_list = some 0;
  id_list = ids;
  size = length ids;
  is_load = true;
}

abbrev two_buckets : Store
two_buckets =
    record empty_list { bucket_id = codes "r"; bucket_list = 1 ∷ 2 ∷ []; size = 3; is_load = true }
    ∷ bucket (codes "x") (codes "a" ∷ codes "b" ∷ [])
    ∷ bucket (codes "y") (codes "c" ∷ [])
    ∷ []

two_buckets-IsTree : IsTree two_buckets 1 0 (codes "a" ∷ codes "b" ∷ codes "c" ∷ [])
unfolding deref
two_buckets-IsTree =
    branch _ 1 (2 ∷ []) refl refl refl
      (cons {xs = codes "a" ∷ codes "b" ∷ []} {ys = codes "c" ∷ []} _ refl refl
        (leaf _ refl refl refl refl refl)
        (cons {xs = codes "c" ∷ []} {ys = []} _ refl refl (leaf _ refl refl refl refl refl) nil
          refl)
        refl)
      refl

get_id_by_index-IsTree_example :
    get_id_by_index empty_db no_codec 3 0 2 two_buckets
    ≡ ok (id_at 2 (codes "a" ∷ codes "b" ∷ codes "c" ∷ []), two_buckets)
get_id_by_index-IsTree_example =
    get_id_by_index-IsTree two_buckets empty_db no_codec 2 2 two_buckets-IsTree (omega arith)
      (omega arith)

-- The removal of ids that leaves a bucket with too few of them puts it out of order.
ids_from : ℕ → ℕ → ℕ → M (List GoString)
ids_from p i zero = pure []
ids_from p i (suc n) = do
  id ← get_id_by_index empty_db no_codec 9 p i
  rest ← ids_from p (i + 1) n
  pure (id ∷ rest)

add_all : ℕ → List GoString → M (Unit {0})
add_all p [] = pure tt
add_all p (id ∷ ids) = do add_id empty_db no_codec 4 20 p id; add_all p ids

abbrev letters : ℕ → ℕ → List GoString
letters i zero = []
letters i (suc n) = (i ∷ []) ∷ letters (i + 1) n

abbrev result_of : {A : Type 0} → A → Result (A × Store) → A
result_of a (err e) = a
result_of a (ok (b, s)) = b

removals : List GoString
removals = result_of [] (
    (do
      p ← new_r_list empty_db no_codec 9 [] (codes "L")
      add_all p (letters 97 12)
      remove_id empty_db no_codec 4 20 p (codes "f")
      remove_id empty_db no_codec 4 20 p (codes "g")
      remove_id empty_db no_codec 4 20 p (codes "h")
      ids_from p 0 9)
      [])

letters_of : List ℕ → List GoString
letters_of [] = []
letters_of (c ∷ cs) = (c ∷ []) ∷ letters_of cs

-- `e` has moved behind `i`.
removals_reordered : removals ≡ letters_of (97 ∷ 98 ∷ 99 ∷ 100 ∷ 105 ∷ 101 ∷ 106 ∷ 107 ∷ 108 ∷ [])
unfolding removals add_all ids_from letters_of alloc modify deref assign load read_state or_nil
    stored new_bucket new_r_list register add_id add_index_id add_body remove_existing str_eq
    index_of_id insert lookup add_to_branch add_to_leaf clamp insert_id put_ids put_root
    split_branch split_leaf registered at_bucket bucket_of count_before elem_at get_id_body
    get_id_by_index get_index index_in_bucket pending sizes_before add_again delete_if_empty
    give_up_leaf merge_if_small parent_of_several remove_body remove_from_branch remove_from_leaf
    remove_id remove_idx remove_index add_bucket add_size cut_at index_of index_or_zero insert_at
    remove_bucket set_need_save int_lt is_negative sub_int add_int64 digits format_int format_uint
    negate
removals_reordered = refl
