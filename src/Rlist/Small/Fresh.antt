-- ===== src/Rlist/Small/Fresh.antt =====
-- A new list of an empty state: `NewRList` makes a root and one empty bucket.
use eloan_peer.Prelude.{
  ℕ, suc, ◌≡◌, refl, ap, Bool, true, false, Option, none, some, List, [], ◌∷◌, ◌++◌, ok, arith,
  length, length-append, get_elem?, set, codes,
}
use eloan_peer.Prelude.GoString.{GoString, str_eq, str_eq_refl}
use eloan_peer.Prelude.Assoc.{Assoc, insert, lookup, lookup-insert, member}
use eloan_peer.StateDb.{RListRef}
use eloan_peer.Strconv.{add_int64, format_int}
use eloan_peer.VersionedDb.{VersionedDb, or_nil}
use eloan_peer.Rlist.{RList, ListCodec, Store, deref, assign, modify, alloc, datab_key}
use eloan_peer.Rlist.Load.{
  empty_list, register, bucket_key, root_key, new_bucket, read_state, stored, load, new_r_list,
}
use eloan_peer.Rlist.Lookup.{pending}
use eloan_peer.Rlist.Pair.{AreApart, two, deref_first, deref_second, assign_first, assign_second}
use eloan_peer.Rlist.Small.{Frame, Content, store_at, IsFrame, Holds}
use eloan_peer.Rlist.Small.Refine.{str_eq-append}

-- The last node of a store.
module _ (a : RList) where
  deref_last : (s : Store) → deref (length s) (s ++ a ∷ []) ≡ ok (a, s ++ a ∷ [])
  unfolding deref
  deref_last s = rw (go s, deref)
    where
      go : (l : Store) → get_elem? (l ++ a ∷ []) (length l) ≡ some a
      go [] = refl
      go (x ∷ l) = go l

  assign_last : (x : RList) (s : Store) → assign (length s) x (s ++ a ∷ []) ≡ ok (tt, s ++ x ∷ [])
  unfolding assign
  assign_last x s = ap (λ (l : Store). ok (tt, l)) (go s)
    where
      go : (l : Store) → set (l ++ a ∷ []) (length l) x ≡ (l ++ x ∷ [])
      go [] = refl
      go (y ∷ l) = ap (λ m. y ∷ m) (go l)

  -- A second node behind it.
  alloc_second :
      (b z : RList) (s : Store)
      → alloc b (s ++ a ∷ [])
        ≡ ok (suc (length s), two (length s) (suc (length s)) (s ++ z ∷ z ∷ []) a b)
  unfolding alloc two
  alloc_second b z s = ground (arith, length-append s (a ∷ []), go s)
    where
      go :
          (l : Store)
          → set (set (l ++ z ∷ z ∷ []) (length l) a) (suc (length l)) b ≡ (l ++ a ∷ []) ++ b ∷ []
      go [] = refl
      go (y ∷ l) = ap (λ m. y ∷ m) (go l)

new_frame : GoString → GoString → Store → Frame
new_frame ns name s = record {
  root = length s;
  leaf = suc (length s);
  rest = s ++ empty_list ∷ empty_list ∷ [];
  name = name;
  root_id = root_key name;
  leaf_head = 95;
  leaf_tail = codes "_RLIST_" ++ (name ++ (codes "_BUCKET_" ++ format_int (add_int64 0 1)));
  root_seq = add_int64 0 1;
  leaf_seq = add_int64 0 1;
  root_ids = [];
  ns = ns;
  leaf_ns = ns;
  buckets =
      insert (bucket_key name (add_int64 0 1)) (suc (length s)) ((root_key name, length s) ∷ []);
  leaf_stub = [];
  leaf_buckets = [];
  root_delete = false;
  leaf_delete = false;
}

abbrev no_content : Content
no_content = record {
  ids = [];
  leaf_size = 0;
  root_size = 0;
  put_stub = [];
  root_save = true;
  leaf_save = true;
}

module _ (db : VersionedDb) (codec : ListCodec) (ns name : GoString) (s : Store)
    (no_root : db.get_state ns (root_key name) ≡ ok none)
    (no_ids : (id : GoString) → db.get_state ns (datab_key name id) ≡ ok none) where
  names_differ : str_eq (bucket_key name (add_int64 0 1)) (root_key name) ≡ false
  unfolding str_eq
  names_differ = rw (
    str_eq-append (codes "__RLIST_") (name ++ (codes "_BUCKET_" ++ format_int (add_int64 0 1)))
        (name ++ codes "_ROOT"),
    str_eq-append name (codes "_BUCKET_" ++ format_int (add_int64 0 1)) (codes "_ROOT"),
  )

  new_frame-IsFrame : IsFrame db (new_frame ns name s)
  unfolding new_frame
  new_frame-IsFrame = record {
    places = record {
      first = omega (arith, length-append s (empty_list ∷ empty_list ∷ []));
      second = omega (arith, length-append s (empty_list ∷ empty_list ∷ []));
      apart = λ e. omega arith;
    };
    names = names_differ;
    known = ground (
      arith,
      lookup-insert (bucket_key name (add_int64 0 1)) (bucket_key name (add_int64 0 1))
          (suc (length s)) ((root_key name, length s) ∷ []),
      str_eq_refl (bucket_key name (add_int64 0 1)),
    );
    fresh = no_ids;
  }

  no_content-Holds : Holds (new_frame ns name s) no_content []
  unfolding pending lookup member
  no_content-Holds = record {
    list = refl;
    sized = record { leaf = refl; root = refl; within = omega arith };
    distinct = tt;
    index = λ id. refl;
  }

  root_at : Bool → RList
  root_at loaded = record empty_list {
    bucket_id = root_key name;
    r_list_name = name;
    ns = ns;
    need_save = true;
    is_load = loaded;
    rootlist = length s;
    map_r_list = (root_key name, length s) ∷ [];
  }

  load_new :
      (fuel : ℕ)
      → load db codec (suc fuel) (length s) (s ++ root_at false ∷ [])
        ≡ ok (tt, s ++ root_at true ∷ [])
  unfolding load read_state or_nil stored modify root_at
  load_new fuel =
      ground
        (arith, deref_last (root_at false) s, no_root, assign_last (root_at false) (root_at true) s)

  -- The root, with its counter of buckets, its map and its buckets.
  root_with : Assoc RListRef → List RListRef → RList
  unfolding root_at
  root_with buckets l = record (root_at true) {
    bucket_seq_no = add_int64 0 1;
    map_r_list = buckets;
    bucket_list = l;
  }

  child_with : Option RListRef → Bool → RList
  child_with parent loaded = record empty_list {
    bucket_id = bucket_key name (add_int64 0 1);
    r_list_name = name;
    bucket_seq_no = add_int64 0 1;
    need_save = true;
    ns = ns;
    rootlist = length s;
    parent_list = parent;
    is_load = loaded;
  }

  pair_of : RList → RList → Store
  pair_of = two (length s) (suc (length s)) (s ++ empty_list ∷ empty_list ∷ [])

  first_buckets : Assoc RListRef
  first_buckets = (root_key name, length s) ∷ []

  all_buckets : Assoc RListRef
  unfolding first_buckets
  all_buckets = insert (bucket_key name (add_int64 0 1)) (suc (length s)) first_buckets

  places : AreApart (length s) (suc (length s)) (s ++ empty_list ∷ empty_list ∷ [])
  unfolding new_frame
  places = new_frame-IsFrame.places

  new_bucket_new :
      new_bucket (length s) name (length s) (s ++ root_at true ∷ [])
      ≡ ok (suc (length s), pair_of (root_with all_buckets []) (child_with none false))
  unfolding new_bucket register modify root_at root_with child_with pair_of all_buckets
  new_bucket_new = ground (
    arith,
    deref_last (root_at true) s,
    assign_last (root_at true) (root_with first_buckets []) s,
    deref_last (root_with first_buckets []) s,
    alloc_second (root_with first_buckets []) (child_with none false) empty_list s,
    deref_first (length s) (suc (length s)) (s ++ empty_list ∷ empty_list ∷ []) places
        (root_with first_buckets []) (child_with none false),
    assign_first (length s) (suc (length s)) (s ++ empty_list ∷ empty_list ∷ []) places
        (root_with first_buckets []) (child_with none false) (root_with all_buckets []),
  )

  finished : Store
  unfolding pair_of
  finished =
      pair_of (root_with all_buckets (suc (length s) ∷ [])) (child_with (some (length s)) true)

  new_r_list_new : (fuel : ℕ) → new_r_list db codec (suc fuel) ns name s ≡ ok (length s, finished)
  unfolding new_r_list alloc modify root_at root_with child_with pair_of finished
  new_r_list_new fuel = ground (
    arith,
    deref_last (record (root_at false) { rootlist = 0; map_r_list = [] }) s,
    assign_last (record (root_at false) { rootlist = 0; map_r_list = [] }) (root_at false) s,
    load_new fuel,
    deref_last (root_at true) s,
    new_bucket_new,
    deref_second (length s) (suc (length s)) (s ++ empty_list ∷ empty_list ∷ []) places
        (root_with all_buckets []) (child_with none false),
    assign_second (length s) (suc (length s)) (s ++ empty_list ∷ empty_list ∷ []) places
        (root_with all_buckets []) (child_with none false) (child_with (some (length s)) true),
    deref_first (length s) (suc (length s)) (s ++ empty_list ∷ empty_list ∷ []) places
        (root_with all_buckets []) (child_with (some (length s)) true),
    assign_first (length s) (suc (length s)) (s ++ empty_list ∷ empty_list ∷ []) places
        (root_with all_buckets []) (child_with (some (length s)) true)
        (root_with all_buckets (suc (length s) ∷ [])),
  )

  -- The new list is one without ids.
  pub new_r_list-Holds :
      (fuel : ℕ)
      → (f : Frame) × (t : Content) × (new_r_list db codec (suc fuel) ns name s
          ≡ ok (f.root, store_at f t))
        × IsFrame db f
        × Holds f t []
  unfolding new_frame finished root_with child_with pair_of root_at all_buckets first_buckets
  new_r_list-Holds fuel =
      (new_frame ns name s, no_content, new_r_list_new fuel, new_frame-IsFrame, no_content-Holds)
