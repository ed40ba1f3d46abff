-- ===== src/Rlist/Lookup.antt =====
-- The reading methods of rlist.go: `GetIdByIndex`, `getIndex` and `IndexOf`.
use eloan_peer.Prelude.{
  ℕ, zero, suc, true, false, Option, none, some, List, [], ◌∷◌, get_elem?, ◌||◌, not,
}
use eloan_peer.Prelude.GoString.{GoString, str_eq}
use eloan_peer.Prelude.Assoc.{Assoc, lookup}
use eloan_peer.StateDb.{RListRef}
use eloan_peer.VersionedDb.{VersionedDb}
use eloan_peer.Strconv.{add_int64}
use eloan_peer.Rlist.{
  RList, ListCodec, M, pure, fault, ◌>>=◌, ◌>>◌, deref, int_lt, is_negative, sub_int, minus_one,
  datab_key,
}
use eloan_peer.Rlist.Load.{registered, read_state, load}

-- `l[index]`
unfoldable pub elem_at : {A : Type 0} → List A → ℕ → M A
elem_at l index = elim (get_elem? l index) [ none ↦ fault | some x ↦ pure x ]

-- The loops over the buckets that look for the one with an index, and count it down; `go` is what
-- is done there.
unfoldable pub at_bucket : {A : Type 0} → (RListRef → ℕ → M A) → M A → List RListRef → ℕ → M A
at_bucket go missing [] index = missing
at_bucket go missing (v ∷ vs) index = do
  bucket ← deref v
  elim (int_lt index bucket.size) [
    | true ↦ go v index
    | false ↦ at_bucket go missing vs (sub_int index bucket.size)
  ]

-- The sizes of the buckets before the one with an id.
unfoldable pub sizes_before : List RListRef → GoString → ℕ → M ℕ
sizes_before [] id num = pure num
sizes_before (v ∷ vs) id num = do
  bucket ← deref v
  elim (str_eq bucket.bucket_id id) [
    | true ↦ pure num
    | false ↦ sizes_before vs id (add_int64 num bucket.size)
  ]

unfoldable pub get_index : ℕ → RListRef → M ℕ
get_index zero p = fault
get_index (suc fuel) p = do
  this ← deref p
  elim this.parent_list [
    | none ↦ pure 0
    | some q ↦ (do
      num ← get_index fuel q
      parent ← deref q
      sizes_before parent.bucket_list this.bucket_id num)
  ]

-- `num` and the number of ids before `id`, or that of all of them.
unfoldable pub count_before : GoString → List GoString → ℕ → ℕ
count_before id [] num = num
count_before id (vid ∷ vids) num = elim (str_eq vid id) [
  | true ↦ num
  | false ↦ count_before id vids (add_int64 num 1)
]

-- `putStub[key]`, where nil and no entry are one.
unfoldable pub pending : GoString → Assoc (Option GoString) → Option GoString
pending key m = elim (lookup key m) [ none ↦ none | some value ↦ value ]

module _ (db : VersionedDb) (codec : ListCodec) where
  -- The body of `GetIdByIndex`, `go` being its recursive call.
  unfoldable pub get_id_body : (RListRef → ℕ → M GoString) → ℕ → RListRef → ℕ → M GoString
  get_id_body go fuel p index = do
    load db codec fuel p
    this ← deref p
    elim (not (int_lt index this.size) || is_negative index) [
      | true ↦ pure []
      | false ↦ elim this.bucket_list [
        | v ∷ vs ↦ at_bucket go (pure []) (v ∷ vs) index
        | [] ↦ elem_at this.id_list index
      ]
    ]

  unfoldable pub get_id_by_index : ℕ → RListRef → ℕ → M GoString
  get_id_by_index zero p index = fault
  get_id_by_index (suc fuel) p index = get_id_body (get_id_by_index fuel) fuel p index

  -- The bucket of an id: what is pending, or else what is stored.
  unfoldable pub bucket_of : GoString → RList → RList → M (Option GoString)
  bucket_of id this root = elim (pending (datab_key this.r_list_name id) root.put_stub) [
    | some bucket_id ↦ pure (some bucket_id)
    | none ↦ read_state db codec root.ns (datab_key this.r_list_name id)
  ]

  unfoldable pub index_in_bucket : ℕ → RListRef → GoString → GoString → M ℕ
  index_in_bucket fuel p bucket_id id = do
    q ← registered p bucket_id
    load db codec fuel q
    num ← get_index fuel q
    bucket ← deref q
    pure (count_before id bucket.id_list num)

  unfoldable pub index_of_id : ℕ → RListRef → GoString → M ℕ
  index_of_id fuel p id = do
    load db codec fuel p
    this ← deref p
    root ← deref this.rootlist
    bucket_id ← bucket_of id this root
    elim bucket_id [
      | none ↦ pure minus_one
      | some b ↦ elim b [ [] ↦ pure minus_one | c ∷ s ↦ index_in_bucket fuel p (c ∷ s) id ]
    ]
