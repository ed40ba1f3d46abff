-- ===== src/StateLevelDb/Stores.antt =====
-- What leveldbhelper promises of `Get` and `WriteBatch`, and the save point that is read back:
-- `ApplyUpdates` and `GetLatestSavePoint` of stateleveldb.go.
use eloan_peer.Prelude.{
  ◌≡◌, refl, sym, ap, ◌∙◌, Option, none, some, List, [], ◌∷◌, ◌++◌, append-nil, length, ok,
  >>=-eq-ok, if◌then◌else◌, arith,
}
use eloan_peer.Prelude.GoString.{GoString, str_eq, str_eq_refl}
use eloan_peer.Version.{Height, IsUint64}
use eloan_peer.Version.Codec.{
  VarintCodec, to_bytes, new_height_from_bytes, new_height_from_bytes-to_bytes,
}
use eloan_peer.StateDb.{UpdateBatch, get_updated_namespaces}
use eloan_peer.StateLevelDb.{
  Write, put_entry, delete_entry, LevelDb, save_point_key, apply_updates, all_writes,
  get_latest_save_point, height_of,
}

-- The entry of a key after a batch of writes, from the one before.
unfoldable pub written : GoString → List Write → Option GoString → Option GoString
written k [] old = old
written k (put_entry j v ∷ ws) old = written k ws (if str_eq j k then some v else old)
written k (delete_entry j ∷ ws) old = written k ws (if str_eq j k then none else old)

-- A store that answers without errors, and in which a batch that was written is read.
pub record Stores (level : LevelDb) : Type 0 where
  pub reads :
      (k : GoString) (s : level.Store) → (o : Option GoString) × (level.get_entry k s ≡ ok o)
  pub get-write :
      (k : GoString) (ws : List Write) (s s' : level.Store) (o : Option GoString)
      → level.write_batch ws s ≡ ok s'
      → level.get_entry k s ≡ ok o
      → level.get_entry k s' ≡ ok (written k ws o)

pub written-last :
    (k v : GoString) (ws : List Write) (o : Option GoString)
    → written k (ws ++ put_entry k v ∷ []) o ≡ some v
unfolding written
written-last k v [] o = ground (arith, str_eq_refl k)
written-last k v (put_entry j w ∷ ws) o = written-last k v ws (if str_eq j k then some w else o)
written-last k v (delete_entry j ∷ ws) o = written-last k v ws (if str_eq j k then none else o)

module _ (codec : VarintCodec) where
  pub height-back :
      (h : Height)
      → IsUint64 h
      → new_height_from_bytes codec (to_bytes codec h) ≡ ok (h, length (to_bytes codec h))
  height-back h fits =
      ap (new_height_from_bytes codec) (sym (append-nil (to_bytes codec h)))
      ∙ new_height_from_bytes-to_bytes codec h [] fits

module _ (codec : VarintCodec) (level : LevelDb) (law : Stores level) where
  -- A batch that ends with a height under a key leaves the height's bytes there.
  pub get-write_last :
      (ws : List Write) (k : GoString) (h : Height) (s s' : level.Store)
      → level.write_batch (ws ++ put_entry k (to_bytes codec h) ∷ []) s ≡ ok s'
      → level.get_entry k s' ≡ ok (some (to_bytes codec h))
  get-write_last ws k h s s' wrote =
      let (o, before) = law.reads k s in
      rw
        (
          law.get-write k (ws ++ put_entry k (to_bytes codec h) ∷ []) s s' o wrote before,
          written-last k (to_bytes codec h) ws o,
        )
        refl

-- The save point of a batch that was applied is read back, on a store that reads what it has
-- written, for a height of uint64 numbers.
pub get_latest_save_point-apply_updates :
    (codec : VarintCodec) (level : LevelDb)
    → Stores level
    → (batch : UpdateBatch) (height : Height) (s s' : level.Store) → IsUint64 height
    → apply_updates codec level batch height s ≡ ok s'
    → get_latest_save_point codec level s' ≡ ok (some height)
unfolding apply_updates get_latest_save_point height_of
get_latest_save_point-apply_updates codec level law batch height s s' fits applied =
    let (ws, e, wrote) =
      >>=-eq-ok (all_writes codec level (get_updated_namespaces batch) batch)
        (λ ws. level.write_batch (ws ++ put_entry save_point_key (to_bytes codec height) ∷ []) s)
        applied in
    ground (
      arith,
      get-write_last codec level law ws save_point_key height s s' wrote,
      height-back codec height fits,
    )
