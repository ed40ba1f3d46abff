-- ===== src/StateLevelDb/Keys.antt =====
-- The composite keys: a namespace without zero bytes and a key.
use eloan_peer.Prelude.{◌==◌, ◌≡◌, refl, false, [], ◌∷◌, ok, All}
use eloan_peer.Prelude.GoString.{GoString}
use eloan_peer.StateLevelDb.{construct_composite_key, split_composite_key}

abbrev pub HasNoZero : GoString → Type 0
HasNoZero = All (λ c. (c == 0) ≡ false)

-- A composite key of a namespace without zero bytes is split into the namespace and the key that it
-- was made of.
pub split_composite_key-construct_composite_key :
    (ns key : GoString)
    → HasNoZero ns
    → split_composite_key (construct_composite_key ns key) ≡ ok (ns, key)
unfolding split_composite_key construct_composite_key
split_composite_key-construct_composite_key [] key h = refl
split_composite_key-construct_composite_key (c ∷ ns) key h =
    rw (h.0, split_composite_key-construct_composite_key ns key h.1) refl
