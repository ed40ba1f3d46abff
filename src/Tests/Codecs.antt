-- ===== src/Tests/Codecs.antt =====
-- Round trips over small codecs, and an envelope whose transaction is empty.
use mathlib.Core.Path.{subst}
use eloan_peer.Prelude.{
  ℕ, ◌≡◌, ◌++◌, refl, true, none, some, List, [], ◌∷◌, Result, ok, err, panic, ◌>>=◌, codes, length,
}
use eloan_peer.Prelude.GoString.{GoString}
use eloan_peer.Version.Codec.{
  VarintCodec, to_bytes, new_height_from_bytes, new_height_from_bytes-to_bytes,
}
use eloan_peer.StateDb.Value.{bytes_of, encode_value, decode_value, decode_value-encode_value}
use eloan_peer.StateLevelDb.{construct_composite_key, split_composite_key}
use eloan_peer.StateLevelDb.Keys.{split_composite_key-construct_composite_key}
use eloan_peer.Rwset.{KvRead, KvRwSet, TxRwSet}
use eloan_peer.Rwset.Codec.{
  ProtoCodec, to_proto_bytes, from_proto_bytes, from_proto_sets, to_proto_sets,
  from_proto_bytes-to_proto_bytes,
}
use eloan_peer.RLists.{RLists}
use eloan_peer.Validator.Computed.{Calc}
use eloan_peer.Validator.Transactions.{
  Endorsed, valid, validate_endorser_tx, validate_tx, validate_sets, checked, decoded, accepted,
  accepted_as,
}
use eloan_peer.Validator.Transactions.Consistency.{IsConsistent, validate_endorser_tx-IsConsistent}
use eloan_peer.Tests.Fixtures.{ns, key_a, height_2, small_2, updates, db}

abbrev pub one_symbol : ℕ → GoString
one_symbol n = n ∷ []

abbrev pub first_symbol : GoString → Result (ℕ × ℕ)
first_symbol [] = err panic
first_symbol (c ∷ s) = ok (c, 1)

abbrev pub codec : VarintCodec
codec = record { encode = one_symbol; decode = first_symbol; decode-encode = λ n rest h. refl }

new_height_from_bytes-to_bytes_example :
    new_height_from_bytes codec (to_bytes codec height_2 ++ codes "v")
    ≡ ok (height_2, length (to_bytes codec height_2))
new_height_from_bytes-to_bytes_example =
    new_height_from_bytes-to_bytes codec height_2 (codes "v") small_2

decode_value-encode_value_example :
    (encode_value codec (some (codes "v")) (some height_2) >>= decode_value codec)
    ≡ ok (bytes_of (some (codes "v")), height_2)
decode_value-encode_value_example =
    decode_value-encode_value codec (some (codes "v")) height_2 small_2

split_composite_key-construct_composite_key_example :
    split_composite_key (construct_composite_key ns key_a) ≡ ok (ns, key_a)
split_composite_key-construct_composite_key_example =
    split_composite_key-construct_composite_key ns key_a (refl, (refl, (refl, (refl, tt))))

abbrev empty_set : KvRwSet
empty_set = record { reads = []; range_queries_info = []; writes = [] }

-- A codec for empty sets and lists of at most one of them.
abbrev names : List (GoString × GoString) → GoString
names [] = []
names ((n, b) ∷ l) = 1 ∷ n

abbrev pairs : GoString → List (GoString × GoString)
pairs [] = []
pairs (c ∷ n) = (n, []) ∷ []

abbrev pub proto : ProtoCodec
proto = record {
  marshal_kv = λ s. ok [];
  unmarshal_kv = λ b. ok empty_set;
  marshal_tx = λ l. ok (names l);
  unmarshal_tx = λ b. ok (pairs b);
}

abbrev tx : TxRwSet
tx = record { ns_rw_sets = record { name_space = ns; kv_rw_set = empty_set } ∷ [] }

tx-IsMarshalled :
    (l : List (GoString × GoString))
    → to_proto_sets proto tx.ns_rw_sets ≡ ok l
    → (bytes : GoString) × (ok (names l) ≡ ok bytes) × (ok (pairs bytes) ≡ ok l)
unfolding to_proto_sets
tx-IsMarshalled l e =
    let q : (ns, []) ∷ [] ≡ l = cc in
    subst (λ l. (bytes : GoString) × (ok (names l) ≡ ok bytes) × (ok (pairs bytes) ≡ ok l)) q
      (1 ∷ ns, refl, refl)

from_proto_bytes-to_proto_bytes_example :
    (to_proto_bytes proto tx >>= from_proto_bytes proto) ≡ ok tx
from_proto_bytes-to_proto_bytes_example =
    from_proto_bytes-to_proto_bytes proto tx (([], refl, refl), tt) tx-IsMarshalled

-- Lists that keep nothing.
abbrev pub lists : RLists
lists = record {
  Store = Unit {0};
  new_r_list = λ n k s. ok (0, s);
  add_id = λ r k s. ok s;
  add_index_id = λ r i k s. ok s;
  remove_id = λ r k s. ok s;
  save_state = λ r s. ok s;
  take_put_stub = λ r s. ([], s);
}

abbrev calc : Calc lists
calc = record { updates = updates; store = tt; r_list_cache = none; clock = 0 }

abbrev serialize : List KvRead → Result GoString
serialize rs = ok []

abbrev hasher : GoString → Result GoString
hasher b = ok b

abbrev clock : ℕ → ℕ
clock n = n

abbrev envelope : GoString → Result GoString
envelope b = ok b

abbrev endorsed : Endorsed db serialize hasher 9 lists clock
endorsed = record { tx_rw_set = some (record { ns_rw_sets = [] }); tx_result = valid; calc = calc }

empty-endorsed :
    validate_endorser_tx db serialize hasher 9 lists clock proto envelope true [] calc ≡ ok endorsed
unfolding validate_endorser_tx decoded checked accepted accepted_as validate_tx validate_sets
    from_proto_bytes from_proto_sets
empty-endorsed = refl

validate_endorser_tx-IsConsistent_example : IsConsistent db serialize hasher 9 lists clock endorsed
validate_endorser_tx-IsConsistent_example =
    validate_endorser_tx-IsConsistent db serialize hasher 9 lists clock proto envelope true [] calc
      endorsed empty-endorsed
