-- ===== src/Tests/Computed.antt =====
-- A computed write over a pending value, and the end of its block.
use eloan_peer.Prelude.{
  ℕ, ◌<◌, length, ◌≡◌, ◌&&◌, if◌then◌else◌, refl, none, some, [], Option, ok, ◌++◌, ◌∷◌, false,
  codes, arith,
}
use eloan_peer.Prelude.GoString.{GoString, str_eq}
use eloan_peer.Prelude.Assoc.{lookup, insert, erase, keys, member}
use eloan_peer.Version.{Height}
use eloan_peer.StateDb
use eloan_peer.StateDb.{
  UpdateBatch, VersionedValue, insert2, ns_or_new, lookup2, get_caled_namespaces,
  get_r_lists_namespaces, get_update_size, get_or_create, get_or_create_ns_cals,
  get_or_create_ns_updates, get_or_create_ns_r_lists,
}
use eloan_peer.VersionedDb.{or_nil}
use eloan_peer.Strconv.{parse_int}
use eloan_peer.Strings.{split}
use eloan_peer.Validator.Computed.{Calc, erase2, count_loop, exist_value, cal_write, int_or_zero}
use eloan_peer.Validator.Computed.Sums.{cal_key, by_method, StartsFrom, cal_write_lem}
use eloan_peer.Validator.Computed.Counts.{count_loop-ends}
use eloan_peer.Validator.Moves.{move_r_lists, move_cals_to_update}
use eloan_peer.Validator.Moves.Sums.{over}
use eloan_peer.Validator.Moves.Whole.{get-move_cals_to_update}
use eloan_peer.Tests.Codecs.{lists}
use eloan_peer.Tests.Fixtures.{ns, key_a, height_1, updates, db, state}

abbrev five : VersionedValue
five = record { value = some (codes "5"); version = some height_1 }

abbrev computing : UpdateBatch
computing = record updates { cals = insert2 ns key_a five [] }

abbrev add_a : GoString
add_a = codes "ADD:a"

five-pending : exist_value db ns (cal_key db ns none add_a) none computing ≡ ok five
unfolding exist_value split lookup2 insert2 ns_or_new lookup insert str_eq
five-pending = refl

cal_write_lem_example :
    StartsFrom db ns none (cal_key db ns none add_a) computing five
    × (updates' : UpdateBatch) × (new : VersionedValue) × (cal_write db ns none add_a
          (some (codes "7"))
          computing
        ≡ ok updates')
    × ((vh' : Option Height) → exist_value db ns (cal_key db ns none add_a) vh' updates' ≡ ok new)
    × (int_or_zero new.value
        ≡ by_method (codes "ADD") (parse_int (codes "7")).value (int_or_zero five.value))
    × (new.version ≡ five.version)
    × ((ns' key' : GoString)
        → (StateDb.get ns' key' updates' ≡ (
            if str_eq ns ns' && str_eq (cal_key db ns none add_a) key'
            then none
            else StateDb.get ns' key' computing))
          × (lookup2 ns' key' updates'.cals ≡ (
              if str_eq ns ns' && str_eq (cal_key db ns none add_a) key'
              then some new
              else lookup2 ns' key' computing.cals)))
cal_write_lem_example =
    cal_write_lem db ns none add_a (some (codes "7")) computing five (omega arith) five-pending

-- A batch with a list in another namespace.
abbrev listing : Calc lists
listing = record {
  updates = record computing { r_lists = insert2 (codes "lists") key_a 0 [] };
  store = tt;
  r_list_cache = none;
  clock = 0;
}

abbrev all_moved : UpdateBatch
all_moved = record {
  updates = insert2 ns key_a five (get_or_create ns updates.updates ++ (codes "lists", []) ∷ []);
  cals = (ns, []) ∷ [];
  r_lists = (codes "lists", []) ∷ [];
  update_num = 3;
  cal_num = 1;
  r_list_num = 0;
}

listing_moved : move_cals_to_update db lists listing ≡ ok (record listing { updates = all_moved })
unfolding move_cals_to_update move_r_lists get_caled_namespaces get_r_lists_namespaces
    get_update_size or_nil lookup2 insert2 ns_or_new lookup insert str_eq keys get_or_create
    get_or_create_ns_cals get_or_create_ns_updates get_or_create_ns_r_lists erase2 erase
listing_moved = refl

plain : member ns (keys listing.updates.r_lists) ≡ false
unfolding insert2 ns_or_new lookup insert str_eq keys member
plain = refl

get-move_cals_to_update_example :
    ((key : GoString)
      → StateDb.get ns key all_moved
        ≡ over (StateDb.get ns key listing.updates) (lookup2 ns key listing.updates.cals))
    × ((ns' key : GoString) → lookup2 ns' key all_moved.cals ≡ none)
get-move_cals_to_update_example =
    get-move_cals_to_update db lists ns listing (record listing { updates = all_moved }) plain
      listing_moved

abbrev text : GoString
text = codes "n=##RCOUNT##a##RCOUNT##"

count_loop-ends_example :
    (p : GoString × UpdateBatch) × ((fuel : ℕ)
      → length text < fuel
      → count_loop db fuel ns none text text computing ≡ ok (some p))
unfolding or_nil
count_loop-ends_example =
    count_loop-ends db ns none text text computing (λ key. (state ns key, refl))
