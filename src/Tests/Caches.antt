-- ===== src/Tests/Caches.antt =====
-- A cached item that the garbage collector sweeps away after its end.
use eloan_peer.Prelude.{ℕ, ◌≡◌, ◌+◌, if◌then◌else◌, none, some, List, [], ◌∷◌, leb, arith}
use eloan_peer.Prelude.GoString.{str_eq}
use eloan_peer.Cache.{Cache, get_item, set_item}
use eloan_peer.Cache.Laws.{get-set_lem}
use eloan_peer.Cache.Traces.{Timed, call_get, call_set, call_gc, run, without_gc, run-without_gc}
use eloan_peer.Tests.Fixtures.{key_a, key_b}

abbrev empty : Cache ℕ
empty = record { default_expiration = 60; items = []; gc_interval = 3 }

abbrev calls : List (Timed ℕ)
calls =
    record { at = 5; until = 5; call = call_set key_a 7 30 }
    ∷ record { at = 40; until = 40; call = call_gc }
    ∷ record { at = 41; until = 42; call = call_get key_a }
    ∷ []

run-without_gc_example : run calls empty ≡ run (without_gc calls) empty
run-without_gc_example =
    run-without_gc 0 calls empty
      (omega arith, omega arith, (omega arith, omega arith, (omega arith, omega arith, tt)))

get-set_lem_example : get_item 20 key_b (set_item 5 key_a 7 30 empty) ≡ (
    if str_eq key_a key_b
    then (if leb 20 (5 + 30) then some 7 else none)
    else get_item 20 key_b empty)
get-set_lem_example = get-set_lem 5 20 30 key_a key_b 7 empty (omega arith) (omega arith)
