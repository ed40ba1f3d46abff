-- ===== src/Prelude/Assoc.antt =====
-- Go maps with string keys, as association lists without repeated keys.
use mathlib.Core.Path.{◌≡◌, refl}
use mathlib.Core.Bool.{Bool, false, not, ◌&&◌, ◌||◌}
use mathlib.Core.Option.{Option, none, some}
use mathlib.Core.List.{List, [], ◌∷◌}
use native.Mathlib.Omega.{arith}
use eloan_peer.Prelude.Tests.{if◌then◌else◌, is_some}
use eloan_peer.Prelude.GoString.{GoString, str_eq, str_eq_iff, str_eq_refl}

abbrev pub Assoc {ℓ} : Type ℓ → Type ℓ
Assoc V = List (GoString × V)

unfoldable pub member : GoString → List GoString → Bool
member k [] = false
member k (j ∷ l) = str_eq j k || member k l

abbrev pub Distinct : List GoString → Type 0
Distinct [] = Unit
Distinct (k ∷ l) = (member k l ≡ false) × Distinct l

module _ {ℓ} {V : Type ℓ} where
  -- `v, ok := m[k]`
  unfoldable pub lookup : GoString → Assoc V → Option V
  lookup k [] = none
  lookup k ((j, v) ∷ m) = if str_eq j k then some v else lookup k m

  -- `m[k] = v`
  unfoldable pub insert : GoString → V → Assoc V → Assoc V
  insert k v [] = (k, v) ∷ []
  insert k v ((j, w) ∷ m) = if str_eq j k then (j, v) ∷ m else (j, w) ∷ insert k v m

  -- `delete(m, k)`
  unfoldable pub erase : GoString → Assoc V → Assoc V
  erase k [] = []
  erase k ((j, v) ∷ m) = let rest = erase k m in if str_eq j k then rest else (j, v) ∷ rest

  -- `for k := range m`
  unfoldable pub keys : Assoc V → List GoString
  keys [] = []
  keys ((j, v) ∷ m) = j ∷ keys m

  pub lookup-insert :
      (k j : GoString) (v : V) (m : Assoc V)
      → lookup j (insert k v m) ≡ (if str_eq k j then some v else lookup j m)
  unfolding lookup insert
  lookup-insert k j v [] = refl
  lookup-insert k j v ((i, w) ∷ m) =
      ground (arith, str_eq_iff k j, str_eq_iff i k, str_eq_iff i j, lookup-insert k j v m)

  pub lookup-erase :
      (k j : GoString) (m : Assoc V)
      → lookup j (erase k m) ≡ (if str_eq k j then none else lookup j m)
  unfolding lookup erase
  lookup-erase k j [] = ground arith
  lookup-erase k j ((i, w) ∷ m) =
      ground (arith, str_eq_iff k j, str_eq_iff i k, str_eq_iff i j, lookup-erase k j m)

  pub member-keys : (k : GoString) (m : Assoc V) → member k (keys m) ≡ is_some (lookup k m)
  unfolding member keys lookup
  member-keys k [] = refl
  member-keys k ((j, v) ∷ m) = ground (arith, member-keys k m)

  pub member-keys-insert :
      (j k : GoString) (v : V) (m : Assoc V)
      → member j (keys (insert k v m)) ≡ (str_eq k j || member j (keys m))
  unfolding member keys insert
  member-keys-insert j k v [] = refl
  member-keys-insert j k v ((i, w) ∷ m) =
      ground (arith, member-keys-insert j k v m, str_eq_iff i k, str_eq_iff k j, str_eq_iff i j)

  pub member-keys-erase :
      (j k : GoString) (m : Assoc V)
      → member j (keys (erase k m)) ≡ (not (str_eq k j) && member j (keys m))
  unfolding member keys erase
  member-keys-erase j k [] = ground arith
  member-keys-erase j k ((i, w) ∷ m) =
      ground (arith, member-keys-erase j k m, str_eq_iff i k, str_eq_iff k j, str_eq_iff i j)

  pub Distinct-insert :
      (k : GoString) (v : V) (m : Assoc V) → Distinct (keys m) → Distinct (keys (insert k v m))
  unfolding keys insert
  Distinct-insert k v [] h = (unfold member in refl, tt)
  Distinct-insert k v ((i, w) ∷ m) h =
      ground
        (arith, Distinct-insert k v m, member-keys-insert i k v m, str_eq_iff i k, str_eq_iff k i)

  pub Distinct-erase :
      (k : GoString) (m : Assoc V) → Distinct (keys m) → Distinct (keys (erase k m))
  unfolding keys erase
  Distinct-erase k [] h = tt
  Distinct-erase k ((i, w) ∷ m) h = ground (arith, Distinct-erase k m, member-keys-erase i k m)

pub ruleset assoc_laws = (lookup-insert, lookup-erase, str_eq_refl)
