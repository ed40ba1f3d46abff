-- ===== src/History/Records.antt =====
-- The records of a transaction in a batch of the history database, by the helpers of
-- historyleveldb.go.
use eloan_peer.Prelude.{
  ℕ, zero, suc, ◌≡◌, refl, sym, ap, false, Option, none, some, List, [], ◌∷◌, ◌++◌, All, All-append,
  get_elem?, arith,
}
use mathlib.Core.Path.{subst}
use eloan_peer.Prelude.GoString.{GoString, str_eq, str_eq_refl}
use eloan_peer.Version.Codec.{VarintCodec}
use eloan_peer.Rwset.{KvWrite, NsRwSet}
use eloan_peer.StateLevelDb.{Write, put_entry, delete_entry, save_point_key}
use eloan_peer.StateLevelDb.Stores.{written}
use eloan_peer.History.{construct_composite_history_key, ns_history, set_history}

-- A list of writes with a record under the key.
pub data Puts (k : GoString) : List Write → Type 0 where
  here : {ws : List Write} → Puts k (put_entry k [] ∷ ws)
  there : {w : Write} {ws : List Write} → Puts k ws → Puts k (w ∷ ws)

abbrev pub IsRecord : Write → Type 0
IsRecord w = (k : GoString) × (w ≡ put_entry k [])

pub Puts-left : {k : GoString} {xs : List Write} (ys : List Write) → Puts k xs → Puts k (xs ++ ys)
Puts-left ys here = here
Puts-left ys (there p) = there (Puts-left ys p)

pub Puts-right : {k : GoString} (xs : List Write) {ys : List Write} → Puts k ys → Puts k (xs ++ ys)
Puts-right [] p = p
Puts-right (x ∷ xs) p = there (Puts-right xs p)

-- The save point at the end of a batch is written to another key.
written-recorded :
    (k j v : GoString) (ws : List Write)
    → All IsRecord ws
    → str_eq j k ≡ false
    → written k (ws ++ put_entry j v ∷ []) (some []) ≡ some []
unfolding written
written-recorded k j v [] h ne = ground (arith, ne)
written-recorded k j v (put_entry i u ∷ ws) ((i', e), h) ne =
    ground (arith, written-recorded k j v ws h ne)
written-recorded k j v (delete_entry i ∷ ws) ((i', e), h) ne = cc

pub written-Puts :
    (k j v : GoString) {ws : List Write} (o : Option GoString)
    → All IsRecord ws
    → str_eq j k ≡ false
    → Puts k ws
    → written k (ws ++ put_entry j v ∷ []) o ≡ some []
unfolding written
written-Puts k j v o h ne (here {ws = ws}) =
    ground (arith, str_eq_refl k, written-recorded k j v ws h.1 ne)
written-Puts k j v o h ne (there {w = put_entry i u} p) = written-Puts k j v _ h.1 ne p
written-Puts k j v o h ne (there {w = delete_entry i} p) = written-Puts k j v _ h.1 ne p

pub some-inj : {A : Type 0} {a b : A} → some a ≡ some b → a ≡ b
some-inj {a = a} e = ap (λ o. elim o [ none ↦ a | some x ↦ x ]) e

module _ (codec : VarintCodec) where
  ns_history-records :
      (b t : ℕ) (ns : GoString) (ws : List KvWrite) → All IsRecord (ns_history codec b t ns ws)
  unfolding ns_history
  ns_history-records b t ns [] = tt
  ns_history-records b t ns (w ∷ ws) =
      ((construct_composite_history_key codec ns w.key b t, refl), ns_history-records b t ns ws)

  pub set_history-records :
      (b t : ℕ) (sets : List NsRwSet) → All IsRecord (set_history codec b t sets)
  unfolding set_history
  set_history-records b t [] = tt
  set_history-records b t (s ∷ sets) =
      All-append IsRecord (ns_history codec b t s.name_space s.kv_rw_set.writes)
        (set_history codec b t sets) (ns_history-records b t s.name_space s.kv_rw_set.writes)
        (set_history-records b t sets)

  ns_history-Puts :
      (b t i : ℕ) (ns : GoString) (ws : List KvWrite) (w : KvWrite)
      → get_elem? ws i ≡ some w
      → Puts (construct_composite_history_key codec ns w.key b t) (ns_history codec b t ns ws)
  unfolding ns_history
  ns_history-Puts b t i ns [] w e = cc
  ns_history-Puts b t zero ns (x ∷ ws) w e =
      subst
        (λ v.
          Puts (construct_composite_history_key codec ns v.key b t)
            (ns_history codec b t ns (x ∷ ws)))
        (some-inj e) here
  ns_history-Puts b t (suc i) ns (x ∷ ws) w e = there (ns_history-Puts b t i ns ws w e)

  pub set_history-Puts :
      (b t n i : ℕ) (sets : List NsRwSet) (s : NsRwSet) (w : KvWrite)
      → get_elem? sets n ≡ some s
      → get_elem? s.kv_rw_set.writes i ≡ some w
      → Puts
          (construct_composite_history_key codec s.name_space w.key b t)
          (set_history codec b t sets)
  unfolding set_history
  set_history-Puts b t n i [] s w e f = cc
  set_history-Puts b t zero i (x ∷ sets) s w e f = Puts-left (set_history codec b t sets) (
      subst
        (λ v.
          Puts (construct_composite_history_key codec s.name_space w.key b t)
            (ns_history codec b t v.name_space v.kv_rw_set.writes))
        (sym (some-inj e)) (ns_history-Puts b t i s.name_space s.kv_rw_set.writes w f))
  set_history-Puts b t (suc n) i (x ∷ sets) s w e f =
      Puts-right (ns_history codec b t x.name_space x.kv_rw_set.writes)
        (set_history-Puts b t n i sets s w e f)

  -- A composite key is longer than the key of the save point.
  pub save_point-apart :
      (ns key : GoString) (b t : ℕ)
      → str_eq save_point_key (construct_composite_history_key codec ns key b t) ≡ false
  unfolding construct_composite_history_key str_eq
  save_point-apart [] [] b t = refl
  save_point-apart [] (c ∷ key) b t = refl
  save_point-apart (c ∷ []) key b t = ground arith
  save_point-apart (c ∷ d ∷ ns) key b t = ground arith
