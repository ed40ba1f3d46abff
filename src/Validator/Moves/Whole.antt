-- ===== src/Validator/Moves/Whole.antt =====
-- The whole of `moveCalsToUpdate` for a namespace without lists: what the lists write does not touch
-- it.
use eloan_peer.Prelude.{
  ◌≡◌, refl, sym, ap, ◌∙◌, false, Option, none, List, [], ◌∷◌, ok, >>=-eq-ok, arith, Option-cases,
  inl, inr,
}
use mathlib.Core.Path.{subst}
use eloan_peer.Prelude.GoString.{GoString, str_eq, str_eq_symm}
use eloan_peer.Prelude.Assoc.{keys, member}
use eloan_peer.Version.{Height}
use eloan_peer.StateDb
use eloan_peer.StateDb.{
  UpdateBatch, VersionedValue, RListRef, lookup2, ns_or_new, get_or_create_ns_updates,
  get_or_create_ns_cals, get_or_create_ns_r_lists, get_caled_namespaces, get_r_lists_namespaces,
}
use eloan_peer.StateDb.Batch.{lookup2-insert2}
use eloan_peer.VersionedDb.{VersionedDb, or_nil}
use eloan_peer.RLists.{RLists}
use eloan_peer.Validator.Computed.{Calc}
use eloan_peer.Validator.Moves.{
  move_cal, move_keys, move_ns_cals, move_cals, put_stubs, move_r_list, move_r_list_keys,
  move_r_lists, move_cals_to_update,
}
use eloan_peer.Validator.Moves.Sums.{over, get-move_cals, lookup2-get_or_create}

-- The computed values and the plain writes of a namespace are as before.
unfoldable Keeps : GoString → UpdateBatch → UpdateBatch → Type 0
Keeps ns b b' =
    ((key : GoString) → lookup2 ns key b'.updates ≡ lookup2 ns key b.updates) × (b'.cals ≡ b.cals)

Keeps-trans : (ns : GoString) (a b c : UpdateBatch) → Keeps ns a b → Keeps ns b c → Keeps ns a c
unfolding Keeps
Keeps-trans ns a b c (u, w) (u', w') = (λ key. u' key ∙ u key, w' ∙ w)

r_lists-move_cal :
    (ns k : GoString) (batch : UpdateBatch) → (move_cal ns k batch).r_lists ≡ batch.r_lists
unfolding move_cal
r_lists-move_cal ns k batch = elim (Option-cases (lookup2 ns k batch.cals)) [
  | inl e ↦ rw (e, move_cal) refl
  | inr (v, e) ↦ elim (Option-cases (lookup2 ns k batch.updates)) [
    | inl c ↦ rw (e, c, move_cal) refl
    | inr (w, c) ↦ rw (e, c, move_cal) refl
  ]
]

r_lists-move_keys :
    (ns : GoString) (ks : List GoString) (batch : UpdateBatch)
    → (move_keys ns ks batch).r_lists ≡ batch.r_lists
unfolding move_keys
r_lists-move_keys ns [] batch = refl
r_lists-move_keys ns (k ∷ ks) batch =
    r_lists-move_keys ns ks (move_cal ns k batch) ∙ r_lists-move_cal ns k batch

r_lists-move_cals :
    (l : List GoString) (batch : UpdateBatch) → (move_cals l batch).r_lists ≡ batch.r_lists
unfolding move_cals move_ns_cals get_or_create_ns_cals get_or_create_ns_updates
r_lists-move_cals [] batch = refl
r_lists-move_cals (ns ∷ l) batch =
    r_lists-move_cals l (move_ns_cals ns batch)
    ∙ (let created = get_or_create_ns_cals ns (get_or_create_ns_updates ns batch) in
        r_lists-move_keys ns (keys (ns_or_new ns created.cals)) created)

module _ (db : VersionedDb) (lists : RLists) (ns ns' : GoString)
    (other : str_eq ns' ns ≡ false) where
  put_stubs-Keeps :
      (vh : Option Height) (l : List (GoString × Option GoString)) (b : UpdateBatch)
      → Keeps ns b (put_stubs db lists ns' vh l b)
  unfolding Keeps put_stubs
  put_stubs-Keeps vh [] b = (λ key. refl, refl)
  put_stubs-Keeps vh ((j, value) ∷ l) b =
      let v : VersionedValue = record { value = value; version = vh } in
      let (u, w) = put_stubs-Keeps vh l _ in
      (λ key. u key ∙ lookup2-insert2 ns' j ns key v b.updates ∙ rw other refl, w)

  move_r_list-Keeps :
      (vh : Option Height) (r : RListRef) (s s' : Calc lists)
      → move_r_list db lists ns' vh r s ≡ ok s'
      → Keeps ns s.updates s'.updates
  unfolding move_r_list
  move_r_list-Keeps vh r s s' e =
      let (store, saved, rest) = >>=-eq-ok (lists.save_state r s.store) _ e in
      let same : record s {
        store = (lists.take_put_stub r store).1;
        updates = put_stubs db lists ns' vh (lists.take_put_stub r store).0 s.updates;
      }
          ≡ s' =
        cc in
      subst (λ o. Keeps ns s.updates o.updates) same
        (put_stubs-Keeps vh (lists.take_put_stub r store).0 s.updates)

  move_r_list_keys-Keeps :
      (vh : Option Height) (ks : List GoString) (s s' : Calc lists)
      → move_r_list_keys db lists ns' vh ks s ≡ ok s'
      → Keeps ns s.updates s'.updates
  unfolding move_r_list_keys Keeps
  move_r_list_keys-Keeps vh [] s s' e =
      let same : s ≡ s' = cc in subst (λ o. Keeps ns s.updates o.updates) same (λ key. refl, refl)
  move_r_list_keys-Keeps vh (k ∷ ks) s s' e =
      elim (Option-cases (lookup2 ns' k s.updates.r_lists)) [
        | inl c ↦ move_r_list_keys-Keeps vh ks s s' (rw (c, move_r_list_keys) at e)
        | inr (r, c) ↦
            let (t, first, rest) =
              >>=-eq-ok (move_r_list db lists ns' vh r s) _ (rw (c, move_r_list_keys) at e) in
            Keeps-trans ns s.updates t.updates s'.updates (move_r_list-Keeps vh r s t first)
              (move_r_list_keys-Keeps vh ks _ s' rest)
      ]

module _ (db : VersionedDb) (lists : RLists) (ns : GoString) where
  move_r_lists-Keeps :
      (l : List GoString) (s s' : Calc lists)
      → member ns l ≡ false
      → move_r_lists db lists l s ≡ ok s'
      → Keeps ns s.updates s'.updates
  unfolding move_r_lists member Keeps get_or_create_ns_r_lists get_or_create_ns_updates
  move_r_lists-Keeps [] s s' h e =
      let same : s ≡ s' = cc in subst (λ o. Keeps ns s.updates o.updates) same (λ key. refl, refl)
  move_r_lists-Keeps (n ∷ l) s s' h e =
      let (vh, read, rest) = >>=-eq-ok (or_nil db.get_latest_save_point) _ e in
      let created = get_or_create_ns_r_lists n (get_or_create_ns_updates n s.updates) in
      let (t, first, later) =
        >>=-eq-ok
          (move_r_list_keys db lists n vh (keys (ns_or_new n created.r_lists))
            (record s { updates = created }))
          _ rest in
      let other : str_eq n ns ≡ false = ground (arith, h, str_eq_symm n ns) in
      let out : member ns l ≡ false = ground (arith, h) in
      Keeps-trans ns s.updates created s'.updates
        (λ key. lookup2-get_or_create n ns key s.updates.updates, refl)
        (Keeps-trans ns created t.updates s'.updates
          (move_r_list_keys-Keeps db lists ns n other vh (keys (ns_or_new n created.r_lists))
            (record s { updates = created }) t first)
          (move_r_lists-Keeps l t s' out later))

  -- `moveCalsToUpdate`, where it succeeds, leaves in a namespace without lists exactly this: every
  -- key holds the block's plain write of it, if there is one, and else the value that was computed
  -- for it. No computed value is left over in any namespace.
  pub get-move_cals_to_update :
      (s s' : Calc lists)
      → member ns (keys s.updates.r_lists) ≡ false
      → move_cals_to_update db lists s ≡ ok s'
      → ((key : GoString)
          → StateDb.get ns key s'.updates
            ≡ over (StateDb.get ns key s.updates) (lookup2 ns key s.updates.cals))
        × ((ns' key : GoString) → lookup2 ns' key s'.updates.cals ≡ none)
  unfolding move_cals_to_update StateDb.get get_caled_namespaces get_r_lists_namespaces Keeps
  get-move_cals_to_update s s' none_here e =
      let reset = record s.updates { cal_num = 0; r_list_num = 0 } in
      let moved = move_cals (keys s.updates.cals) reset in
      let (t, run, rest) =
        >>=-eq-ok (move_r_lists db lists (keys moved.r_lists) (record s { updates = moved })) _ e in
      let out : member ns (keys moved.r_lists) ≡ false =
        rw (r_lists-move_cals (keys s.updates.cals) reset) none_here in
      let (u, w) =
        move_r_lists-Keeps (keys moved.r_lists) (record s { updates = moved }) t out run in
      let plain : t.updates.updates ≡ s'.updates.updates = cc in
      let left : t.updates.cals ≡ s'.updates.cals = cc in
      (
        λ key. ap (lookup2 ns key) (sym plain) ∙ u key ∙ (get-move_cals ns key reset).0,
        λ ns' key. ap (lookup2 ns' key) (sym left ∙ w) ∙ (get-move_cals ns' key reset).1,
      )
