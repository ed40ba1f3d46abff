-- ===== src/Validator/Computed/Counts.antt =====
-- The loop over the `##RCOUNT##` marks ends.
use eloan_peer.Prelude.{
  ℕ, zero, suc, ◌+◌, ◌<◌, ◌≡◌, refl, ◌∙◌, ◌||◌, Option, some, [], ◌∷◌, ◌++◌, Result, ok, err, ◌>>=◌,
  ltb, ◌==◌, length, length-drop, take, drop, arith, Bool-cases, Option-cases, inl, inr,
}
use eloan_peer.Prelude.GoString.{GoString, str_eq}
use eloan_peer.Version.{Height}
use eloan_peer.StateDb.{UpdateBatch, VersionedValue, lookup2, insert2}
use eloan_peer.VersionedDb.{VersionedDb, or_nil}
use eloan_peer.Strings.{index, replace}
use eloan_peer.Strconv.{format_int}
use eloan_peer.Validator.Computed.{
  r_count, count_loop, count_value, int_or_zero, or_else, zero_value,
}

bind_same {ℓ κ} :
    {A : Type ℓ} {B : Type κ} (m : Result A) (f g : A → Result B)
    → ((a : A) → f a ≡ g a)
    → (m >>= f) ≡ (m >>= g)
bind_same (ok a) f g h = h a
bind_same (err e) f g h = refl

index-not_empty : (s : GoString) (i : ℕ) → index s r_count ≡ some i → 0 < length s
unfolding index str_eq
index-not_empty [] i e = cc
index-not_empty (c ∷ s) i e = omega arith

shorter :
    (fuel b i : ℕ) (rest : GoString)
    → length rest < suc fuel
    → index (drop (b + 10) rest) r_count ≡ some i
    → length (drop (i + 10) (drop (b + 10) rest)) < fuel
shorter fuel b i rest h e = omega (
  arith,
  length-drop (i + 10) (drop (b + 10) rest),
  length-drop (b + 10) rest,
  index-not_empty (drop (b + 10) rest) i e,
)

module _ (db : VersionedDb) (ns : GoString) (vh : Option Height) where
  -- Fuel above the length of the text does not matter.
  count_loop-fuel :
      (fuel fuel' : ℕ) (rest value_str : GoString) (updates : UpdateBatch)
      → length rest < fuel
      → length rest < fuel'
      → count_loop db fuel ns vh rest value_str updates
        ≡ count_loop db fuel' ns vh rest value_str updates
  unfolding count_loop
  count_loop-fuel zero fuel' rest value_str updates h k = absurd (omega arith)
  count_loop-fuel (suc fuel) zero rest value_str updates h k = absurd (omega arith)
  count_loop-fuel (suc fuel) (suc fuel') rest value_str updates h k =
      elim (Option-cases (index rest r_count)) [
        | inl e ↦ rw (e, count_loop) refl
        | inr (b, e) ↦ elim (Option-cases (index (drop (b + 10) rest) r_count)) [
          | inl f ↦ rw (e, f, count_loop) refl
          | inr (i, f) ↦ elim (Bool-cases (i == 0 || ltb 64 i)) [
            | inl g ↦ rw (e, f, g, count_loop) refl
            | inr g ↦
                rw (e, f, g, count_loop)
                  (bind_same (count_value db ns (take i (drop (b + 10) rest)) vh updates) _ _ (λ p.
                    count_loop-fuel fuel fuel' (drop (i + 10) (drop (b + 10) rest))
                      (replace value_str (r_count ++ take i (drop (b + 10) rest) ++ r_count)
                        (format_int (int_or_zero p.0.value)))
                      p.1 (shorter fuel b i rest h f) (shorter fuel' b i rest k f)))
          ]
        ]
      ]

  -- A database that does not panic when it reads a key of the namespace; an error counts as nothing.
  abbrev pub Reads : Type 0
  Reads = (key : GoString) → (o : Option VersionedValue) × (or_nil (db.get_state ns key) ≡ ok o)

  count_value-ok :
      Reads
      → (key : GoString) (updates : UpdateBatch)
      → (p : VersionedValue × UpdateBatch) × (count_value db ns key vh updates ≡ ok p)
  unfolding count_value
  count_value-ok reads key updates = elim (Option-cases (lookup2 ns key updates.cals)) [
    | inr (v, e) ↦ ((v, updates), rw (e, count_value) refl)
    | inl e ↦
        let (o, r) = reads key in
        (
          (
            or_else o (zero_value vh),
            record updates { cals = insert2 ns key (or_else o (zero_value vh)) updates.cals },
          ),
          rw (e, r, count_value) refl,
        )
  ]

  count_loop-some :
      (fuel : ℕ) (rest value_str : GoString) (updates : UpdateBatch)
      → Reads
      → length rest < fuel
      → (p : GoString × UpdateBatch) × (count_loop db fuel ns vh rest value_str updates
          ≡ ok (some p))
  unfolding count_loop
  count_loop-some zero rest value_str updates reads h = absurd (omega arith)
  count_loop-some (suc fuel) rest value_str updates reads h =
      elim (Option-cases (index rest r_count)) [
        | inl e ↦ ((value_str, updates), rw (e, count_loop) refl)
        | inr (b, e) ↦ elim (Option-cases (index (drop (b + 10) rest) r_count)) [
          | inl f ↦ ((value_str, updates), rw (e, f, count_loop) refl)
          | inr (i, f) ↦ elim (Bool-cases (i == 0 || ltb 64 i)) [
            | inl g ↦ ((value_str, updates), rw (e, f, g, count_loop) refl)
            | inr g ↦
                let (q, r) = count_value-ok reads (take i (drop (b + 10) rest)) updates in
                let (p, run) =
                  count_loop-some fuel (drop (i + 10) (drop (b + 10) rest))
                    (replace value_str (r_count ++ take i (drop (b + 10) rest) ++ r_count)
                      (format_int (int_or_zero q.0.value)))
                    q.1 reads (shorter fuel b i rest h f) in
                (p, rw (e, f, g, r, count_loop) run)
          ]
        ]
      ]

  -- Over a database that does not panic, the loop over the marks ends: it has a result, which every
  -- fuel above the length of the text that is still to be searched gives.
  pub count_loop-ends :
      (rest value_str : GoString) (updates : UpdateBatch)
      → Reads
      → (p : GoString × UpdateBatch) × ((fuel : ℕ)
          → length rest < fuel
          → count_loop db fuel ns vh rest value_str updates ≡ ok (some p))
  count_loop-ends rest value_str updates reads =
      let (p, run) =
        count_loop-some (suc (length rest)) rest value_str updates reads (omega arith) in
      (
        p,
        λ fuel low.
            count_loop-fuel fuel (suc (length rest)) rest value_str updates low (omega arith) ∙ run,
      )
