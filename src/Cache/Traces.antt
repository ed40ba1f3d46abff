-- ===== src/Cache/Traces.antt =====
-- Sequences of operations on the cache, with the garbage collector's rounds among them.
use mathlib.Core.Path.{ap₂}
use eloan_peer.Prelude.{
  ℕ, ◌≤◌, ◌≡◌, refl, sym, ap, ◌∙◌, Bool, true, false, Option, none, some, List, [], ◌∷◌, Error,
  if◌then◌else◌, arith, Bool-cases, inl, inr,
}
use eloan_peer.Prelude.GoString.{GoString, str_eq}
use eloan_peer.Cache.{
  Cache, delete_expired, delete_item, item_of, set_item, add_item, replace_item, visible, get_item,
  flush,
}
use eloan_peer.Cache.Laws.{get-delete_expired, get-set_item, get-delete_item}

-- A lookup, set, addition, replacement, deletion or flush with the one or two readings of the clock
-- in it, or a round of `gcLoop`. `Count`, `Save` and `Load` are left out: the rounds change what the
-- first two return.
pub data Call (V : Type 0) : Type 0 where
  call_get : GoString → Call V
  call_set : GoString → V → ℕ → Call V
  call_add : GoString → V → ℕ → Call V
  call_replace : GoString → V → ℕ → Call V
  call_delete : GoString → Call V
  call_flush : Call V
  call_gc : Call V

pub record Timed (V : Type 0) : Type 0 where
  pub at : ℕ
  pub until : ℕ
  pub call : Call V

pub data Reply (V : Type 0) : Type 0 where
  got : Option V → Reply V
  returned : Option Error → Reply V

module _ {V : Type 0} where
  unfoldable pub step : ℕ → ℕ → Call V → Cache V → Reply V × Cache V
  step at until (call_get k) c = (got (get_item at k c), c)
  step at until (call_set k v d) c = (returned none, set_item at k v d c)
  step at until (call_add k v d) c =
      (returned (add_item at until k v d c).0, (add_item at until k v d c).1)
  step at until (call_replace k v d) c =
      (returned (replace_item at until k v d c).0, (replace_item at until k v d c).1)
  step at until (call_delete k) c = (returned none, delete_item k c)
  step at until call_flush c = (returned none, flush c)
  step at until call_gc c = (returned none, delete_expired at c)

  abbrev pub is_gc : Call V → Bool
  is_gc call_gc = true
  is_gc _ = false

  -- The replies that the callers see; a round of the collector has none.
  unfoldable pub run : List (Timed V) → Cache V → List (Reply V)
  unfolding step
  run [] c = []
  run (o ∷ os) c =
      let rest = run os (step o.at o.until o.call c).1 in
      if is_gc o.call then rest else (step o.at o.until o.call c).0 ∷ rest

  abbrev pub without_gc : List (Timed V) → List (Timed V)
  without_gc [] = []
  without_gc (o ∷ os) = if is_gc o.call then without_gc os else o ∷ without_gc os

  -- The clock does not go back.
  abbrev pub InOrder : ℕ → List (Timed V) → Type 0
  InOrder t [] = Unit
  InOrder t (o ∷ os) = (t ≤ o.at) × (o.at ≤ o.until) × InOrder o.until os

  -- From the time `t` on, no lookup tells the two caches apart.
  record Agree (t : ℕ) (c c' : Cache V) : Type 0 where
    same_default : c.default_expiration ≡ c'.default_expiration
    same : (later : ℕ) (k : GoString) → t ≤ later → get_item later k c ≡ get_item later k c'

  Agree-later : (t t' : ℕ) (c c' : Cache V) → t ≤ t' → Agree t c c' → Agree t' c c'
  Agree-later t t' c c' h a = record {
    same_default = a.same_default;
    same = λ later k g. a.same later k (omega arith);
  }

  same_item :
      (now d : ℕ) (v : V) (c c' : Cache V)
      → c.default_expiration ≡ c'.default_expiration
      → item_of now v d c ≡ item_of now v d c'
  unfolding item_of
  same_item now d v c c' e = rw e refl

  Agree-set :
      (t now d : ℕ) (k : GoString) (v : V) (c c' : Cache V)
      → Agree t c c'
      → Agree t (set_item now k v d c) (set_item now k v d c')
  Agree-set t now d k v c c' a = record {
    same_default = unfold set_item in a.same_default;
    same = λ later j g.
        get-set_item now later d k j v c
        ∙ ap₂ (λ i o. if str_eq k j then visible later (some i) else o)
            (same_item now d v c c' a.same_default) (a.same later j g)
        ∙ sym (get-set_item now later d k j v c');
  }

  Agree-delete :
      (t : ℕ) (k : GoString) (c c' : Cache V)
      → Agree t c c'
      → Agree t (delete_item k c) (delete_item k c')
  Agree-delete t k c c' a = record {
    same_default = unfold delete_item in a.same_default;
    same = λ later j g.
        get-delete_item later k j c
        ∙ ap (λ o. if str_eq k j then none else o) (a.same later j g)
        ∙ sym (get-delete_item later k j c');
  }

  Agree-gc :
      (t now : ℕ) (c c' : Cache V) → now ≤ t → Agree t c c' → Agree t (delete_expired now c) c'
  Agree-gc t now c c' h a = record {
    same_default = unfold delete_expired in a.same_default;
    same = λ later j g. get-delete_expired now later j c (omega arith) ∙ a.same later j g;
  }

  Agree-flush : (t : ℕ) (c c' : Cache V) → Agree t c c' → Agree t (flush c) (flush c')
  unfolding flush
  Agree-flush t c c' a = record {
    same_default = a.same_default;
    same = λ later k g. unfold get_item in refl;
  }

  -- The same call on two caches that agree.
  abbrev Alike : ℕ → ℕ → Call V → Cache V → Cache V → Type 0
  Alike at until call c c' =
      ((step at until call c).0 ≡ (step at until call c').0)
      × Agree until (step at until call c).1 (step at until call c').1

  add_item-Alike :
      (at until d : ℕ) (k : GoString) (v : V) (c c' : Cache V) (o : Option V)
      → get_item at k c ≡ o
      → get_item at k c' ≡ o
      → Agree until c c'
      → Alike at until (call_add k v d) c c'
  unfolding step add_item
  add_item-Alike at until d k v c c' none e e' a =
      rw (e, e', add_item) (refl, Agree-set until until d k v c c' a)
  add_item-Alike at until d k v c c' (some old) e e' a = rw (e, e', add_item) (refl, a)

  replace_item-Alike :
      (at until d : ℕ) (k : GoString) (v : V) (c c' : Cache V) (o : Option V)
      → get_item at k c ≡ o
      → get_item at k c' ≡ o
      → Agree until c c'
      → Alike at until (call_replace k v d) c c'
  unfolding step replace_item
  replace_item-Alike at until d k v c c' none e e' a = rw (e, e', replace_item) (refl, a)
  replace_item-Alike at until d k v c c' (some old) e e' a =
      rw (e, e', replace_item) (refl, Agree-set until until d k v c c' a)

  step-Alike :
      (at until : ℕ) (call : Call V) (c c' : Cache V)
      → at ≤ until
      → Agree at c c'
      → is_gc call ≡ false
      → Alike at until call c c'
  unfolding step
  step-Alike at until (call_get k) c c' h a n =
      (ap got (a.same at k (omega arith)), Agree-later at until c c' h a)
  step-Alike at until (call_set k v d) c c' h a n =
      (refl, Agree-set until at d k v c c' (Agree-later at until c c' h a))
  step-Alike at until (call_add k v d) c c' h a n =
      add_item-Alike at until d k v c c' (get_item at k c') (a.same at k (omega arith)) refl
        (Agree-later at until c c' h a)
  step-Alike at until (call_replace k v d) c c' h a n =
      replace_item-Alike at until d k v c c' (get_item at k c') (a.same at k (omega arith)) refl
        (Agree-later at until c c' h a)
  step-Alike at until (call_delete k) c c' h a n =
      (refl, Agree-delete until k c c' (Agree-later at until c c' h a))
  step-Alike at until call_flush c c' h a n =
      (refl, Agree-flush until c c' (Agree-later at until c c' h a))
  step-Alike at until call_gc c c' h a n = cc

  run-step :
      (o : Timed V) (os : List (Timed V)) (c c' : Cache V)
      → is_gc o.call ≡ false
      → Alike o.at o.until o.call c c'
      → run os (step o.at o.until o.call c).1 ≡ run (without_gc os) (step o.at o.until o.call c').1
      → run (o ∷ os) c ≡ run (o ∷ without_gc os) c'
  unfolding run
  run-step o os c c' n a e = rw (n) (ap₂ (λ r rs. r ∷ rs) a.0 e)

  gc-Agree :
      (at until : ℕ) (call : Call V) (c c' : Cache V)
      → at ≤ until
      → is_gc call ≡ true
      → Agree at c c'
      → Agree until (step at until call c).1 c'
  unfolding step
  gc-Agree at until (call_get k) c c' h g a = cc
  gc-Agree at until (call_set k v d) c c' h g a = cc
  gc-Agree at until (call_add k v d) c c' h g a = cc
  gc-Agree at until (call_replace k v d) c c' h g a = cc
  gc-Agree at until (call_delete k) c c' h g a = cc
  gc-Agree at until call_flush c c' h g a = cc
  gc-Agree at until call_gc c c' h g a = Agree-gc until at c c' h (Agree-later at until c c' h a)

  run-gc :
      (o : Timed V) (os : List (Timed V)) (c : Cache V)
      → is_gc o.call ≡ true
      → run (o ∷ os) c ≡ run os (step o.at o.until o.call c).1
  unfolding run
  run-gc o os c g = rw g refl

  without_gc-kept :
      (o : Timed V) (os : List (Timed V))
      → is_gc o.call ≡ false
      → without_gc (o ∷ os) ≡ o ∷ without_gc os
  without_gc-kept o os n = rw n refl

  without_gc-dropped :
      (o : Timed V) (os : List (Timed V))
      → is_gc o.call ≡ true
      → without_gc (o ∷ os) ≡ without_gc os
  without_gc-dropped o os n = rw n refl

  run-Agree :
      (t : ℕ) (os : List (Timed V)) (c c' : Cache V)
      → InOrder t os
      → Agree t c c'
      → run os c ≡ run (without_gc os) c'
  run-Agree t [] c c' h a = unfold run in refl
  run-Agree t (o ∷ os) c c' h a =
      let a' = Agree-later t o.at c c' h.0 a in
      elim (Bool-cases (is_gc o.call)) [
        | inl g ↦
            run-gc o os c g
            ∙ run-Agree o.until os (step o.at o.until o.call c).1 c' h.2
                (gc-Agree o.at o.until o.call c c' h.1 g a')
            ∙ ap (λ l. run l c') (sym (without_gc-dropped o os g))
        | inr n ↦
            (let alike = step-Alike o.at o.until o.call c c' h.1 a' n in
              run-step o os c c' n alike (run-Agree o.until os _ _ h.2 alike.1)
              ∙ ap (λ l. run l c') (sym (without_gc-kept o os n)))
      ]

  -- With a clock that does not go back, the rounds of the garbage collector do not show in a
  -- sequence of lookups, sets, additions, replacements, deletions and flushes: each returns what it
  -- returns in the sequence without the rounds.
  pub run-without_gc :
      (t : ℕ) (os : List (Timed V)) (c : Cache V) → InOrder t os → run os c ≡ run (without_gc os) c
  run-without_gc t os c h =
      run-Agree t os c c h (record { same_default = refl; same = λ later k g. refl })
