-- ===== src/Rlist/Small/Ids.antt =====
-- The position of an id, and lists without one.
use eloan_peer.Prelude.{
  ℕ, zero, suc, ◌+◌, ◌%◌, ◌≤◌, ◌<◌, ◌≡◌, refl, ap, true, false, ◌||◌, not, ◌&&◌, none, some,
  is_some, List, [], ◌∷◌, ◌++◌, arith, if◌then◌else◌, length, get_elem?, take, drop, leb, ltb,
}
use eloan_peer.Prelude.GoString.{GoString, str_eq, str_eq_iff, str_eq_refl}
use eloan_peer.Prelude.Assoc.{member, Distinct}
use eloan_peer.Strconv.{u64_mod, sign_bit, add_int64}
use eloan_peer.Rlist.{minus_one, int_lt, is_negative}
use eloan_peer.Rlist.Lookup.{count_before}
use eloan_peer.Rlist.Insertion.{clamp}

-- The number of ids before the first that is `id`.
unfoldable pub position : GoString → List GoString → ℕ
position id [] = 0
position id (v ∷ vs) = let rest = suc (position id vs) in if str_eq v id then 0 else rest

-- The ids without the first that is `id`.
unfoldable pub without : GoString → List GoString → List GoString
without id [] = []
without id (v ∷ vs) = let rest = v ∷ without id vs in if str_eq v id then vs else rest

pub count_before_lem :
    (id : GoString) (ids : List GoString) (num : ℕ)
    → num + length ids < u64_mod
    → count_before id ids num ≡ num + position id ids
unfolding count_before position add_int64
count_before_lem id [] num h = omega arith
count_before_lem id (v ∷ vs) num h =
    let e : (num + 1) % u64_mod ≡ num + 1 = omega arith in
    ground (arith, e, count_before_lem id vs (num + 1))

module _ (id : GoString) where
  pub position_bounded : (ids : List GoString) → member id ids ≡ true → position id ids < length ids
  unfolding member position
  position_bounded [] h = cc
  position_bounded (v ∷ vs) h = ground (arith, position_bounded vs)

  pub get_elem?-position :
      (ids : List GoString) → member id ids ≡ true → get_elem? ids (position id ids) ≡ some id
  unfolding member position
  get_elem?-position [] h = cc
  get_elem?-position (v ∷ vs) h = ground (arith, get_elem?-position vs, str_eq_iff v id)

  pub take-position :
      (ids : List GoString)
      → member id ids ≡ true
      → (take (position id ids) ids ++ drop (suc (position id ids)) ids) ≡ without id ids
  unfolding member position without
  take-position [] h = cc
  take-position (v ∷ vs) h = ground (arith, take-position vs)

  pub length-without :
      (ids : List GoString) → member id ids ≡ true → suc (length (without id ids)) ≡ length ids
  unfolding member without
  length-without [] h = cc
  length-without (v ∷ vs) h = ground (arith, length-without vs)

  pub without_absent : (ids : List GoString) → member id ids ≡ false → without id ids ≡ ids
  unfolding member without
  without_absent [] h = refl
  without_absent (v ∷ vs) h = ground (arith, without_absent vs)

  pub member-without :
      (j : GoString) (ids : List GoString)
      → Distinct ids
      → member j (without id ids) ≡ (not (str_eq id j) && member j ids)
  unfolding member without
  member-without j [] h = ground arith
  member-without j (v ∷ vs) h =
      ground (arith, member-without j vs, str_eq_iff v id, str_eq_iff id j, str_eq_iff v j)

  pub Distinct-without : (ids : List GoString) → Distinct ids → Distinct (without id ids)
  unfolding without
  Distinct-without [] h = tt
  Distinct-without (v ∷ vs) h = ground (arith, Distinct-without vs, member-without v vs)

-- A list with `x` at the place `n`, or at the end.
unfoldable pub insert_nth {ℓ} : {A : Type ℓ} → ℕ → A → List A → List A
insert_nth n x [] = x ∷ []
insert_nth zero x (y ∷ l) = x ∷ y ∷ l
insert_nth (suc n) x (y ∷ l) = y ∷ insert_nth n x l

pub take-insert_nth {ℓ} :
    {A : Type ℓ} (n : ℕ) (x : A) (l : List A)
    → n ≤ length l
    → (take n l ++ x ∷ drop n l) ≡ insert_nth n x l
unfolding insert_nth
take-insert_nth zero x [] h = refl
take-insert_nth zero x (y ∷ l) h = refl
take-insert_nth (suc n) x [] h = absurd (omega arith)
take-insert_nth (suc n) x (y ∷ l) h = ap (λ m. y ∷ m) (take-insert_nth n x l (omega arith))

pub append-insert_nth {ℓ} :
    {A : Type ℓ} (x : A) (l : List A) → (l ++ x ∷ []) ≡ insert_nth (length l) x l
unfolding insert_nth
append-insert_nth x [] = refl
append-insert_nth x (y ∷ l) = ap (λ m. y ∷ m) (append-insert_nth x l)

pub member-insert_nth :
    (n : ℕ) (id j : GoString) (ids : List GoString)
    → member j (insert_nth n id ids) ≡ (str_eq id j || member j ids)
unfolding insert_nth member
member-insert_nth n id j [] = refl
member-insert_nth zero id j (v ∷ vs) = refl
member-insert_nth (suc n) id j (v ∷ vs) = ground (arith, member-insert_nth n id j vs)

pub Distinct-insert_nth :
    (n : ℕ) (id : GoString) (ids : List GoString)
    → member id ids ≡ false
    → Distinct ids
    → Distinct (insert_nth n id ids)
unfolding insert_nth member
Distinct-insert_nth n id [] h d = (refl, tt)
Distinct-insert_nth zero id (v ∷ vs) h d = (h, d)
Distinct-insert_nth (suc n) id (v ∷ vs) h d = ground (
  arith,
  Distinct-insert_nth n id vs,
  member-insert_nth n id v vs,
  str_eq_iff v id,
  str_eq_iff id v,
)

pub length-insert_nth {ℓ} :
    {A : Type ℓ} (n : ℕ) (x : A) (l : List A) → length (insert_nth n x l) ≡ suc (length l)
unfolding insert_nth
length-insert_nth n x [] = refl
length-insert_nth zero x (y ∷ l) = refl
length-insert_nth (suc n) x (y ∷ l) = ap suc (length-insert_nth n x l)

-- Numbers below 2^63 are compared as they are.
pub int_lt_small : (a b : ℕ) → a < sign_bit → b < sign_bit → int_lt a b ≡ ltb a b
unfolding int_lt
int_lt_small a b h k =
    let e : (a + sign_bit) % u64_mod ≡ a + sign_bit = omega arith in
    let e' : (b + sign_bit) % u64_mod ≡ b + sign_bit = omega arith in rw (e, e') (ground arith)

pub not_negative : (a : ℕ) → a < sign_bit → is_negative a ≡ false
unfolding is_negative
not_negative a h = ground arith

-- `-1` takes one away.
pub add_minus_one : (n : ℕ) → suc n < u64_mod → add_int64 (suc n) minus_one ≡ n
unfolding add_int64
add_minus_one n h = omega arith

pub shrunk :
    (id : GoString) (ids : List GoString) (n : ℕ)
    → member id ids ≡ true
    → n ≡ length ids
    → length ids < sign_bit
    → add_int64 n minus_one ≡ length (without id ids)
unfolding add_int64
shrunk id ids n h e k = omega (arith, length-without id ids h)

-- The place that an index names: a negative one the front, one out of range the end.
unfoldable pub nearest : ℕ → ℕ → ℕ
nearest size index = if leb sign_bit index then 0 else if ltb size index then size else index

pub nearest-le : (size index : ℕ) → nearest size index ≤ size
unfolding nearest
nearest-le size index = ground arith

pub clamp_lem : (size index : ℕ) → size < sign_bit → clamp size index ≡ nearest size index
unfolding clamp nearest is_negative
clamp_lem size index h = ground (arith, int_lt_small size index h, int_lt_small size 0 h)

pub nearest_self : (size index : ℕ) → index ≤ size → size < sign_bit → nearest size index ≡ index
unfolding nearest
nearest_self size index h k = ground arith

pub grown :
    (n : ℕ) (id : GoString) (ids : List GoString) (size : ℕ)
    → size ≡ length ids
    → suc (length ids) < sign_bit
    → add_int64 size 1 ≡ length (insert_nth n id ids)
unfolding add_int64
grown n id ids size e k = omega (arith, length-insert_nth n id ids)

pub member-without_self :
    (id : GoString) (ids : List GoString) → Distinct ids → member id (without id ids) ≡ false
member-without_self id ids h = ground (arith, member-without id id ids h, str_eq_refl id)

pub nearest_end : (size index : ℕ) → size ≤ index → index < sign_bit → nearest size index ≡ size
unfolding nearest
nearest_end size index h k = ground arith

pub length-without-le : (id : GoString) (ids : List GoString) → length (without id ids) ≤ length ids
unfolding without
length-without-le id [] = omega arith
length-without-le id (v ∷ vs) = ground (arith, length-without-le id vs)

-- The id at an index, empty where there is none.
unfoldable pub id_at : ℕ → List GoString → GoString
id_at index ids =
    if leb sign_bit index then [] else elim (get_elem? ids index) [ none ↦ [] | some id ↦ id ]

pub is_some-get_elem? {ℓ} :
    {A : Type ℓ} (xs : List A) (i : ℕ) → is_some (get_elem? xs i) ≡ ltb i (length xs)
is_some-get_elem? [] i = ground arith
is_some-get_elem? (x ∷ xs) zero = ground arith
is_some-get_elem? (x ∷ xs) (suc i) = ground (arith, is_some-get_elem? xs i)
