-- ===== src/Registered/Pointers.antt =====
-- The list of pointers when an operation is registered and when it completes.
use mathlib.Core.Path.{subst}
use cc_mqtt311_libs.Base.{
  ℕ, ◌≤◌, ◌<◌, ◌≡◌, refl, sym, ap, ◌∙◌, true, false, inl, inr, Option, none, some, List, [], ◌∷◌,
  ◌++◌, ◌==◌, ==_iff, if◌then◌else◌, erase_first, keep_if, All, All-append, Bool-cases, arith,
}
use cc_mqtt311_libs.PacketIds.{nat_order}
use cc_mqtt311_libs.Client.{
  OpPtr, OpType, connects, keeps_alive, disconnects, subscribes, unsubscribes, receives, sends,
}
use cc_mqtt311_libs.Client.Registry.{nullify, is_live}
use cc_mqtt311_libs.Registered.{same_type, type_tag, ids_of, live_ids, has, Distinct, PointerFits}

abbrev pub erase_id : ℕ → List ℕ → List ℕ
erase_id id xs = erase_first (λ i. i == id) xs

pub same_type_refl : (t : OpType) → same_type t t ≡ true
same_type_refl t = ground arith

-- The type of a tag.
type_of : ℕ → OpType
type_of n =
    if n == 0
    then connects
    else if n == 1
    then keeps_alive
    else if n == 2
    then disconnects
    else if n == 3
    then subscribes
    else if n == 4
    then unsubscribes
    else if n == 5
    then receives
    else sends

type_of-tag : (t : OpType) → type_of (type_tag t) ≡ t
unfolding type_of
type_of-tag connects = refl
type_of-tag keeps_alive = refl
type_of-tag disconnects = refl
type_of-tag subscribes = refl
type_of-tag unsubscribes = refl
type_of-tag receives = refl
type_of-tag sends = refl

pub same_type_eq : (s t : OpType) → same_type s t ≡ true → s ≡ t
same_type_eq s t h =
    sym (type_of-tag s) ∙ ap type_of ((==_iff (type_tag s) (type_tag t)).0 h) ∙ type_of-tag t

-- Lists of identities.
pub has-All : (P : ℕ → Type 0) (id : ℕ) (xs : List ℕ) → All P xs → has id xs ≡ true → P id
has-All P id [] a h = cc
has-All P id (x ∷ xs) a h = elim (Bool-cases (x == id)) [
  | inl e ↦ subst P ((==_iff x id).0 e) a.0
  | inr e ↦ has-All P id xs a.1 (ground (arith, h))
]

pub All-erase_id : (P : ℕ → Type 0) (id : ℕ) (xs : List ℕ) → All P xs → All P (erase_id id xs)
All-erase_id P id [] a = a
All-erase_id P id (x ∷ xs) a = elim (Bool-cases (x == id)) [
  | inl e ↦ rw e a.1
  | inr e ↦ rw e (a.0, All-erase_id P id xs a.1)
]

pub Distinct-erase_id : (id : ℕ) (xs : List ℕ) → Distinct xs → Distinct (erase_id id xs)
Distinct-erase_id id [] d = d
Distinct-erase_id id (x ∷ xs) d = elim (Bool-cases (x == id)) [
  | inl e ↦ rw e d.1
  | inr e ↦ rw e (All-erase_id _ id xs d.0, Distinct-erase_id id xs d.1)
]

-- A number above all is new.
pub Distinct-append :
    (n : ℕ) (xs : List ℕ) → All (λ i. i < n) xs → Distinct xs → Distinct (xs ++ n ∷ [])
Distinct-append n [] a d = (tt, tt)
Distinct-append n (x ∷ xs) a d =
    (All-append _ xs (n ∷ []) d.0 (ground (arith, a.0), tt), Distinct-append n xs a.1 d.1)

pub All-weaken : (n m : ℕ) (xs : List ℕ) → n ≤ m → All (λ i. i < n) xs → All (λ i. i < m) xs
All-weaken n m [] h a = tt
All-weaken n m (x ∷ xs) h a = (omega (arith, h, a.0), All-weaken n m xs h a.1)

-- Completion: the pointer is nulled.
pub ids_of-nullify :
    (t s : OpType) (id : ℕ) (ps : List (Option OpPtr))
    → All (PointerFits t id) ps
    → ids_of s (nullify id ps) ≡ (if same_type t s then erase_id id (ids_of s ps) else ids_of s ps)
ids_of-nullify t s id [] a = ground arith
ids_of-nullify t s id (none ∷ ps) a = ids_of-nullify t s id ps a.1
ids_of-nullify t s id (some p ∷ ps) a = elim (Bool-cases (p.id == id)) [
  | inl e ↦
      rw (e, a.0 e)
        (elim (Bool-cases (same_type t s)) [ inl f ↦ rw (f, e) refl | inr f ↦ rw f refl ])
  | inr e ↦ ground (arith, ids_of-nullify t s id ps a.1)
]

pub live_ids-nullify :
    (id : ℕ) (ps : List (Option OpPtr)) → live_ids (nullify id ps) ≡ erase_id id (live_ids ps)
live_ids-nullify id [] = refl
live_ids-nullify id (none ∷ ps) = live_ids-nullify id ps
live_ids-nullify id (some p ∷ ps) = ground (arith, live_ids-nullify id ps)

pub fits-nullify :
    (t : OpType) (i id : ℕ) (ps : List (Option OpPtr))
    → All (PointerFits t i) ps
    → All (PointerFits t i) (nullify id ps)
fits-nullify t i id [] a = tt
fits-nullify t i id (none ∷ ps) a = (tt, fits-nullify t i id ps a.1)
fits-nullify t i id (some p ∷ ps) a = elim (Bool-cases (p.id == id)) [
  | inl e ↦ rw e (tt, a.1)
  | inr e ↦ rw e (a.0, fits-nullify t i id ps a.1)
]

-- Cleaning: the null pointers are taken out.
pub ids_of-keep_if :
    (s : OpType) (ps : List (Option OpPtr)) → ids_of s (keep_if is_live ps) ≡ ids_of s ps
ids_of-keep_if s [] = refl
ids_of-keep_if s (none ∷ ps) = ids_of-keep_if s ps
ids_of-keep_if s (some p ∷ ps) = ground (arith, ids_of-keep_if s ps)

pub live_ids-keep_if : (ps : List (Option OpPtr)) → live_ids (keep_if is_live ps) ≡ live_ids ps
live_ids-keep_if [] = refl
live_ids-keep_if (none ∷ ps) = live_ids-keep_if ps
live_ids-keep_if (some p ∷ ps) = rw (live_ids-keep_if ps) refl

pub fits-keep_if :
    (t : OpType) (i : ℕ) (ps : List (Option OpPtr))
    → All (PointerFits t i) ps
    → All (PointerFits t i) (keep_if is_live ps)
fits-keep_if t i [] a = tt
fits-keep_if t i (none ∷ ps) a = fits-keep_if t i ps a.1
fits-keep_if t i (some p ∷ ps) a = (a.0, fits-keep_if t i ps a.1)

-- Registration: a pointer is put last.
pub ids_of-append :
    (s : OpType) (ps : List (Option OpPtr)) (p : OpPtr)
    → ids_of s (ps ++ some p ∷ [])
      ≡ (if same_type p.op_type s then ids_of s ps ++ p.id ∷ [] else ids_of s ps)
ids_of-append s [] p = refl
ids_of-append s (none ∷ ps) p = ids_of-append s ps p
ids_of-append s (some q ∷ ps) p = elim (Bool-cases (same_type q.op_type s)) [
  | inl e ↦ rw e (elim (Bool-cases (same_type p.op_type s)) [
    | inl f ↦ rw (f, ids_of-append s ps p) (rw f refl)
    | inr f ↦ rw (f, ids_of-append s ps p) (rw f refl)
  ])
  | inr e ↦ rw e (ids_of-append s ps p)
]

pub live_ids-append :
    (ps : List (Option OpPtr)) (p : OpPtr) → live_ids (ps ++ some p ∷ []) ≡ live_ids ps ++ p.id ∷ []
live_ids-append [] p = refl
live_ids-append (none ∷ ps) p = live_ids-append ps p
live_ids-append (some q ∷ ps) p = rw (live_ids-append ps p) refl

-- An operation in the list of a type has pointers of that type only.
others-fit :
    (t : OpType) (id : ℕ) (ps : List (Option OpPtr))
    → All (λ y. (y == id) ≡ false) (live_ids ps)
    → All (PointerFits t id) ps
others-fit t id [] a = tt
others-fit t id (none ∷ ps) a = (tt, others-fit t id ps a)
others-fit t id (some p ∷ ps) a = ((λ h. cc (a.0, h)), others-fit t id ps a.1)

has-live :
    (t : OpType) (id : ℕ) (ps : List (Option OpPtr))
    → has id (ids_of t ps) ≡ true
    → has id (live_ids ps) ≡ true
has-live t id [] h = h
has-live t id (none ∷ ps) h = has-live t id ps h
has-live t id (some p ∷ ps) h = elim (Bool-cases (p.id == id)) [
  | inl e ↦ ground (arith, e)
  | inr e ↦ ground (arith, e, has-live t id ps (ground (arith, h, e)))
]

absent :
    (t : OpType) (id : ℕ) (ps : List (Option OpPtr))
    → All (λ y. (y == id) ≡ false) (live_ids ps)
    → ¬ (has id (ids_of t ps) ≡ true)
absent t id ps a h =
    let differs = has-All (λ y. (y == id) ≡ false) id (live_ids ps) a (has-live t id ps h) in
    ground (arith, differs)

later_has :
    (t : OpType) (id : ℕ) (p : OpPtr) (ps : List (Option OpPtr))
    → (p.id == id) ≡ false
    → has id (ids_of t (some p ∷ ps)) ≡ true
    → has id (ids_of t ps) ≡ true
later_has t id p ps e h = elim (Bool-cases (same_type p.op_type t)) [
  | inl f ↦ ground (arith, e, f, h)
  | inr f ↦ ground (arith, e, f, h)
]

pub has-fits :
    (t : OpType) (id : ℕ) (ps : List (Option OpPtr))
    → Distinct (live_ids ps)
    → has id (ids_of t ps) ≡ true
    → All (PointerFits t id) ps
has-fits t id [] d h = tt
has-fits t id (none ∷ ps) d h = (tt, has-fits t id ps d h)
has-fits t id (some p ∷ ps) d h = elim (Bool-cases (p.id == id)) [
  | inl e ↦
      let same = (==_iff p.id id).0 e in
      let others = subst (λ i. All (λ y. (y == i) ≡ false) (live_ids ps)) same d.0 in
      elim (Bool-cases (same_type p.op_type t)) [
        | inl f ↦ ((λ _. same_type_eq p.op_type t f), others-fit t id ps others)
        | inr f ↦ absurd (absent t id ps others (ground (arith, f, h)))
      ]
  | inr e ↦ ((λ f. cc), has-fits t id ps d.1 (later_has t id p ps e h))
]

pub has-given :
    (t : OpType) (id n : ℕ) (ps : List (Option OpPtr))
    → All (λ i. i < n) (live_ids ps)
    → has id (ids_of t ps) ≡ true
    → id < n
has-given t id n ps a h = has-All (λ i. i < n) id (live_ids ps) a (has-live t id ps h)

-- A new operation is no other.
pub fits-append :
    (t : OpType) (i : ℕ) (ps : List (Option OpPtr)) (p : OpPtr)
    → (p.id == i) ≡ false
    → All (PointerFits t i) ps
    → All (PointerFits t i) (ps ++ some p ∷ [])
fits-append t i ps p e a = All-append _ ps (some p ∷ []) a ((λ f. cc), tt)
