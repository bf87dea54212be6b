-- ===== src/Registered/Known.antt =====
-- What the lists of operations tell of the types of pointers.
use mathlib.Core.Path.{subst}
use cc_mqtt311_libs.Base.{
  ==_iff, ℕ, ◌≡◌, sym, ap, ◌∙◌, Bool, true, inl, inr, Option, none, some, List, [], ◌∷◌, map, ◌==◌,
  find_if, get_elem?, zero, suc, Bool-cases, arith,
}
use cc_mqtt311_libs.Client.{Client, OpType, OpPtr}
use cc_mqtt311_libs.Registered.{
  same_type, lists, ids_of, has, Lists, list_ids, IsRegistry, IsRegistered, HasType,
}
use cc_mqtt311_libs.Registered.Pointers.{has-fits, same_type_refl, has-given}
use cc_mqtt311_libs.Registered.Evolves.{Evolves}

-- An operation in the list of a type.
pub listed-HasType :
    (t : OpType) (id : ℕ) (l : Lists) → IsRegistry l → has id (list_ids t l) ≡ true → HasType t id l
listed-HasType t id l r h =
    let pointed : has id (ids_of t l.ops) ≡ true = ap (has id) (sym (r.listed t)) ∙ h in
    record {
      given = has-given t id l.next_op l.ops r.below pointed;
      fits = has-fits t id l.ops r.distinct pointed;
    }

pub found-has {ℓ} :
    {A : Type ℓ} (key : A → ℕ) (p : A → Bool) (xs : List A) (x : A)
    → find_if p xs ≡ some x
    → has (key x) (map key xs) ≡ true
found-has key p [] x e = cc
found-has key p (y ∷ xs) x e = elim (Bool-cases (p y)) [
  | inl f ↦ let same : y ≡ x = cc (e, f) in rw same (ground arith)
  | inr f ↦ let ih = found-has key p xs x (cc (e, f)) in ground (arith, ih)
]

at-has {ℓ} :
    {A : Type ℓ} (key : A → ℕ) (xs : List A) (i : ℕ) (x : A)
    → get_elem? xs i ≡ some x
    → has (key x) (map key xs) ≡ true
at-has key [] i x e = cc
at-has key (y ∷ xs) zero x e = let same : y ≡ x = cc in rw same (ground arith)
at-has key (y ∷ xs) (suc i) x e = let ih = at-has key xs i x e in ground (arith, ih)

find_if-is {ℓ} :
    {A : Type ℓ} (key : A → ℕ) (id : ℕ) (xs : List A) (x : A)
    → find_if (λ a. key a == id) xs ≡ some x
    → key x ≡ id
find_if-is key id [] x e = cc
find_if-is key id (y ∷ xs) x e = elim (Bool-cases (key y == id)) [
  | inl f ↦ cc ((==_iff (key y) id).0 f, e, f)
  | inr f ↦ find_if-is key id xs x (cc (e, f))
]

module _ {ℓ} {A : Type ℓ} (key : A → ℕ) (t : OpType) (l : Lists) (xs : List A)
    (own : list_ids t l ≡ map key xs) where
  pub found-HasType :
      (p : A → Bool) (x : A) → find_if p xs ≡ some x → IsRegistry l → HasType t (key x) l
  found-HasType p x e r =
      listed-HasType t (key x) l r (ap (has (key x)) own ∙ found-has key p xs x e)

  pub at-HasType : (i : ℕ) (x : A) → get_elem? xs i ≡ some x → IsRegistry l → HasType t (key x) l
  at-HasType i x e r = listed-HasType t (key x) l r (ap (has (key x)) own ∙ at-has key xs i x e)

  pub known-HasType :
      (id : ℕ) (x : A) → find_if (λ a. key a == id) xs ≡ some x → IsRegistry l → HasType t id l
  known-HasType id x e r =
      subst (λ i. HasType t i l) (find_if-is key id xs x e) (found-HasType _ x e r)

-- What is proved with the registry at hand.
pub given_registry : {c d : Client} → (IsRegistered c → Evolves c d) → Evolves c d
given_registry f = record { grown = λ r. (f r).grown r }

-- A pointer is of the type that it tells.
pub at-live :
    (i : ℕ) (p : OpPtr) (ps : List (Option OpPtr))
    → get_elem? ps i ≡ some (some p)
    → has p.id (ids_of p.op_type ps) ≡ true
at-live i p [] e = cc
at-live zero p (none ∷ ps) e = cc
at-live zero p (some q ∷ ps) e =
    let same : q ≡ p = cc in rw (same, same_type_refl p.op_type) (ground arith)
at-live (suc i) p (none ∷ ps) e = at-live i p ps e
at-live (suc i) p (some q ∷ ps) e =
    let ih = at-live i p ps e in
    elim (Bool-cases (same_type q.op_type p.op_type)) [
      | inl f ↦ rw f (ground (arith, ih))
      | inr f ↦ rw f ih
    ]

pub entry-HasType :
    (i : ℕ) (p : OpPtr) (c : Client)
    → get_elem? c.ops i ≡ some (some p)
    → IsRegistered c
    → HasType p.op_type p.id (lists c)
entry-HasType i p c e r =
    listed-HasType p.op_type p.id (lists c) r
      (ap (has p.id) (r.listed p.op_type) ∙ at-live i p c.ops e)
