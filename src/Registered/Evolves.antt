-- ===== src/Registered/Evolves.antt =====
-- What one step of the client does to the registry.
use mathlib.Core.Path.{subst}
use cc_mqtt311_libs.Base.{
  ℕ, ◌+◌, ◌≡◌, refl, sym, ap, ◌∙◌, Bool, true, false, inl, inr, some, List, [], ◌∷◌, ◌++◌, map,
  if◌then◌else◌, update_if, keep_if, All-append, Bool-cases, arith,
}
use cc_mqtt311_libs.Client.{Client, OpPtr, OpType}
use cc_mqtt311_libs.Client.Registry.{nullify, is_live}
use cc_mqtt311_libs.Registered.{
  same_type, ids_of, Lists, lists, list_ids, IsRegistry, IsRegistered, HasType,
}
use cc_mqtt311_libs.Registered.Pointers.{
  erase_id, same_type_refl, same_type_eq, All-erase_id, Distinct-erase_id, Distinct-append,
  All-weaken, ids_of-nullify, live_ids-nullify, fits-nullify, ids_of-keep_if, live_ids-keep_if,
  fits-keep_if, ids_of-append, live_ids-append, fits-append,
}

-- The registry is kept, and what is known of the types of operations stays true.
pub record Grown (l m : Lists) : Type 0 where
  pub registry : IsRegistry m
  pub typed : (t : OpType) (id : ℕ) → HasType t id l → HasType t id m

pub record Evolves (c d : Client) : Type 0 where
  pub grown : IsRegistered c → Grown (lists c) (lists d)

pub Evolves-trans : {c d e : Client} → Evolves c d → Evolves d e → Evolves c e
Evolves-trans s s' = record {
  grown = λ r.
      let g = s.grown r in
      let g' = s'.grown g.registry in
      record { registry = g'.registry; typed = λ t id h. g'.typed t id (g.typed t id h) };
}

-- A change outside the registry.
pub outside : {c d : Client} → lists c ≡ lists d → Evolves c d
outside {c} {d} e = record {
  grown = λ r. subst (Grown (lists c)) e (record { registry = r; typed = λ t id h. h });
}

pub outside_first : {c d e : Client} → Evolves d e → lists c ≡ lists d → Evolves c e
outside_first s e = Evolves-trans (outside e) s

pub if-Evolves :
    (c : Client) (t : Bool) (x y : Client)
    → Evolves c x
    → Evolves c y
    → Evolves c (if t then x else y)
if-Evolves c true x y p q = p
if-Evolves c false x y p q = q

-- The same with a result beside the client.
pub either-Evolves {ℓ} :
    {R : Type ℓ} (c : Client) (t : Bool) (x y : Client × R)
    → Evolves c x.0
    → Evolves c y.0
    → Evolves c (if t then x else y).0
either-Evolves c true x y p q = p
either-Evolves c false x y p q = q

-- Operations change in place.
pub in_place :
    (l m : Lists)
    → ((s : OpType) → list_ids s m ≡ list_ids s l)
    → m.ops ≡ l.ops
    → m.next_op ≡ l.next_op
    → IsRegistry l
    → Grown l m
in_place l m same ops next r = record {
  registry = record {
    listed = λ t. same t ∙ r.listed t ∙ ap (ids_of t) (sym ops);
    distinct = rw ops r.distinct;
    below = rw (ops, next) r.below;
  };
  typed = λ t id h. record { given = rw next h.given; fits = rw ops h.fits };
}

-- An operation leaves its list, and its pointer is nulled.
pub removed :
    (t : OpType) (id : ℕ) (l m : Lists)
    → list_ids t m ≡ erase_id id (list_ids t l)
    → ((s : OpType) → same_type t s ≡ false → list_ids s m ≡ list_ids s l)
    → m.ops ≡ nullify id l.ops
    → m.next_op ≡ l.next_op
    → HasType t id l
    → IsRegistry l
    → Grown l m
removed t id l m own others ops next k r =
    let listed_as : (s : OpType) → list_ids s m ≡ ids_of s m.ops = λ s.
      elim (Bool-cases (same_type t s)) [
        | inl f ↦
            subst (λ u. list_ids u m ≡ ids_of u m.ops) (same_type_eq t s f)
              (own
                ∙ ap (erase_id id) (r.listed t)
                ∙ rw (ops, ids_of-nullify t t id l.ops k.fits, same_type_refl t) refl)
        | inr f ↦ others s f ∙ r.listed s ∙ rw (ops, ids_of-nullify t s id l.ops k.fits, f) refl
      ] in
    record {
      registry = record {
        listed = listed_as;
        distinct = rw (ops, live_ids-nullify id l.ops) (Distinct-erase_id id _ r.distinct);
        below = rw (ops, next, live_ids-nullify id l.ops) (All-erase_id _ id _ r.below);
      };
      typed = λ s i h. record {
        given = rw next h.given;
        fits = rw ops (fits-nullify s i id l.ops h.fits);
      };
    }

-- A new operation is put last in its list, and its pointer last among the pointers.
pub added :
    (t : OpType) (l m : Lists)
    → list_ids t m ≡ list_ids t l ++ l.next_op ∷ []
    → ((s : OpType) → same_type t s ≡ false → list_ids s m ≡ list_ids s l)
    → m.ops ≡ l.ops ++ some (record { op_type = t; id = l.next_op }) ∷ []
    → m.next_op ≡ l.next_op + 1
    → IsRegistry l
    → Grown l m
added t l m own others ops next r =
    let p : OpPtr = record { op_type = t; id = l.next_op } in
    let listed_as : (s : OpType) → list_ids s m ≡ ids_of s m.ops = λ s.
      elim (Bool-cases (same_type t s)) [
        | inl f ↦
            subst (λ u. list_ids u m ≡ ids_of u m.ops) (same_type_eq t s f)
              (own
                ∙ ap (λ xs. xs ++ l.next_op ∷ []) (r.listed t)
                ∙ rw (ops, ids_of-append t l.ops p, same_type_refl t) refl)
        | inr f ↦ others s f ∙ r.listed s ∙ rw (ops, ids_of-append s l.ops p, f) refl
      ] in
    record {
      registry = record {
        listed = listed_as;
        distinct =
            rw (ops, live_ids-append l.ops p) (Distinct-append l.next_op _ r.below r.distinct);
        below =
            rw (ops, next, live_ids-append l.ops p)
              (All-append _ _ (l.next_op ∷ []) (All-weaken _ _ _ (omega arith) r.below)
                (omega arith, tt));
      };
      typed = λ s i h. record {
        given = rw next (omega (arith, h.given));
        fits = rw ops (fits-append s i l.ops p (ground (arith, h.given)) h.fits);
      };
    }

-- The null pointers are taken out.
pub cleaned :
    (l m : Lists)
    → ((s : OpType) → list_ids s m ≡ list_ids s l)
    → m.ops ≡ keep_if is_live l.ops
    → m.next_op ≡ l.next_op
    → IsRegistry l
    → Grown l m
cleaned l m same ops next r = record {
  registry = record {
    listed = λ s. same s ∙ r.listed s ∙ sym (ids_of-keep_if s l.ops) ∙ ap (ids_of s) (sym ops);
    distinct = rw (ops, live_ids-keep_if l.ops) r.distinct;
    below = rw (ops, next, live_ids-keep_if l.ops) r.below;
  };
  typed =
      λ t id h. record { given = rw next h.given; fits = rw ops (fits-keep_if t id l.ops h.fits) };
}

-- The same, of one type.
pub in_own_place :
    (t : OpType) (l m : Lists)
    → list_ids t m ≡ list_ids t l
    → ((s : OpType) → same_type t s ≡ false → list_ids s m ≡ list_ids s l)
    → m.ops ≡ l.ops
    → m.next_op ≡ l.next_op
    → IsRegistry l
    → Grown l m
in_own_place t l m own others ops next r =
    in_place l m
      (λ s. elim (Bool-cases (same_type t s)) [
        | inl f ↦ subst (λ u. list_ids u m ≡ list_ids u l) (same_type_eq t s f) own
        | inr f ↦ others s f
      ])
      ops next r

pub update_if-ids {ℓ} :
    {A : Type ℓ} (key : A → ℕ) (p : A → Bool) (f : A → A) (xs : List A)
    → ((a : A) → key (f a) ≡ key a)
    → map key (update_if p f xs) ≡ map key xs
update_if-ids key p f [] h = refl
update_if-ids key p f (x ∷ xs) h = elim (Bool-cases (p x)) [
  | inl e ↦ rw (e, h x, update_if-ids key p f xs h) refl
  | inr e ↦ rw (e, update_if-ids key p f xs h) refl
]

pub map-append {ℓ} :
    {A : Type ℓ} (key : A → ℕ) (xs : List A) (x : A)
    → map key (xs ++ x ∷ []) ≡ map key xs ++ key x ∷ []
map-append key [] x = refl
map-append key (y ∷ xs) x = rw (map-append key xs x) refl
