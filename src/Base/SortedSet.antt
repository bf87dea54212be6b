-- ===== src/Base/SortedSet.antt =====
-- A vector that is kept sorted, searched by `std::lower_bound`, grown by `insert` and shrunk by
-- `erase` at the position found. On a sorted vector `std::lower_bound` returns the first position
-- whose element is not less than the key, which is how it is written here.
use mathlib.Core.Path.{◌≡◌, refl}
use mathlib.Core.Logic.{◌↔◌, inl, inr}
use mathlib.Core.Bool.{Bool, true, false, not, ◌&&◌, ◌||◌}
use mathlib.Core.Option.{none, some}
use mathlib.Core.List.{List, [], ◌∷◌}
use Prim.Native.Nat.{ℕ, zero, suc, ◌+◌}
use native.Mathlib.Omega.{arith}
use cc_mqtt311_libs.Base.Tests.{if◌then◌else◌, Bool-cases}
use cc_mqtt311_libs.Base.Lists.{length, get_elem?, All}

-- A strict total order with its equality test.
pub record Order {ℓ} (A : Type ℓ) : Type ℓ where
  pub lt : A → A → Bool
  pub eq : A → A → Bool
  pub eq_iff : (a b : A) → (eq a b ≡ true) ↔ (a ≡ b)
  pub lt_irrefl : (a : A) → lt a a ≡ false
  pub lt_trans : (a b c : A) → lt a b ≡ true → lt b c ≡ true → lt a c ≡ true
  pub lt_total : (a b : A) → lt a b ≡ false → lt b a ≡ false → a ≡ b

module _ {A : Type 0} where
  unfoldable pub insert_at : List A → ℕ → A → List A
  insert_at xs zero v = v ∷ xs
  insert_at [] (suc i) v = v ∷ []
  insert_at (x ∷ xs) (suc i) v = x ∷ insert_at xs i v

  unfoldable pub erase_at : List A → ℕ → List A
  erase_at [] i = []
  erase_at (x ∷ xs) zero = xs
  erase_at (x ∷ xs) (suc i) = x ∷ erase_at xs i

  pub length-insert_at : (xs : List A) (i : ℕ) (v : A) → length (insert_at xs i v) ≡ length xs + 1
  unfolding insert_at
  length-insert_at xs zero v = omega arith
  length-insert_at [] (suc i) v = omega arith
  length-insert_at (x ∷ xs) (suc i) v = omega (arith, length-insert_at xs i v)

module _ {A : Type 0} ⦃o : Order A⦄ where
  unfoldable pub lower_bound : A → List A → ℕ
  lower_bound k [] = 0
  lower_bound k (x ∷ xs) = if o.lt x k then suc (lower_bound k xs) else 0

  -- `(iter != end()) && (*iter == k)`
  unfoldable pub found_at : A → List A → ℕ → Bool
  found_at k xs i = elim (get_elem? xs i) [ none ↦ false | some x ↦ o.eq x k ]

  abbrev pub contains : A → List A → Bool
  contains k xs = found_at k xs (lower_bound k xs)

  -- Membership with no use of the order.
  abbrev pub member : A → List A → Bool
  member k [] = false
  member k (x ∷ xs) = o.eq x k || member k xs

  abbrev pub Sorted : List A → Type 0
  Sorted [] = Unit
  Sorted (x ∷ xs) = All (λ y. o.lt x y ≡ true) xs × Sorted xs

  lower_bounds :
      (x k : A) (xs : List A)
      → o.lt k x ≡ true
      → All (λ y. o.lt x y ≡ true) xs
      → All (λ y. o.lt k y ≡ true) xs
  lower_bounds x k [] h a = tt
  lower_bounds x k (y ∷ ys) h a = (o.lt_trans k x y h a.0, lower_bounds x k ys h a.1)

  above-not_member : (k : A) (xs : List A) → All (λ y. o.lt k y ≡ true) xs → member k xs ≡ false
  above-not_member k [] a = refl
  above-not_member k (y ∷ ys) a =
      ground (arith, above-not_member k ys a.1, o.eq_iff y k, o.lt_irrefl k)

  -- On a sorted vector the search finds a key exactly when it is there.
  pub contains-eq-member : (k : A) (xs : List A) → Sorted xs → contains k xs ≡ member k xs
  unfolding lower_bound found_at
  contains-eq-member k [] s = refl
  contains-eq-member k (x ∷ xs) s = elim (Bool-cases (o.lt x k)) [
    | inl less ↦ rw less (ground (arith, contains-eq-member k xs s.1, o.eq_iff x k, o.lt_irrefl k))
    | inr more ↦ elim (Bool-cases (o.eq x k)) [
      | inl same ↦ rw (more, same)
      | inr other ↦ elim (Bool-cases (o.lt k x)) [
        | inl above ↦ rw (more, other, above-not_member k xs (lower_bounds x k xs above s.0))
        | inr level ↦ ground (arith, o.lt_total x k more level, o.eq_iff x k)
      ]
    ]
  ]

  pub All-insert_at :
      (P : A → Type 0) (xs : List A) (i : ℕ) (v : A) → P v → All P xs → All P (insert_at xs i v)
  unfolding insert_at
  All-insert_at P xs zero v h a = (h, a)
  All-insert_at P [] (suc i) v h a = (h, tt)
  All-insert_at P (x ∷ xs) (suc i) v h a = (a.0, All-insert_at P xs i v h a.1)

  pub insert-Sorted :
      (k : A) (xs : List A)
      → Sorted xs
      → contains k xs ≡ false
      → Sorted (insert_at xs (lower_bound k xs) k)
  unfolding lower_bound found_at insert_at
  insert-Sorted k [] s h = (tt, tt)
  insert-Sorted k (x ∷ xs) s h = elim (Bool-cases (o.lt x k)) [
    | inl less ↦
        let absent : contains k xs ≡ false = ground arith in
        rw less (All-insert_at _ xs (lower_bound k xs) k less s.0, insert-Sorted k xs s.1 absent)
    | inr more ↦ elim (Bool-cases (o.lt k x)) [
      | inl above ↦ rw more ((above, lower_bounds x k xs above s.0), s)
      | inr level ↦ ground (arith, o.lt_total x k more level, o.eq_iff x k)
    ]
  ]

  pub member-insert_at :
      (j k : A) (xs : List A) (i : ℕ) → member j (insert_at xs i k) ≡ (o.eq k j || member j xs)
  unfolding insert_at
  member-insert_at j k xs zero = refl
  member-insert_at j k [] (suc i) = refl
  member-insert_at j k (x ∷ xs) (suc i) = ground (arith, member-insert_at j k xs i)

  pub All-erase_at : (P : A → Type 0) (xs : List A) (i : ℕ) → All P xs → All P (erase_at xs i)
  unfolding erase_at
  All-erase_at P [] i a = tt
  All-erase_at P (x ∷ xs) zero a = a.1
  All-erase_at P (x ∷ xs) (suc i) a = (a.0, All-erase_at P xs i a.1)

  pub erase-Sorted : (xs : List A) (i : ℕ) → Sorted xs → Sorted (erase_at xs i)
  unfolding erase_at
  erase-Sorted [] i s = tt
  erase-Sorted (x ∷ xs) zero s = s.1
  erase-Sorted (x ∷ xs) (suc i) s = (All-erase_at _ xs i s.0, erase-Sorted xs i s.1)

  -- Erasing at the position found takes out that key and no other.
  pub member-erase :
      (j k : A) (xs : List A)
      → Sorted xs
      → contains k xs ≡ true
      → member j (erase_at xs (lower_bound k xs)) ≡ (not (o.eq k j) && member j xs)
  unfolding lower_bound found_at erase_at
  member-erase j k [] s h = cc
  member-erase j k (x ∷ xs) s h = elim (Bool-cases (o.lt x k)) [
    | inl less ↦
        let present : contains k xs ≡ true = ground arith in
        rw less (
          ground
            (arith, member-erase j k xs s.1 present, o.eq_iff k j, o.eq_iff x j, o.lt_irrefl k))
    | inr more ↦
        rw more
          (ground (arith, o.eq_iff x k, o.eq_iff k j, o.eq_iff x j, above-not_member x xs s.0))
  ]
