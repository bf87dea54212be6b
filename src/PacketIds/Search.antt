-- ===== src/PacketIds/Search.antt =====
-- The search for a free packet id ends, and what it chooses is free.
use cc_mqtt311_libs.Base.{
  ℕ, zero, suc, ◌+◌, ◌^◌, ◌≤◌, ◌<◌, ◌≡◌, refl, ◌⊎◌, inl, inr, true, false, Option, some, List, [],
  ◌∷◌, ◌++◌, ltb, ◌==◌, length, arith, All, Bool-cases, count_if, count_if-le,
}
use cc_mqtt311_libs.Base.SortedSet.{insert_at, lower_bound, member, Sorted, contains-eq-member}
use cc_mqtt311_libs.PacketIds.{nat_order, next_id, is_above_all, find_packet_id, max_packet_id}

abbrev pub IsId : ℕ → Type 0
IsId x = x < 2 ^ 16

is_above_all-All :
    (id : ℕ) (ids : List ℕ) → Sorted ids → is_above_all id ids ≡ true → All (λ y. y < id) ids
is_above_all-All id [] s h = tt
is_above_all-All id (x ∷ []) s h = (ground arith, tt)
is_above_all-All id (x ∷ y ∷ ys) s h =
    let rest = is_above_all-All id (y ∷ ys) s.1 h in (ground (arith, rest.0, s.0.0), rest)

All-not_member : (id : ℕ) (ids : List ℕ) → All (λ y. y < id) ids → member id ids ≡ false
All-not_member id [] a = refl
All-not_member id (x ∷ xs) a = ground (arith, All-not_member id xs a.1)

-- The push at the back is the insertion at the position that the search would give.
All-insert_at :
    (id : ℕ) (ids : List ℕ)
    → All (λ y. y < id) ids
    → (ids ++ id ∷ []) ≡ insert_at ids (lower_bound id ids) id
unfolding insert_at lower_bound
All-insert_at id [] a = refl
All-insert_at id (x ∷ xs) a = ground (arith, All-insert_at id xs a.1)

-- The keys below `n` that the list holds.
abbrev below : ℕ → List ℕ → ℕ
below n ids = count_if (λ x. ltb x n) ids

below-suc : (n : ℕ) (ids : List ℕ) → below n ids ≤ below (n + 1) ids
below-suc n [] = omega arith
below-suc n (x ∷ xs) = ground (arith, below-suc n xs)

below-member : (n : ℕ) (ids : List ℕ) → member n ids ≡ true → below n ids + 1 ≤ below (n + 1) ids
below-member n [] h = cc
below-member n (x ∷ xs) h = ground (arith, below-member n xs, below-suc n xs)

abbrev pub Taken : ℕ → ℕ → List ℕ → Type 0
Taken lo hi ids = (j : ℕ) → lo ≤ j → j < hi → member j ids ≡ true

Taken-below : (n : ℕ) (ids : List ℕ) → Taken 0 n ids → n ≤ below n ids
Taken-below zero ids t = omega arith
Taken-below (suc n) ids t =
    let fewer : Taken 0 n ids = λ j l h. t j l (omega arith) in
    let step = below-member n ids (t n (omega arith) (omega arith)) in
    let e : n + 1 ≡ suc n = omega arith in omega (arith, Taken-below n ids fewer, rw e at step)

-- Pigeonhole: as many elements as keys taken from 0 on.
Taken-length : (n : ℕ) (ids : List ℕ) → Taken 0 n ids → n ≤ length ids
Taken-length n ids t = omega (arith, Taken-below n ids t, count_if-le (λ x. ltb x n) ids)

-- What the search from `id` finds: a free id, the first from `id` on, or, if there is none up to
-- the largest, the first from 0 on. The list grows by it at its place.
pub record Found (ids : List ℕ) (id : ℕ) (r : Option (List ℕ × ℕ)) : Type 0 where
  pub chosen : ℕ
  pub result : r ≡ some (insert_at ids (lower_bound chosen ids) chosen, chosen)
  pub free : member chosen ids ≡ false
  pub in_range : IsId chosen
  pub first : ((id ≤ chosen) × Taken id chosen ids) ⊎ (Taken id (2 ^ 16) ids × Taken 0 chosen ids)

-- One round that ends the loop.
stops :
    (fuel : ℕ) (ids : List ℕ) (id : ℕ)
    → Sorted ids
    → member id ids ≡ false
    → find_packet_id (suc fuel) ids id ≡ some (insert_at ids (lower_bound id ids) id, id)
unfolding find_packet_id
stops fuel ids id s h = elim (Bool-cases (is_above_all id ids)) [
  | inl top ↦ rw (top, All-insert_at id ids (is_above_all-All id ids s top))
  | inr inside ↦ rw (inside, contains-eq-member id ids s, h)
]

-- One round that goes on.
goes_on :
    (fuel : ℕ) (ids : List ℕ) (id : ℕ)
    → Sorted ids
    → member id ids ≡ true
    → find_packet_id (suc fuel) ids id ≡ find_packet_id fuel ids (next_id id)
unfolding find_packet_id
goes_on fuel ids id s h = elim (Bool-cases (is_above_all id ids)) [
  | inl top ↦ ground (arith, All-not_member id ids (is_above_all-All id ids s top))
  | inr inside ↦ rw (inside, contains-eq-member id ids s, h)
]

found_here :
    (fuel : ℕ) (ids : List ℕ) (id : ℕ)
    → Sorted ids
    → IsId id
    → member id ids ≡ false
    → Found ids id (find_packet_id (suc fuel) ids id)
found_here fuel ids id s h e = record {
  chosen = id;
  result = stops fuel ids id s e;
  free = e;
  in_range = h;
  first = inl (omega arith, λ j l k. absurd (omega arith));
}

Taken-step : (lo n : ℕ) (ids : List ℕ) → Taken lo n ids → member n ids ≡ true → Taken lo (n + 1) ids
Taken-step lo n ids t h j l k = elim (Bool-cases (j == n)) [
  | inl e ↦ let same : j ≡ n = ground arith in rw same h
  | inr ne ↦ t j l (ground arith)
]

Taken-all : (n hi : ℕ) (ids : List ℕ) → member n ids ≡ true → Taken (n + 1) hi ids → Taken n hi ids
Taken-all n hi ids h t j l k = elim (Bool-cases (j == n)) [
  | inl e ↦ let same : j ≡ n = ground arith in rw same h
  | inr ne ↦ t j (ground arith) k
]

-- After the wrap: everything below `id` is taken, so no further wrap can come.
search_low :
    (fuel : ℕ) (ids : List ℕ) (id : ℕ)
    → Sorted ids
    → length ids < 2 ^ 16
    → Taken 0 id ids
    → 2 ^ 16 < fuel + id
    → (k : ℕ) × (find_packet_id fuel ids id ≡ some (insert_at ids (lower_bound k ids) k, k))
      × (member k ids ≡ false)
      × IsId k
      × Taken 0 k ids
search_low zero ids id s small t f = absurd (omega (arith, Taken-length id ids t))
search_low (suc fuel) ids id s small t f = elim (Bool-cases (member id ids)) [
  | inl more ↦
      let t' = Taken-step 0 id ids t more in
      let e : next_id id ≡ id + 1 = omega (arith, Taken-length (id + 1) ids t') in
      rw (goes_on fuel ids id s more, e) (search_low fuel ids (id + 1) s small t' (omega arith))
  | inr done ↦ (id, stops fuel ids id s done, done, omega (arith, Taken-length id ids t), t)
]

-- From a candidate of 16 bits, on a sorted list of fewer than 65536 ids, with enough fuel (2^16 +
-- 2^16 < fuel + id), the search loop of the allocation ends, and finds the first free id from the
-- candidate on, or from 0 on when there is none up to the largest.
pub search_total :
    (fuel : ℕ) (ids : List ℕ) (id : ℕ)
    → Sorted ids
    → length ids < 2 ^ 16
    → IsId id
    → 2 ^ 16 + 2 ^ 16 < fuel + id
    → Found ids id (find_packet_id fuel ids id)
search_total zero ids id s small h f = absurd (omega arith)
search_total (suc fuel) ids id s small h f = elim (Bool-cases (member id ids)) [
  | inr done ↦ found_here fuel ids id s h done
  | inl more ↦ rw (goes_on fuel ids id s more) (elim (Bool-cases (id == max_packet_id)) [
    | inl last ↦
        let e : next_id id ≡ 0 = ground arith in
        let (k, r, fr, rg, t) =
          search_low fuel ids 0 s small (λ j l m. absurd (omega arith)) (omega arith) in
        rw e (record {
          chosen = k;
          result = r;
          free = fr;
          in_range = rg;
          first = inr (Taken-all id (2 ^ 16) ids more (λ j l m. absurd (ground arith)), t);
        })
    | inr before ↦
        let e : next_id id ≡ id + 1 = ground arith in
        let r = search_total fuel ids (id + 1) s small (ground arith) (omega arith) in
        rw e (record {
          chosen = r.chosen;
          result = r.result;
          free = r.free;
          in_range = r.in_range;
          first = elim r.first [
            | inl (l, t) ↦ inl (omega arith, Taken-all id r.chosen ids more t)
            | inr (t, u) ↦ inr (Taken-all id (2 ^ 16) ids more t, u)
          ];
        })
  ])
]
