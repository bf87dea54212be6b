-- ===== src/PacketIds/Refines.antt =====
-- Allocations and releases of packet ids in any order, against a set of ids.
use cc_mqtt311_libs.Base.{
  ℕ, zero, suc, ◌+◌, ◌≤◌, ◌≡◌, refl, sym, ap, ◌∙◌, Bool, false, not, ◌&&◌, ◌||◌, inl, inr, List, [],
  ◌∷◌, ◌==◌, length, Bool-cases, arith,
}
use cc_mqtt311_libs.Base.SortedSet.{member, erase_at, lower_bound}
use cc_mqtt311_libs.State.{ClientState}
use cc_mqtt311_libs.PacketIds.{nat_order, max_packet_id, alloc_packet_id, release_packet_id}
use cc_mqtt311_libs.PacketIds.Alloc.{IdsValid, alloc_packet_id_lem}
use cc_mqtt311_libs.PacketIds.Release.{release_packet_id_lem}

pub data IdCall : Type 0 where
  allocates : IdCall
  releases : ℕ → IdCall

-- The program: the calls one after the other, with the ids that they give.
unfoldable pub run_calls : ℕ → List IdCall → ClientState → ClientState × List ℕ
run_calls max_size [] s = (s, [])
run_calls max_size (allocates ∷ ks) s =
    let (s1, id) = alloc_packet_id max_size s in
    let (s2, ids) = run_calls max_size ks s1 in (s2, id ∷ ids)
run_calls max_size (releases id ∷ ks) s = run_calls max_size ks (release_packet_id id s)

-- The specification: a set of ids. An allocation gives any id that is not in the set and puts it
-- there; a release takes an id off the set, but for 0.
unfoldable pub Allows : List IdCall → (ℕ → Bool) → List ℕ → (ℕ → Bool) → Type 0
Allows [] before ids after = (ids ≡ []) × ((j : ℕ) → after j ≡ before j)
Allows (allocates ∷ ks) before ids after =
    (id : ℕ) × (rest : List ℕ) × (ids ≡ id ∷ rest)
    × (before id ≡ false)
    × Allows ks (λ j. id == j || before j) rest after
Allows (releases id ∷ ks) before ids after =
    Allows ks (λ j. not (id == j && not (id == 0)) && before j) ids after

abbrev pub allocations : List IdCall → ℕ
allocations [] = 0
allocations (allocates ∷ ks) = suc (allocations ks)
allocations (releases id ∷ ks) = allocations ks

length-erase_at : (xs : List ℕ) (i : ℕ) → length (erase_at xs i) ≤ length xs
unfolding erase_at
length-erase_at [] i = omega arith
length-erase_at (x ∷ xs) zero = omega arith
length-erase_at (x ∷ xs) (suc i) = omega (arith, length-erase_at xs i)

length-release :
    (id : ℕ) (s : ClientState)
    → length (release_packet_id id s).allocated_packet_ids ≤ length s.allocated_packet_ids
unfolding release_packet_id
length-release id s =
    let shorter = length-erase_at s.allocated_packet_ids (lower_bound id s.allocated_packet_ids) in
    ground (arith, shorter)

-- A release, of 0 or of another id.
release_cases :
    (id : ℕ) (s : ClientState)
    → IdsValid s
    → IdsValid (release_packet_id id s)
      × ((j : ℕ)
          → member j (release_packet_id id s).allocated_packet_ids
            ≡ (not (id == j && not (id == 0)) && member j s.allocated_packet_ids))
unfolding release_packet_id
release_cases id s v = elim (Bool-cases (id == 0)) [
  | inl e ↦ rw e (v, λ j. ground arith)
  | inr e ↦
      let (off, valid) = release_packet_id_lem id s v (ground (arith, e)) in
      (valid, λ j. off j ∙ rw e (ground arith))
]

-- Allocations and releases of packet ids in any order, from a valid record with room for all the
-- allocations, do what a set of ids does: every allocation gives an id that is not in the set and
-- puts it there, every release takes its id off it (but for 0, which it leaves), and the record
-- holds the ids of the set at the end.
pub run_refines :
    (max_size : ℕ) (ks : List IdCall) (s : ClientState) (before : ℕ → Bool)
    → IdsValid s
    → ((j : ℕ) → member j s.allocated_packet_ids ≡ before j)
    → length s.allocated_packet_ids + allocations ks ≤ max_size
    → length s.allocated_packet_ids + allocations ks ≤ max_packet_id
    → let (s', ids) = run_calls max_size ks s in
      Allows ks before ids (λ j. member j s'.allocated_packet_ids)
unfolding run_calls Allows
run_refines max_size [] s before v same room room' = (refl, same)
run_refines max_size (allocates ∷ ks) s before v same room room' =
    let (s1, id) = alloc_packet_id max_size s in
    let (free, added, valid, last, longer) =
      alloc_packet_id_lem max_size s v (omega (arith, room), omega (arith, room')) in
    (
      id,
      (run_calls max_size ks s1).1,
      refl,
      sym (same id) ∙ free,
      run_refines max_size ks s1 (λ j. id == j || before j) valid
          (λ j. added j ∙ ap (λ t. id == j || t) (same j)) (omega (arith, longer, room))
          (omega (arith, longer, room')),
    )
run_refines max_size (releases id ∷ ks) s before v same room room' =
    let (valid, off) = release_cases id s v in
    let shorter = length-release id s in
    run_refines max_size ks (release_packet_id id s) _ valid
      (λ j. off j ∙ ap (λ t. not (id == j && not (id == 0)) && t) (same j))
      (omega (arith, shorter, room)) (omega (arith, shorter, room'))
