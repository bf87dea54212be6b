-- ===== src/PacketIds/Release.antt =====
-- `Op::releasePacketId` takes back what `Op::allocPacketId` gave.
use cc_mqtt311_libs.Base.{
  ℕ, ◌≡◌, ◌≢◌, sym, ◌∙◌, inl, inr, true, false, not, ◌&&◌, List, [], ◌∷◌, ◌==◌, arith, Bool-cases,
}
use cc_mqtt311_libs.Base.SortedSet.{
  insert_at, erase_at, lower_bound, found_at, contains, member, contains-eq-member, erase-Sorted,
  member-erase, All-erase_at,
}
use cc_mqtt311_libs.State.{ClientState}
use cc_mqtt311_libs.PacketIds.{nat_order, alloc_packet_id, release_packet_id}
use cc_mqtt311_libs.PacketIds.Alloc.{IdsValid, HasRoom, alloc_found, found_by}
use cc_mqtt311_libs.PacketIds.Search.{IsId}

not_there :
    (id j : ℕ) (xs : List ℕ) → member id xs ≡ false → member j xs ≡ (not (id == j) && member j xs)
not_there id j xs h = elim (Bool-cases (id == j)) [
  | inl e ↦
      let same : id ≡ j = ground arith in
      let absent : member j xs ≡ false = rw same at h in rw (e, absent)
  | inr e ↦ rw e
]

-- On a valid record, the release of a nonzero packet id takes that id off the record and no other,
-- also when it was not on it, and keeps the record valid.
pub release_packet_id_lem :
    (id : ℕ) (s : ClientState)
    → IdsValid s
    → id ≢ 0
    → ((j : ℕ)
        → member j (release_packet_id id s).allocated_packet_ids
          ≡ (not (id == j) && member j s.allocated_packet_ids))
      × IdsValid (release_packet_id id s)
unfolding release_packet_id
release_packet_id_lem id s v ne = elim (Bool-cases (contains id xs)) [
  | inl here ↦
      rw (nonzero, here)
        (
          λ j. member-erase j id xs v.sorted here,
          record {
            sorted = erase-Sorted xs (lower_bound id xs) v.sorted;
            ids = All-erase_at IsId xs (lower_bound id xs) v.ids;
            last_id = v.last_id;
          },
        )
  | inr absent ↦
      rw (nonzero, absent)
        (λ j. not_there id j xs (sym (contains-eq-member id xs v.sorted) ∙ absent), v)
]
  where
    open s use {allocated_packet_ids as xs}

    nonzero : (id == 0) ≡ false
    nonzero = ground arith

erase-insert :
    (k : ℕ) (xs : List ℕ)
    → (contains k (insert_at xs (lower_bound k xs) k) ≡ true)
      × (erase_at
            (insert_at xs (lower_bound k xs) k)
            (lower_bound k (insert_at xs (lower_bound k xs) k))
          ≡ xs)
unfolding insert_at erase_at lower_bound found_at
erase-insert k [] = ground arith
erase-insert k (x ∷ xs) = ground (arith, erase-insert k xs)

-- On a valid record with room, a nonzero packet id that is released straight after its allocation
-- leaves the record of the ids in use as it was before.
pub release-alloc :
    (max_size : ℕ) (s : ClientState)
    → IdsValid s
    → HasRoom max_size s
    → (alloc_packet_id max_size s).1 ≢ 0
    → let (s', id) = alloc_packet_id max_size s in
      (release_packet_id id s').allocated_packet_ids ≡ s.allocated_packet_ids
unfolding release_packet_id
release-alloc max_size s v room = rw (alloc_found max_size s v room) λ ne.
    let k = (found_by s v room.1).chosen in
    let nonzero : (k == 0) ≡ false = ground arith in
    rw (nonzero, (erase-insert k s.allocated_packet_ids).0)
      (erase-insert k s.allocated_packet_ids).1
