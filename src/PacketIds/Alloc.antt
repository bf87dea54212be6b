-- ===== src/PacketIds/Alloc.antt =====
-- What `Op::allocPacketId` promises.
use cc_mqtt311_libs.Base.{
  ℕ, zero, suc, ◌+◌, ◌^◌, ◌≤◌, ◌<◌, ◌≡◌, ◌≢◌, ◌↔◌, refl, inl, inr, true, false, ◌||◌, leb, ◌==◌,
  length, arith, All, if◌then◌else◌,
}
use cc_mqtt311_libs.Base.SortedSet.{
  insert_at, lower_bound, contains, member, Sorted, contains-eq-member, insert-Sorted,
  member-insert_at, All-insert_at, length-insert_at,
}
use cc_mqtt311_libs.State.{ClientState}
use cc_mqtt311_libs.PacketIds.{
  nat_order, next_id, find_packet_id, search_fuel, max_packet_id, alloc_packet_id,
}
use cc_mqtt311_libs.PacketIds.Search.{IsId, Taken, Found, search_total}

-- The record of the ids in use is sorted, and holds ids of 16 bits.
pub record IdsValid (s : ClientState) : Type 0 where
  pub sorted : Sorted s.allocated_packet_ids
  pub ids : All IsId s.allocated_packet_ids
  pub last_id : IsId s.last_packet_id

-- The list has room.
abbrev pub HasRoom : ℕ → ClientState → Type 0
HasRoom max_size s =
    (length s.allocated_packet_ids < max_size) × (length s.allocated_packet_ids < max_packet_id)

abbrev pub candidate : ClientState → ℕ
candidate s = if next_id s.last_packet_id == 0 then 1 else next_id s.last_packet_id

candidate_bounds : (s : ClientState) → (1 ≤ candidate s) × IsId (candidate s)
candidate_bounds s = ground arith

pub found_by :
    (s : ClientState)
    → IdsValid s
    → length s.allocated_packet_ids < max_packet_id
    → Found s.allocated_packet_ids
        (candidate s)
        (find_packet_id search_fuel s.allocated_packet_ids (candidate s))
found_by s v h =
    search_total search_fuel s.allocated_packet_ids (candidate s) v.sorted (omega arith)
      (candidate_bounds s).1 (omega (arith, (candidate_bounds s).0))

room_test :
    (max_size n : ℕ)
    → n < max_size
    → n < max_packet_id
    → (leb max_size n || leb max_packet_id n) ≡ false
room_test max_size n h k = ground arith

pub alloc_found :
    (max_size : ℕ) (s : ClientState) (v : IdsValid s) (room : HasRoom max_size s)
    → let k = (found_by s v room.1).chosen in
      alloc_packet_id max_size s ≡ (
        record s {
          allocated_packet_ids =
              insert_at s.allocated_packet_ids (lower_bound k s.allocated_packet_ids) k;
          last_packet_id = k;
        },
        k,
      )
unfolding alloc_packet_id
alloc_found max_size s v room =
    rw (
      room_test max_size (length s.allocated_packet_ids) room.0 room.1,
      (found_by s v room.1).result,
    )

-- On a valid record with room in the list, the allocation of a packet id ends with an id that was
-- not in use, adds that id and no other to the record, and keeps the record valid.
pub alloc_packet_id_lem :
    (max_size : ℕ) (s : ClientState)
    → IdsValid s
    → HasRoom max_size s
    → let (s', id) = alloc_packet_id max_size s in
      (member id s.allocated_packet_ids ≡ false)
      × ((j : ℕ) → member j s'.allocated_packet_ids ≡ (id == j || member j s.allocated_packet_ids))
      × IdsValid s'
      × (s'.last_packet_id ≡ id)
      × (length s'.allocated_packet_ids ≡ length s.allocated_packet_ids + 1)
alloc_packet_id_lem max_size s v room =
    let f = found_by s v room.1 in
    let xs = s.allocated_packet_ids in
    let absent : contains f.chosen xs ≡ false =
      rw (contains-eq-member f.chosen xs v.sorted) f.free in
    rw (alloc_found max_size s v room) (
      f.free,
      λ j. member-insert_at j f.chosen xs (lower_bound f.chosen xs),
      record {
        sorted = insert-Sorted f.chosen xs v.sorted absent;
        ids = All-insert_at IsId xs (lower_bound f.chosen xs) f.chosen f.in_range v.ids;
        last_id = f.in_range;
      },
      refl,
      length-insert_at xs (lower_bound f.chosen xs) f.chosen,
    )

-- With room in a valid record and 0 not on it, the allocation gives a nonzero id exactly if one of
-- the ids from the candidate up to 65535 is not in use.
pub alloc_nonzero_iff :
    (max_size : ℕ) (s : ClientState)
    → IdsValid s
    → HasRoom max_size s
    → member 0 s.allocated_packet_ids ≡ false
    → (((alloc_packet_id max_size s).1 ≢ 0)
        ↔ (¬ Taken (candidate s) (2 ^ 16) s.allocated_packet_ids))
alloc_nonzero_iff max_size s v room zero_free = rw (alloc_found max_size s v room) (to, from)
  where
    f :
        Found s.allocated_packet_ids
          (candidate s)
          (find_packet_id search_fuel s.allocated_packet_ids (candidate s))
    f = found_by s v room.1

    to : f.chosen ≢ 0 → ¬ Taken (candidate s) (2 ^ 16) s.allocated_packet_ids
    to ne t = elim f.first [
      | inl (l, u) ↦ cc (t f.chosen l f.in_range, f.free)
      | inr (u, low) ↦ cc (low 0 (omega arith) (omega arith), zero_free)
    ]

    from : (¬ Taken (candidate s) (2 ^ 16) s.allocated_packet_ids) → f.chosen ≢ 0
    from nt e = elim f.first [
      | inl (l, u) ↦ omega (arith, (candidate_bounds s).0)
      | inr (u, low) ↦ nt u
    ]

-- On a valid record with room and without 0, id 0, which MQTT forbids, is allocated and put on
-- record whenever the ids from the candidate up to 65535 are all in use.
pub alloc_puts_zero :
    (max_size : ℕ) (s : ClientState)
    → IdsValid s
    → HasRoom max_size s
    → member 0 s.allocated_packet_ids ≡ false
    → Taken (candidate s) (2 ^ 16) s.allocated_packet_ids
    → let (s', id) = alloc_packet_id max_size s in
      (id ≡ 0) × (member 0 s'.allocated_packet_ids ≡ true)
alloc_puts_zero max_size s v room zero_free t = elim (found_by s v room.1).first [
  | inl (l, u) ↦
      cc (
        t (found_by s v room.1).chosen l (found_by s v room.1).in_range,
        (found_by s v room.1).free,
      )
  | inr (u, low) ↦
      let e : (found_by s v room.1).chosen ≡ 0 = chosen_zero (found_by s v room.1).chosen low in
      rw (alloc_found max_size s v room, e)
        (refl, member-insert_at 0 0 s.allocated_packet_ids (lower_bound 0 s.allocated_packet_ids))
]
  where
    chosen_zero : (k : ℕ) → Taken 0 k s.allocated_packet_ids → k ≡ 0
    chosen_zero zero low = refl
    chosen_zero (suc k) low = cc (low 0 (omega arith) (omega arith), zero_free)
