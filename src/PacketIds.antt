-- ===== src/PacketIds.antt =====
-- `Op::allocPacketId` and `Op::releasePacketId` of client/lib/src/op/Op.cpp.
pub mod Search
pub mod Alloc
pub mod Release
pub mod Refines
use cc_mqtt311_libs.Base.{
  ℕ, zero, suc, ◌+◌, ◌-◌, ◌%◌, ◌^◌, Bool, true, false, not, ◌||◌, Option, none, some, List, [], ◌∷◌,
  ◌++◌, ltb, leb, ◌==◌, ==_iff, if◌then◌else◌, is_empty, length, arith,
}
use cc_mqtt311_libs.Base.{◌≡◌}
use cc_mqtt311_libs.Base.SortedSet.{Order, insert_at, erase_at, lower_bound, found_at, contains}
use cc_mqtt311_libs.State.{ClientState}

pub ltb_irrefl : (a : ℕ) → ltb a a ≡ false
ltb_irrefl a = ground arith

pub ltb_trans : (a b c : ℕ) → ltb a b ≡ true → ltb b c ≡ true → ltb a c ≡ true
ltb_trans a b c h k = ground arith

pub ltb_total : (a b : ℕ) → ltb a b ≡ false → ltb b a ≡ false → a ≡ b
ltb_total a b h k = ground arith

instance abbrev pub nat_order : Order ℕ
nat_order = record {
  lt = ltb;
  eq = ◌==◌;
  eq_iff = ==_iff;
  lt_irrefl = ltb_irrefl;
  lt_trans = ltb_trans;
  lt_total = ltb_total;
}

-- `std::numeric_limits<std::uint16_t>::max()`
abbrev pub max_packet_id : ℕ
max_packet_id = 2 ^ 16 - 1

-- `static_cast<std::uint16_t>(id + 1U)`
abbrev pub next_id : ℕ → ℕ
next_id id = (id + 1) % 2 ^ 16

-- `allocatedPacketIds.empty() || (allocatedPacketIds.back() < id)`
abbrev pub is_above_all : ℕ → List ℕ → Bool
is_above_all id [] = true
is_above_all id (x ∷ []) = ltb x id
is_above_all id (x ∷ y ∷ ys) = is_above_all id (y ∷ ys)

-- The `while (true)` loop: the list with the chosen id, and that id. `none` is fuel run out.
pub find_packet_id : ℕ → List ℕ → ℕ → Option (List ℕ × ℕ)
find_packet_id zero ids id = none
find_packet_id (suc fuel) ids id =
    let again = find_packet_id fuel ids (next_id id) in
    if is_above_all id ids
    then some (ids ++ id ∷ [], id)
    else if not (contains id ids)
    then some (insert_at ids (lower_bound id ids) id, id)
    else again

-- Twice through all ids.
abbrev pub search_fuel : ℕ
search_fuel = 2 ^ 17

first_candidate : ℕ → ℕ
first_candidate last = if next_id last == 0 then 1 else next_id last

-- `max_size` is that of the list, which depends on the configuration.
unfoldable pub alloc_packet_id : ℕ → ClientState → ClientState × ℕ
unfolding first_candidate
alloc_packet_id max_size s =
    let found =
      find_packet_id search_fuel s.allocated_packet_ids (first_candidate s.last_packet_id) in
    if leb max_size (length s.allocated_packet_ids)
      || leb max_packet_id (length s.allocated_packet_ids)
    then (s, 0)
    else elim found [
      | none ↦ (s, 0)
      | some (ids, id) ↦ (record s { allocated_packet_ids = ids; last_packet_id = id }, id)
    ]

unfoldable pub release_packet_id : ℕ → ClientState → ClientState
release_packet_id id s =
    if id == 0 then s else if not (contains id s.allocated_packet_ids) then s else record s {
      allocated_packet_ids =
          erase_at s.allocated_packet_ids (lower_bound id s.allocated_packet_ids);
    }
