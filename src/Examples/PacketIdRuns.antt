-- ===== src/Examples/PacketIdRuns.antt =====
-- A record of three packet ids, one of them the largest.
use cc_mqtt311_libs.Base.{
  ℕ, ◌+◌, ◌^◌, ◌<◌, ◌≡◌, ◌≢◌, ◌↔◌, refl, sym, List, true, false, not, ◌&&◌, ◌||◌, [], ◌∷◌, ◌==◌,
  length, arith,
}
use cc_mqtt311_libs.Base.SortedSet.{member, Sorted}
use cc_mqtt311_libs.State.{ClientState}
use cc_mqtt311_libs.PacketIds.{nat_order, find_packet_id, alloc_packet_id, release_packet_id}
use cc_mqtt311_libs.PacketIds.Search.{Found, Taken, search_total}
use cc_mqtt311_libs.PacketIds.Alloc.{
  IdsValid, HasRoom, candidate, alloc_packet_id_lem, alloc_nonzero_iff, alloc_puts_zero,
}
use cc_mqtt311_libs.PacketIds.Refines.{IdCall, allocates, releases, run_calls, Allows, run_refines}
use cc_mqtt311_libs.PacketIds.Release.{release_packet_id_lem, release-alloc}

abbrev wrapped : ℕ → ClientState
wrapped last = record {
  allocated_packet_ids = 1 ∷ 2 ∷ 65535 ∷ [];
  last_packet_id = last;
  initialized = true;
  first_connect = false;
  network_disconnected = false;
}

wrapped-Sorted : Sorted {A = ℕ} (1 ∷ 2 ∷ 65535 ∷ [])
wrapped-Sorted = ((refl, (refl, tt)), ((refl, tt), (tt, tt)))

wrapped-IdsValid : (last : ℕ) → last < 2 ^ 16 → IdsValid (wrapped last)
wrapped-IdsValid last h = record {
  sorted = wrapped-Sorted;
  ids = (omega arith, (omega arith, (omega arith, tt)));
  last_id = h;
}

wrapped-HasRoom : (last : ℕ) → HasRoom 10 (wrapped last)
wrapped-HasRoom last = (omega arith, omega arith)

search_example :
    Found (1 ∷ 2 ∷ 65535 ∷ []) 65535 (find_packet_id (2 ^ 17) (1 ∷ 2 ∷ 65535 ∷ []) 65535)
search_example =
    search_total (2 ^ 17) (1 ∷ 2 ∷ 65535 ∷ []) 65535 wrapped-Sorted (omega arith) (omega arith)
      (omega arith)

alloc_example :
    let (s', id) = alloc_packet_id 10 (wrapped 1) in
    (member id (1 ∷ 2 ∷ 65535 ∷ []) ≡ false)
    × ((j : ℕ) → member j s'.allocated_packet_ids ≡ (id == j || member j (1 ∷ 2 ∷ 65535 ∷ [])))
    × IdsValid s'
    × (s'.last_packet_id ≡ id)
    × (length s'.allocated_packet_ids ≡ length (wrapped 1).allocated_packet_ids + 1)
alloc_example =
    alloc_packet_id_lem 10 (wrapped 1) (wrapped-IdsValid 1 (omega arith)) (wrapped-HasRoom 1)

nonzero_example :
    ((alloc_packet_id 10 (wrapped 1)).1 ≢ 0)
    ↔ (¬ Taken (candidate (wrapped 1)) (2 ^ 16) (1 ∷ 2 ∷ 65535 ∷ []))
nonzero_example =
    alloc_nonzero_iff 10 (wrapped 1) (wrapped-IdsValid 1 (omega arith)) (wrapped-HasRoom 1) refl

last_Taken : Taken (candidate (wrapped 65534)) (2 ^ 16) (1 ∷ 2 ∷ 65535 ∷ [])
last_Taken j l h = let e : 65535 ≡ j = omega arith in rw (sym e) refl

zero_example :
    let (s', id) = alloc_packet_id 10 (wrapped 65534) in
    (id ≡ 0) × (member 0 s'.allocated_packet_ids ≡ true)
zero_example =
    alloc_puts_zero 10 (wrapped 65534) (wrapped-IdsValid 65534 (omega arith))
      (wrapped-HasRoom 65534) refl last_Taken

release_example :
    ((j : ℕ)
      → member j (release_packet_id 2 (wrapped 1)).allocated_packet_ids
        ≡ (not (2 == j) && member j (1 ∷ 2 ∷ 65535 ∷ [])))
    × IdsValid (release_packet_id 2 (wrapped 1))
release_example = release_packet_id_lem 2 (wrapped 1) (wrapped-IdsValid 1 (omega arith)) (λ e. cc)

one_nonzero : (alloc_packet_id 10 (wrapped 1)).1 ≢ 0
one_nonzero = nonzero_example.1 λ t. cc (t 3 (omega arith) (omega arith))

release-alloc_example :
    let (s', id) = alloc_packet_id 10 (wrapped 1) in
    (release_packet_id id s').allocated_packet_ids ≡ 1 ∷ 2 ∷ 65535 ∷ []
release-alloc_example =
    release-alloc 10 (wrapped 1) (wrapped-IdsValid 1 (omega arith)) (wrapped-HasRoom 1) one_nonzero

abbrev some_calls : List IdCall
some_calls = allocates ∷ releases 2 ∷ allocates ∷ releases 0 ∷ []

refines_example :
    let (s', ids) = run_calls 10 some_calls (wrapped 1) in
    Allows some_calls
      (λ j. member j (1 ∷ 2 ∷ 65535 ∷ []))
      ids
      (λ j. member j s'.allocated_packet_ids)
refines_example =
    run_refines 10 some_calls (wrapped 1) (λ j. member j (1 ∷ 2 ∷ 65535 ∷ []))
      (wrapped-IdsValid 1 (omega arith)) (λ j. refl) (omega arith) (omega arith)
