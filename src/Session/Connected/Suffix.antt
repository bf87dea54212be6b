-- ===== src/Session/Connected/Suffix.antt =====
-- Where `ClientImpl::brokerConnected` begins to resume the paused publishes.
use cc_mqtt311_libs.Base.{
  ℕ, zero, suc, ◌≤◌, ◌<◌, ◌≡◌, refl, Bool, true, false, ◌&&◌, inl, inr, List, [], ◌∷◌, ltb, drop,
  length, Bool-cases, arith,
}
use cc_mqtt311_libs.Client.{SendOp}
use cc_mqtt311_libs.Client.Sends.{paused_at}
use cc_mqtt311_libs.Session.Connected.{paused_suffix}

abbrev pub all_paused : List SendOp → Bool
all_paused [] = true
all_paused (op ∷ rest) = op.paused && all_paused rest

paused_at-cons :
    (op : SendOp) (rest : List SendOp) (n : ℕ)
    → 0 < n
    → paused_at (op ∷ rest) (suc n) ≡ paused_at rest n
paused_at-cons op rest zero h = absurd (omega arith)
paused_at-cons op rest (suc n) h = refl

-- The index at which a reconnection begins to resume is within the list of publishes; from it on
-- all of them are paused, and the one just before it, if there is one, is not.
pub paused_suffix_lem :
    (xs : List SendOp)
    → (paused_suffix xs ≤ length xs)
      × (all_paused (drop (paused_suffix xs) xs) ≡ true)
      × (paused_at xs (paused_suffix xs) ≡ false)
unfolding paused_suffix
paused_suffix_lem [] = (omega arith, refl, refl)
paused_suffix_lem (op ∷ rest) = elim (Bool-cases (ltb 0 (paused_suffix rest))) [
  | inl later ↦
      let ih = paused_suffix_lem rest in
      rw later (
        omega (arith, ih.0),
        ih.1,
        rw (paused_at-cons op rest (paused_suffix rest) (ground arith)) ih.2,
      )
  | inr first ↦
      let ih = paused_suffix_lem rest in
      let start : paused_suffix rest ≡ 0 = ground arith in
      let waiting : all_paused rest ≡ true = rw start at (ih.1) in
      elim (Bool-cases op.paused) [
        | inl p ↦ rw (first, p) (omega arith, waiting, refl)
        | inr p ↦ rw (first, p, start) (omega arith, waiting, refl)
      ]
]
