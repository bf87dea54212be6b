-- ===== src/Client/Sends/Lists.antt =====
-- The list of publishes in progress under the changes that the client makes to it.
use cc_mqtt311_libs.Base.{
  ℕ, zero, suc, ◌+◌, ◌≤◌, ◌<◌, ◌≡◌, refl, Bool, true, false, inl, inr, some, List, [], ◌∷◌, ◌==◌,
  ==_iff, length, get_elem?, find_if, find_index, erase_first, update_if, count_if, All, Bool-cases,
  arith,
}
use cc_mqtt311_libs.Client.{SendOp}
use cc_mqtt311_libs.Client.Registry.{is_send}
use cc_mqtt311_libs.Client.Sends.{unpause}

abbrev pub is_paused : SendOp → Bool
is_paused op = op.paused

abbrev pub paused_count : List SendOp → ℕ
paused_count xs = count_if is_paused xs

-- No two publishes have one identity.
abbrev pub UniqueSends : List SendOp → Type 0
UniqueSends [] = Unit
UniqueSends (x ∷ xs) = All (λ o. (o.id == x.id) ≡ false) xs × UniqueSends xs

module _ (p : SendOp → Bool) (f : SendOp → SendOp) where
  pub length-update_if : (xs : List SendOp) → length (update_if p f xs) ≡ length xs
  length-update_if [] = refl
  length-update_if (x ∷ xs) = omega (arith, length-update_if xs)

  module _ (same_id : (op : SendOp) → (f op).id ≡ op.id) where
    All-update_if :
        (k : ℕ) (xs : List SendOp)
        → All (λ o. (o.id == k) ≡ false) xs
        → All (λ o. (o.id == k) ≡ false) (update_if p f xs)
    All-update_if k [] a = tt
    All-update_if k (x ∷ xs) a = elim (Bool-cases (p x)) [
      | inl e ↦ rw e (rw (same_id x) a.0, All-update_if k xs a.1)
      | inr e ↦ rw e (a.0, All-update_if k xs a.1)
    ]

    pub update_if-UniqueSends : (xs : List SendOp) → UniqueSends xs → UniqueSends (update_if p f xs)
    update_if-UniqueSends [] u = tt
    update_if-UniqueSends (x ∷ xs) u = elim (Bool-cases (p x)) [
      | inl e ↦ rw (e, same_id x) (All-update_if x.id xs u.0, update_if-UniqueSends xs u.1)
      | inr e ↦ rw e (All-update_if x.id xs u.0, update_if-UniqueSends xs u.1)
    ]

    pub find_index-update_if :
        (id : ℕ) (xs : List SendOp)
        → find_index (is_send id) (update_if p f xs) ≡ find_index (is_send id) xs
    find_index-update_if id [] = refl
    find_index-update_if id (x ∷ xs) = elim (Bool-cases (p x)) [
      | inl e ↦ rw (e, same_id x) (rw (find_index-update_if id xs) refl)
      | inr e ↦ rw e (rw (find_index-update_if id xs) refl)
    ]

  pub paused_count-update_if :
      ((op : SendOp) → (f op).paused ≡ op.paused)
      → (xs : List SendOp) → paused_count (update_if p f xs) ≡ paused_count xs
  paused_count-update_if same [] = refl
  paused_count-update_if same (x ∷ xs) = elim (Bool-cases (p x)) [
    | inl e ↦ rw (e, same x) (rw (paused_count-update_if same xs) refl)
    | inr e ↦ rw e (rw (paused_count-update_if same xs) refl)
  ]

-- Unpausing takes paused publishes off.
pub paused_count-unpause :
    (id : ℕ) (xs : List SendOp) → paused_count (update_if (is_send id) unpause xs) ≤ paused_count xs
paused_count-unpause id [] = omega arith
paused_count-unpause id (x ∷ xs) = ground (arith, paused_count-unpause id xs)

pub paused_count-unpause_lt :
    (xs : List SendOp) (i : ℕ) (op : SendOp)
    → get_elem? xs i ≡ some op
    → op.paused ≡ true
    → paused_count (update_if (is_send op.id) unpause xs) < paused_count xs
paused_count-unpause_lt [] i op e h = cc
paused_count-unpause_lt (x ∷ xs) zero op e h = ground (arith, paused_count-unpause op.id xs)
paused_count-unpause_lt (x ∷ xs) (suc i) op e h =
    ground (arith, paused_count-unpause_lt xs i op e h)

module _ (id : ℕ) where
  All-erase_first :
      (k : ℕ) (xs : List SendOp)
      → All (λ o. (o.id == k) ≡ false) xs
      → All (λ o. (o.id == k) ≡ false) (erase_first (is_send id) xs)
  All-erase_first k [] a = tt
  All-erase_first k (x ∷ xs) a = elim (Bool-cases (x.id == id)) [
    | inl e ↦ rw e a.1
    | inr e ↦ rw e (a.0, All-erase_first k xs a.1)
  ]

  pub erase_first-UniqueSends :
      (xs : List SendOp) → UniqueSends xs → UniqueSends (erase_first (is_send id) xs)
  erase_first-UniqueSends [] u = tt
  erase_first-UniqueSends (x ∷ xs) u = elim (Bool-cases (x.id == id)) [
    | inl e ↦ rw e u.1
    | inr e ↦ rw e (All-erase_first x.id xs u.0, erase_first-UniqueSends xs u.1)
  ]

  pub paused_count-erase_first :
      (xs : List SendOp) → paused_count (erase_first (is_send id) xs) ≤ paused_count xs
  paused_count-erase_first [] = omega arith
  paused_count-erase_first (x ∷ xs) = ground (arith, paused_count-erase_first xs)

  pub length-erase_first :
      (xs : List SendOp)
      → find_index (is_send id) xs < length xs
      → length (erase_first (is_send id) xs) + 1 ≡ length xs
  length-erase_first [] h = absurd (omega arith)
  length-erase_first (x ∷ xs) h = ground (arith, length-erase_first xs)

  pub find_if_here :
      (xs : List SendOp)
      → find_index (is_send id) xs < length xs
      → (op : SendOp) × (find_if (is_send id) xs ≡ some op) × (op.id ≡ id)
  find_if_here [] h = absurd (omega arith)
  find_if_here (x ∷ xs) h = elim (Bool-cases (x.id == id)) [
    | inl e ↦ (x, rw e refl, (==_iff x.id id).0 e)
    | inr e ↦ let (op, f, same) = find_if_here xs (ground arith) in (op, rw e f, same)
  ]

All-get_id :
    (k : ℕ) (xs : List SendOp) (i : ℕ) (op : SendOp)
    → All (λ o. (o.id == k) ≡ false) xs
    → get_elem? xs i ≡ some op
    → (k == op.id) ≡ false
All-get_id k [] i op a e = cc
All-get_id k (x ∷ xs) zero op a e = ground arith
All-get_id k (x ∷ xs) (suc i) op a e = All-get_id k xs i op a.1 e

-- With unique identities a publish is found at its own index.
pub find_index-get_elem :
    (xs : List SendOp) (i : ℕ) (op : SendOp)
    → UniqueSends xs
    → get_elem? xs i ≡ some op
    → find_index (is_send op.id) xs ≡ i
find_index-get_elem [] i op u e = cc
find_index-get_elem (x ∷ xs) zero op u e = ground arith
find_index-get_elem (x ∷ xs) (suc i) op u e =
    let other : (x.id == op.id) ≡ false = All-get_id x.id xs i op u.0 e in
    rw other (rw (find_index-get_elem xs i op u.1 e) refl)
