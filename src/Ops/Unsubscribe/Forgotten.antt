-- ===== src/Ops/Unsubscribe/Forgotten.antt =====
-- What an UNSUBACK takes off the record of filters (`UnsubscribeOp::handle`).
use cc_mqtt311_libs.Base.{
  ◌≡◌, refl, sym, ◌∙◌, Bool, false, not, ◌&&◌, ◌||◌, List, [], ◌∷◌, Bool-cases, inl, inr, arith,
}
use cc_mqtt311_libs.Base.SortedSet.{
  erase_at, lower_bound, contains, member, Sorted, contains-eq-member, erase-Sorted, member-erase,
}
use cc_mqtt311_libs.State.{Text}
use cc_mqtt311_libs.Topics.{text_eq}
use cc_mqtt311_libs.Topics.Order.{text_order, text_eq_iff}
use cc_mqtt311_libs.Ops.Unsubscribe.{forget_topics}

-- The filter is one of the topics.
abbrev pub is_named : Text → List Text → Bool
is_named j [] = false
is_named j (t ∷ ts) = text_eq t j || is_named j ts

absent_same :
    (k j : Text) (xs : List Text)
    → member k xs ≡ false
    → member j xs ≡ (not (text_eq k j) && member j xs)
absent_same k j xs h = elim (Bool-cases (text_eq k j)) [
  | inl e ↦
      let same = (text_eq_iff k j).0 e in
      let gone : member j xs ≡ false = rw same at h in rw (e, gone)
  | inr e ↦ rw e
]

-- The topics of an unsubscribe request are taken off the sorted record of filters, each of them
-- and no other filter, also when some are not on it or are named twice; it stays sorted.
pub forget_topics_lem :
    (ts filters : List Text)
    → Sorted filters
    → Sorted (forget_topics ts filters)
      × ((j : Text)
          → member j (forget_topics ts filters) ≡ (not (is_named j ts) && member j filters))
unfolding forget_topics
forget_topics_lem [] filters s = (s, λ j. refl)
forget_topics_lem (t ∷ ts) filters s = elim (Bool-cases (contains t filters)) [
  | inl here ↦
      let rest =
        forget_topics_lem ts (erase_at filters (lower_bound t filters))
          (erase-Sorted filters (lower_bound t filters) s) in
      rw here (rest.0, λ j. ground (arith, rest.1 j, member-erase j t filters s here))
  | inr absent ↦
      let rest = forget_topics_lem ts filters s in
      rw absent (
        rest.0,
        λ j. ground (
          arith,
          rest.1 j,
          absent_same t j filters (sym (contains-eq-member t filters s) ∙ absent),
        ),
      )
]
