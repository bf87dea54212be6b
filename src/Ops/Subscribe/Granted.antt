-- ===== src/Ops/Subscribe/Granted.antt =====
-- What a SUBACK that is accepted leaves on record (`SubscribeOp::handle`).
use cc_mqtt311_libs.Base.{
  ℕ, ◌≡◌, refl, sym, ◌∙◌, Bool, true, false, not, ◌&&◌, ◌||◌, none, some, List, [], ◌∷◌, ◌++◌, ltb,
  leb, ◌==◌, Bool-cases, Option-cases, inl, inr, length, arith,
}
use cc_mqtt311_libs.Base.SortedSet.{
  lower_bound, contains, member, Sorted, contains-eq-member, insert-Sorted, member-insert_at,
}
use mathlib.Core.List.{append_assoc, append-nil}
use cc_mqtt311_libs.State.{Text}
use cc_mqtt311_libs.Topics.{text_eq}
use cc_mqtt311_libs.Topics.Order.{text_order, text_eq_iff}
use cc_mqtt311_libs.Client.{Build, failed_internally, protocol_error}
use cc_mqtt311_libs.Ops.Subscribe.{
  Progress, record_filter, is_rejected, take_code, take_codes, failure_code, filters_max_size,
}

-- A return code that MQTT allows for a request: the failure, or a QoS up to the one requested.
abbrev pub is_allowed : ℕ → ℕ → Bool
is_allowed requested code = (code == failure_code) || leb code 2 && leb code requested

abbrev pub all_allowed : List (Text × ℕ) → List ℕ → Bool
all_allowed [] codes = true
all_allowed (t ∷ ts) [] = true
all_allowed (t ∷ ts) (code ∷ codes) = is_allowed t.1 code && all_allowed ts codes

-- The filter is among the topics whose code is a QoS.
abbrev pub is_granted : Text → List (Text × ℕ) → List ℕ → Bool
is_granted j [] codes = false
is_granted j (t ∷ ts) [] = false
is_granted j (t ∷ ts) (code ∷ codes) = leb code 2 && text_eq t.0 j || is_granted j ts codes

pub rejected_iff :
    (b : Build) (requested code : ℕ)
    → is_rejected b requested code ≡ not (is_allowed requested code)
rejected_iff b requested code = ground arith

module _ (b : Build) (verify : Bool) where
  -- A round that does not stop.
  record Round (topic : Text) (requested code : ℕ) (p q : Progress) : Type 0 where
    codes : q.codes ≡ p.codes ++ code ∷ []
    allowed : is_allowed requested code ≡ true
    sorted : Sorted q.filters
    filters :
        (j : Text)
        → member j q.filters ≡ (
            b.cfg.has_sub_topic_verification && verify && leb code 2 && text_eq topic j
            || member j p.filters)

  member-same :
      (k j : Text) (xs : List Text)
      → member k xs ≡ true
      → (text_eq k j || member j xs) ≡ member j xs
  member-same k j xs h = elim (Bool-cases (text_eq k j)) [
    | inl e ↦
        let same = (text_eq_iff k j).0 e in
        let here : member j xs ≡ true = rw same at h in rw (e, here)
    | inr e ↦ rw e
  ]

  record_filter-filters :
      (topic : Text) (code : ℕ) (p : Progress)
      → Sorted p.filters
      → p.stopped ≡ none
      → (record_filter b verify topic code p).stopped ≡ none
      → Sorted (record_filter b verify topic code p).filters
        × ((j : Text)
            → member j (record_filter b verify topic code p).filters ≡ (
                b.cfg.has_sub_topic_verification && verify && leb code 2 && text_eq topic j
                || member j p.filters))
  unfolding record_filter
  record_filter-filters topic code p s n h = elim (Bool-cases b.cfg.has_sub_topic_verification) [
    | inr off ↦ rw off (s, λ j. refl)
    | inl on ↦ elim (Bool-cases verify) [
      | inr off ↦ rw (on, off) (s, λ j. refl)
      | inl v ↦ elim (Bool-cases (ltb 2 code)) [
        | inl failed ↦
            let e : leb code 2 ≡ false = ground arith in rw (on, v, failed, e) (s, λ j. refl)
        | inr qos ↦ elim (Bool-cases (contains topic p.filters)) [
          | inl here ↦
              let e : leb code 2 ≡ true = ground arith in
              rw (on, v, qos, here, e)
                (
                  s,
                  λ j. sym (
                      member-same topic j p.filters
                        (sym (contains-eq-member topic p.filters s) ∙ here)),
                )
          | inr absent ↦ elim (Bool-cases (leb (filters_max_size b) (length p.filters))) [
            | inl full ↦
                let bad : some failed_internally ≡ none = rw (full, on, v, qos, absent) at h in cc
            | inr room ↦
                let e : leb code 2 ≡ true = ground arith in
                rw (room, on, v, qos, absent, e)
                  (
                    insert-Sorted topic p.filters s absent,
                    λ j. member-insert_at j topic p.filters (lower_bound topic p.filters),
                  )
          ]
        ]
      ]
    ]
  ]

  pub record_filter-codes :
      (topic : Text) (code : ℕ) (p : Progress)
      → (record_filter b verify topic code p).codes ≡ p.codes
  unfolding record_filter
  record_filter-codes topic code p = ground arith

  take_code-Round :
      (topic : Text) (requested code : ℕ) (p : Progress)
      → Sorted p.filters
      → p.stopped ≡ none
      → (take_code b verify (topic, requested) code p).stopped ≡ none
      → Round topic requested code p (take_code b verify (topic, requested) code p)
  unfolding take_code
  take_code-Round topic requested code p s n h =
      elim (Bool-cases (leb b.return_codes_max (length p.codes))) [
        | inl full ↦ let bad : some failed_internally ≡ none = rw full at h in cc
        | inr room ↦ elim (Bool-cases (is_rejected b requested code)) [
          | inl rejected ↦ let bad : some protocol_error ≡ none = rw (room, rejected) at h in cc
          | inr ok ↦
              let h' : (record_filter b verify topic code
                    (record p { codes = p.codes ++ code ∷ [] })).stopped
                  ≡ none =
                rw (room, ok) at h in
              let f =
                record_filter-filters topic code (record p { codes = p.codes ++ code ∷ [] }) s n
                  h' in
              rw (room, ok)
                (record {
                  codes =
                      record_filter-codes topic code (record p { codes = p.codes ++ code ∷ [] });
                  allowed = ground (arith, rejected_iff b requested code);
                  sorted = f.0;
                  filters = f.1;
                })
        ]
      ]

  -- If no code stops the loop over the return codes of a SUBACK, one for each topic, then: all
  -- codes are reported in their order, each is one that MQTT allows for its topic, the sorted
  -- record of filters stays sorted, and, with the record built in and switched on, it has gained
  -- exactly the filters of the topics that were granted a QoS (otherwise nothing).
  pub take_codes_lem :
      (ts : List (Text × ℕ)) (codes : List ℕ) (p : Progress)
      → length ts ≡ length codes
      → Sorted p.filters
      → p.stopped ≡ none
      → (take_codes b verify ts codes p).stopped ≡ none
      → let q = take_codes b verify ts codes p in
        (q.codes ≡ p.codes ++ codes)
        × (all_allowed ts codes ≡ true)
        × Sorted q.filters
        × ((j : Text)
            → member j q.filters ≡ (
                b.cfg.has_sub_topic_verification && verify && is_granted j ts codes
                || member j p.filters))
  unfolding take_codes
  take_codes_lem [] [] p e s n h = (sym (append-nil p.codes), refl, s, λ j. ground arith)
  take_codes_lem [] (code ∷ codes) p e s n h = cc
  take_codes_lem (t ∷ ts) [] p e s n h = cc
  take_codes_lem ((topic, requested) ∷ ts) (code ∷ codes) p e s n h =
      elim (Option-cases (take_code b verify (topic, requested) code p).stopped) [
        | inr (status, stopped) ↦
            let bad : (take_code b verify (topic, requested) code p).stopped ≡ none =
              rw (stopped, take_codes) at h in
            cc (stopped, bad)
        | inl on ↦
            let r = take_code-Round topic requested code p s n on in
            let h' : (take_codes b verify ts codes
                  (take_code b verify (topic, requested) code p)).stopped
                ≡ none =
              rw (on, take_codes) at h in
            let rest =
              take_codes_lem ts codes (take_code b verify (topic, requested) code p) (ground arith)
                r.sorted on h' in
            rw (on, take_codes)
              (
                rest.0 ∙ rw r.codes (append_assoc p.codes (code ∷ []) codes),
                rw (r.allowed) rest.1,
                rest.2,
                λ j. ground (arith, rest.3 j, r.filters j),
              )
      ]
