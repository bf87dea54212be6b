-- ===== src/Ops/Subscribe/Accepted.antt =====
-- When the loop of `SubscribeOp::handle` over the return codes runs to its end.
use cc_mqtt311_libs.Base.{
  ℕ, suc, ◌+◌, ◌<◌, ◌≤◌, ◌≡◌, refl, ap, ◌∙◌, Bool, true, false, not, ◌&&◌, none, List, [], ◌∷◌,
  ◌++◌, ltb, leb, Bool-cases, inl, inr, length, arith,
}
use cc_mqtt311_libs.Base.SortedSet.{lower_bound, contains, length-insert_at}
use cc_mqtt311_libs.State.{Text}
use cc_mqtt311_libs.Topics.Order.{text_order}
use cc_mqtt311_libs.Client.{Build}
use cc_mqtt311_libs.Ops.Subscribe.{
  Progress, record_filter, is_rejected, take_code, take_codes, filters_max_size,
}
use cc_mqtt311_libs.Ops.Subscribe.Granted.{
  is_allowed, all_allowed, rejected_iff, record_filter-codes,
}

length-snoc : (xs : List ℕ) (x : ℕ) → length (xs ++ x ∷ []) ≡ suc (length xs)
length-snoc [] x = refl
length-snoc (y ∷ ys) x = ap suc (length-snoc ys x)

module _ (b : Build) (verify : Bool) where
  -- A round that goes on, with the lengths after it.
  record GoesOn (p q : Progress) : Type 0 where
    on : q.stopped ≡ none
    more_codes : length q.codes ≡ suc (length p.codes)
    more_filters : length q.filters ≤ suc (length p.filters)

  record_filter-GoesOn :
      (topic : Text) (code : ℕ) (p : Progress)
      → p.stopped ≡ none
      → ((b.cfg.has_sub_topic_verification && verify) ≡ true
          → length p.filters < filters_max_size b)
      → ((record_filter b verify topic code p).stopped ≡ none)
        × (length (record_filter b verify topic code p).filters ≤ suc (length p.filters))
  unfolding record_filter
  record_filter-GoesOn topic code p n room = elim (Bool-cases b.cfg.has_sub_topic_verification) [
    | inr off ↦ rw off (n, omega arith)
    | inl on ↦ elim (Bool-cases verify) [
      | inr off ↦ rw (on, off) (n, omega arith)
      | inl v ↦
          let fits : length p.filters < filters_max_size b = room (rw (on, v) refl) in
          let not_full : leb (filters_max_size b) (length p.filters) ≡ false = ground arith in
          let grown = length-insert_at p.filters (lower_bound topic p.filters) topic in
          elim (Bool-cases (ltb 2 code)) [
            | inl failed ↦ rw (on, v, failed) (n, omega arith)
            | inr qos ↦ elim (Bool-cases (contains topic p.filters)) [
              | inl here ↦ rw (on, v, qos, here) (n, omega arith)
              | inr absent ↦ rw (not_full, on, v, qos, absent) (n, omega (arith, grown))
            ]
          ]
    ]
  ]

  take_code-GoesOn :
      (topic : Text) (requested code : ℕ) (p : Progress)
      → p.stopped ≡ none
      → is_allowed requested code ≡ true
      → length p.codes < b.return_codes_max
      → ((b.cfg.has_sub_topic_verification && verify) ≡ true
          → length p.filters < filters_max_size b)
      → GoesOn p (take_code b verify (topic, requested) code p)
  unfolding take_code
  take_code-GoesOn topic requested code p n allowed short room =
      let fits : leb b.return_codes_max (length p.codes) ≡ false = ground arith in
      let ok : is_rejected b requested code ≡ false =
        rejected_iff b requested code ∙ ap not allowed in
      let p' : Progress = record p { codes = p.codes ++ code ∷ [] } in
      let r = record_filter-GoesOn topic code p' n room in
      rw (fits, ok, take_code)
        (record {
          on = r.0;
          more_codes =
              ap length (record_filter-codes b verify topic code p') ∙ length-snoc p.codes code;
          more_filters = r.1;
        })

  -- With codes that are allowed and room for them and their filters, the loop runs to its end.
  pub take_codes-go_on :
      (ts : List (Text × ℕ)) (codes : List ℕ) (p : Progress)
      → p.stopped ≡ none
      → all_allowed ts codes ≡ true
      → length p.codes + length codes ≤ b.return_codes_max
      → ((b.cfg.has_sub_topic_verification && verify) ≡ true
          → length p.filters + length codes ≤ filters_max_size b)
      → (take_codes b verify ts codes p).stopped ≡ none
  unfolding take_codes
  take_codes-go_on [] codes p n allowed short room = n
  take_codes-go_on (t ∷ ts) [] p n allowed short room = n
  take_codes-go_on ((topic, requested) ∷ ts) (code ∷ codes) p n allowed short room =
      let ok : is_allowed requested code ≡ true = ground arith in
      let r =
        take_code-GoesOn topic requested code p n ok (omega arith) (λ h. omega (arith, room h)) in
      rw (r.on, take_codes)
        (take_codes-go_on ts codes (take_code b verify (topic, requested) code p) r.on
          (ground arith) (omega (arith, r.more_codes)) (λ h. omega (arith, room h, r.more_filters)))
