-- ===== src/Registered/Answered.antt =====
-- What a SUBACK that is in order does: `handle(SubackMsg&)` of client/lib/src/op/SubscribeOp.cpp, down
-- to the report and the end of the operation.
use cc_mqtt311_libs.Base.{
  ℕ, ◌+◌, ◌≤◌, ◌≡◌, refl, sym, ap, ◌∙◌, Bool, true, ◌&&◌, ◌||◌, inl, inr, Option, none, some, List,
  [], ◌∷◌, ◌==◌, ==_iff, find_if, erase_first, length, Bool-cases, Option-cases, arith,
}
use cc_mqtt311_libs.State.{Text}
use cc_mqtt311_libs.Client.{
  Client, Build, Event, AsyncOpStatus, OpPtr, OpType, SubscribeOp, subscribes, subscribe_completes,
  complete,
}
use cc_mqtt311_libs.Client.Output.{cancel_timer}
use cc_mqtt311_libs.Client.Registry.{points_to, is_subscribe, nullify, erase_subscribe}
use cc_mqtt311_libs.Client.Sends.{op_complete, op_complete_with, op_complete_by_type}
use cc_mqtt311_libs.Client.Broker.{complete_subscribe}
use cc_mqtt311_libs.Base.SortedSet.{member, Sorted}
use cc_mqtt311_libs.Topics.Order.{text_order}
use cc_mqtt311_libs.Ops.Subscribe.{
  Progress, start_progress, take_codes, finish_subscribe, handle_suback, filters_max_size,
}
use cc_mqtt311_libs.Ops.Subscribe.Granted.{is_granted, all_allowed, take_codes_lem}
use cc_mqtt311_libs.Ops.Subscribe.Accepted.{take_codes-go_on}
use cc_mqtt311_libs.Registered.{same_type, ids_of, has, IsRegistered}
use cc_mqtt311_libs.Registered.Known.{found-has}

-- The operation is reported as the last event, and is no longer in its list.
record Answered (e : Event) (id : ℕ) (filters : List Text) (c d : Client) : Type 0 where
  reported : d.trace ≡ e ∷ c.trace
  ended : d.subscribe_ops ≡ erase_first (is_subscribe id) c.subscribe_ops
  filters_are : d.reuse.sub_filters ≡ filters

abbrev pub has_filter_record : Build → Client → Bool
has_filter_record b c = b.cfg.has_sub_topic_verification && c.config.verify_sub_filter

-- The subscribe is reported with the codes as the last event and has left its list, and of the
-- filters on record those that were granted a QoS are the new ones, if there is a record.
pub record Granted (b : Build) (op : SubscribeOp) (codes : List ℕ) (c d : Client) : Type 0 where
  pub reported : d.trace ≡ subscribe_completes op.id complete (some codes) ∷ c.trace
  pub ended : d.subscribe_ops ≡ erase_first (is_subscribe op.id) c.subscribe_ops
  pub sorted : Sorted d.reuse.sub_filters
  pub recorded :
      (j : Text)
      → member j d.reuse.sub_filters
        ≡ (has_filter_record b c && is_granted j op.topics codes || member j c.reuse.sub_filters)

-- An identity in the list of a type has a pointer.
pointed :
    (t : OpType) (id : ℕ) (ps : List (Option OpPtr))
    → has id (ids_of t ps) ≡ true
    → ¬ (find_if (points_to id) ps ≡ none)
pointed t id [] h f = cc
pointed t id (none ∷ ps) h f = pointed t id ps h f
pointed t id (some p ∷ ps) h f = elim (Bool-cases (p.id == id)) [
  | inl e ↦ cc (e, f)
  | inr e ↦ elim (Bool-cases (same_type p.op_type t)) [
    | inl s ↦ pointed t id ps (ground (arith, e, s, h)) (cc (e, f))
    | inr s ↦ pointed t id ps (ground (arith, e, s, h)) (cc (e, f))
  ]
]

module _ (b : Build) where
  erase-Answered :
      (e : Event) (id : ℕ) (c : Client)
      → Answered e id c.reuse.sub_filters c
          (record (erase_subscribe id c) { trace = e ∷ (erase_subscribe id c).trace })
  unfolding erase_subscribe
  erase-Answered e id c = elim (Option-cases (find_if (is_subscribe id) c.subscribe_ops)) [
    | inl f ↦ record {
      reported = rw (f, erase_subscribe) refl;
      ended = rw (f, erase_subscribe) refl;
      filters_are = rw (f, erase_subscribe) refl;
    }
    | inr (op, f) ↦ record {
      reported = rw (f, erase_subscribe) refl;
      ended = rw (f, erase_subscribe) refl;
      filters_are = rw (f, erase_subscribe) refl;
    }
  ]

  complete_subscribe-Answered :
      (id : ℕ) (status : AsyncOpStatus) (codes : Option (List ℕ)) (op : SubscribeOp) (c : Client)
      → has id (ids_of subscribes c.ops) ≡ true
      → find_if (is_subscribe id) c.subscribe_ops ≡ some op
      → op.has_cb ≡ true
      → Answered
          (subscribe_completes id status codes)
          id
          c.reuse.sub_filters
          c
          (complete_subscribe b id status codes c)
  unfolding complete_subscribe op_complete op_complete_with op_complete_by_type
  complete_subscribe-Answered id status codes op c h f cb =
      elim (Option-cases (find_if (points_to id) c.ops)) [
        | inl g ↦ absurd (pointed subscribes id c.ops h g)
        | inr (p, g) ↦
            let c1 : Client = record c { ops = nullify id c.ops; ops_deleted = true } in
            let a = erase-Answered (subscribe_completes id status codes) id c1 in
            rw (f, cb, g, complete_subscribe, op_complete_with)
              (record { reported = a.reported; ended = a.ended; filters_are = a.filters_are })
      ]

  finish_subscribe-Answered :
      (op : SubscribeOp) (p : Progress) (c : Client)
      → IsRegistered c
      → find_if (is_subscribe op.id) c.subscribe_ops ≡ some op
      → op.has_cb ≡ true
      → p.stopped ≡ none
      → Answered
          (subscribe_completes op.id complete (some p.codes))
          op.id
          p.filters
          c
          (finish_subscribe b op.id p c)
  finish_subscribe-Answered op p c r f cb going =
      let c1 : Client = record c { reuse = record { sub_filters = p.filters } } in
      let here =
        ap (has op.id) (sym (r.listed subscribes))
        ∙ found-has (λ (o : SubscribeOp). o.id) (is_subscribe op.id) c.subscribe_ops op f in
      let a = complete_subscribe-Answered op.id complete (some p.codes) op c1 here f cb in
      rw going (record { reported = a.reported; ended = a.ended; filters_are = a.filters_are })

  -- In a client whose lists of operations match its pointers and whose record of filters is
  -- sorted, a SUBACK for a subscribe in progress with a callback, with its packet id and one code
  -- for each topic, each allowed by MQTT for its topic, with room for the codes and, where filters
  -- are recorded, for as many filters: the last thing that the application is told, and the only
  -- one, is that the subscribe is complete with just those codes; the subscribe leaves its list;
  -- the record stays sorted and has gained exactly the filters that were granted a QoS, where
  -- filters are recorded.
  pub handle_suback-Granted :
      (op : SubscribeOp) (packet_id : ℕ) (codes : List ℕ) (c : Client)
      → IsRegistered c
      → find_if (is_subscribe op.id) c.subscribe_ops ≡ some op
      → op.has_cb ≡ true
      → packet_id ≡ op.packet_id
      → length op.topics ≡ length codes
      → all_allowed op.topics codes ≡ true
      → length codes ≤ b.return_codes_max
      → Sorted c.reuse.sub_filters
      → (has_filter_record b c ≡ true
          → length c.reuse.sub_filters + length codes ≤ filters_max_size b)
      → Granted b op codes c (handle_suback b op packet_id codes c)
  unfolding handle_suback
  handle_suback-Granted op packet_id codes c r f cb same_id same_length allowed short sorted room =
      let verify = c.config.verify_sub_filter in
      let p = take_codes b verify op.topics codes (start_progress b c) in
      let going : p.stopped ≡ none =
        take_codes-go_on b verify op.topics codes (start_progress b c) refl allowed (omega arith)
          room in
      let taken =
        take_codes_lem b verify op.topics codes (start_progress b c) same_length sorted refl
          going in
      let matching : (packet_id == op.packet_id) ≡ true =
        (==_iff packet_id op.packet_id).1 same_id in
      let as_many : (length op.topics == length codes) ≡ true =
        (==_iff (length op.topics) (length codes)).1 same_length in
      let a = finish_subscribe-Answered op p (cancel_timer op.timer c) r f cb going in
      rw (matching, as_many, handle_suback)
        (record {
          reported =
              a.reported
              ∙ ap (λ cs. subscribe_completes op.id complete (some cs) ∷ c.trace) taken.0;
          ended = a.ended;
          sorted = rw a.filters_are taken.2;
          recorded = λ j. ap (member j) a.filters_are ∙ taken.3 j;
        })
