-- ===== src/Session/Incoming/Overflow.antt =====
-- The push onto `m_ops` by `ClientImpl::handle(PublishMsg&)`, which does not ask for room.
use cc_mqtt311_libs.Base.{
  ℕ, suc, ◌+◌, ◌≤◌, ◌≡◌, refl, ap, ◌∙◌, Bool, true, false, not, ◌&&◌, ◌||◌, Option, some, none,
  List, [], ◌∷◌, ◌++◌, ltb, ◌==◌, ==_iff, find_if, length, length-append, is_empty, if◌then◌else◌,
  Bool-cases, inl, inr, arith, All,
}
use cc_mqtt311_libs.Timers.{destroy_timer}
use cc_mqtt311_libs.Topics.{verify_pub_topic}
use cc_mqtt311_libs.Client.{
  Client, Build, OpPtr, PublishMsg, RecvOp, receives, has_overflow, message_received, overflows_ops,
}
use cc_mqtt311_libs.Client.Output.{emit}
use cc_mqtt311_libs.Client.Registry.{points_to, nullify, erase_recv}
use cc_mqtt311_libs.Client.Sends.{op_complete, op_complete_with, op_complete_by_type}
use cc_mqtt311_libs.Ops.Recv.{
  message_info, is_subscribed, accept_publish, recv_publish, complete_recv,
}
use cc_mqtt311_libs.Session.Connected.{ops_max_size, ops_full, new_timer, push_op}
use cc_mqtt311_libs.Session.Incoming.{create_recv_op, handle_publish}
use cc_mqtt311_libs.Session.Incoming.Duplicate.{if_false, if_true, handle_publishes}
use cc_mqtt311_libs.Session.Frame.{messages_received-Retimed}

-- A publish of QoS 0 that passes the checks of the client.
abbrev pub is_taken : Build → Client → PublishMsg → Bool
is_taken b c msg =
    (msg.qos == 0)
    && (not (is_empty msg.topic || not (verify_pub_topic b.cfg c.config msg.topic false))
        && not (
            b.cfg.has_sub_topic_verification
            && c.config.verify_sub_filter
            && not (is_subscribed b msg.topic c)))

-- An entry at the end of the list is found, or one before it.
found_last :
    (p : OpPtr) (ps : List (Option OpPtr))
    → (q : Option OpPtr) × (find_if (points_to p.id) (ps ++ some p ∷ []) ≡ some q)
found_last p [] = (some p, ground (arith, (==_iff p.id p.id).1 refl))
found_last p (none ∷ ps) = found_last p ps
found_last p (some q ∷ ps) = elim (Bool-cases (q.id == p.id)) [
  | inl e ↦ (some q, ground (arith, e))
  | inr e ↦ let ih = found_last p ps in (ih.0, rw e ih.1)
]

length-nullify : (id : ℕ) (ps : List (Option OpPtr)) → length (nullify id ps) ≡ length ps
length-nullify id [] = refl
length-nullify id (p ∷ ps) = elim (Bool-cases (points_to id p)) [
  | inl e ↦ rw e refl
  | inr e ↦ rw e (ap suc (length-nullify id ps))
]

module _ (b : Build) where
  -- What the next publishes find in the client, and what the trace shows.
  record Passed (c d : Client) : Type 0 where
    same_session : d.session ≡ c.session
    same_config : d.config ≡ c.config
    same_reuse : d.reuse ≡ c.reuse
    none_left : d.recv_ops ≡ []
    one_more : length d.ops ≡ suc (length c.ops)
    overflow : has_overflow d.trace ≡ (ops_full b c || has_overflow c.trace)

  complete_recv-lone :
      (op : RecvOp) (ps : List (Option OpPtr)) (d : Client)
      → d.ops ≡ ps ++ some (record { op_type = receives; id = op.id }) ∷ []
      → d.recv_ops ≡ op ∷ []
      → complete_recv b op.id d ≡ record d {
        ops = nullify op.id d.ops;
        ops_deleted = true;
        recv_ops = [];
        timer_mgr = destroy_timer d.timer_mgr op.timer;
      }
  unfolding op_complete op_complete_with op_complete_by_type erase_recv
  complete_recv-lone op ps d e r =
      let found = found_last (record { op_type = receives; id = op.id }) ps in
      let here : find_if (points_to op.id) d.ops ≡ some found.0 = rw e found.1 in
      let same : (op.id == op.id) ≡ true = (==_iff op.id op.id).1 refl in
      rw
        (
          here, r, same, complete_recv, op_complete, op_complete_with, op_complete_by_type,
          erase_recv,
        )
        refl

  -- The handler of the new operation, for a publish that is taken.
  recv_publish-taken :
      (op : RecvOp) (msg : PublishMsg) (d : Client)
      → d.session.connected ≡ true
      → is_taken b d msg ≡ true
      → op.packet_id ≡ 0
      → recv_publish b op msg d
        ≡ complete_recv b op.id (emit (message_received (message_info msg)) d)
  unfolding recv_publish accept_publish
  recv_publish-taken op msg d connected taken fresh =
      let zero_qos : (msg.qos == 0) ≡ true = ground arith in
      let none_kept : (op.packet_id == 0) ≡ true = (==_iff op.packet_id 0).1 fresh in
      let low : ltb 2 msg.qos ≡ false = ground arith in
      let within : ltb b.cfg.max_qos msg.qos ≡ false = ground arith in
      let not_two : (msg.qos == 2) ≡ false = ground arith in ground arith

  create_recv_op-Passed :
      (msg : PublishMsg) (c : Client)
      → c.session.connected ≡ true
      → c.recv_ops ≡ []
      → b.alloc_room receives 0 ≡ true
      → is_taken b c msg ≡ true
      → Passed c (create_recv_op b msg c)
  unfolding create_recv_op
  create_recv_op-Passed msg c connected none_yet room taken =
      let (c1, timer) = new_timer b c in
      let op : RecvOp = record { id = c.next_op; timer = timer; packet_id = 0 } in
      let ptr : OpPtr = record { op_type = receives; id = op.id } in
      let d : Client = record (push_op b ptr c1) {
        recv_ops = c1.recv_ops ++ op ∷ [];
        next_op = c.next_op + 1;
      } in
      let told = emit (message_received (message_info msg)) d in
      let e =
        recv_publish-taken op msg d connected taken refl
        ∙ complete_recv-lone op c.ops told refl (ap (λ ops. ops ++ op ∷ []) none_yet) in
      let all_room : b.alloc_room receives (length c.recv_ops) ≡ true =
        ap (λ ops. b.alloc_room receives (length ops)) none_yet ∙ room in
      rw (all_room, e)
        (record {
          same_session = refl;
          same_config = refl;
          same_reuse = refl;
          none_left = refl;
          one_more =
              length-nullify op.id (c.ops ++ some ptr ∷ [])
              ∙ omega (arith, length-append c.ops (some ptr ∷ []));
          overflow = push_trace (ops_full b c) c;
        })
    where
      push_trace :
          (full : Bool) (c : Client)
          → has_overflow (if full then overflows_ops ∷ c.trace else c.trace)
            ≡ (full || has_overflow c.trace)
      push_trace true c = refl
      push_trace false c = refl

  -- The state in which one publish after the other is taken.
  record Ready (c : Client) : Type 0 where
    active : c.session.disconnecting ≡ false
    connected : c.session.connected ≡ true
    none_yet : c.recv_ops ≡ []

  abbrev AllTaken : Client → List PublishMsg → Type 0
  AllTaken c msgs = All (λ msg. is_taken b c msg ≡ true) msgs

  handle_publish-Passed :
      (msg : PublishMsg) (c : Client)
      → Ready c
      → b.alloc_room receives 0 ≡ true
      → is_taken b c msg ≡ true
      → Passed c (handle_publish b msg c)
  unfolding handle_publish
  handle_publish-Passed msg c r room taken =
      let (m, e) = messages_received-Retimed c.keep_alive_ops c in
      let zero_qos : (msg.qos == 0) ≡ true = ground arith in
      let p =
        create_recv_op-Passed msg (record c { timer_mgr = m }) r.connected r.none_yet room taken in
      let step : handle_publish b msg c ≡ create_recv_op b msg (record c { timer_mgr = m }) =
        if_false c.session.disconnecting _ _ r.active
        ∙ if_true ((msg.qos == 0) || (msg.qos == 1)) _ _ (ap (λ t. t || (msg.qos == 1)) zero_qos)
        ∙ ap (create_recv_op b msg) e in
      rw step (record {
        same_session = p.same_session;
        same_config = p.same_config;
        same_reuse = p.same_reuse;
        none_left = p.none_left;
        one_more = p.one_more;
        overflow = p.overflow;
      })

  Passed-Ready : (c d : Client) → Ready c → Passed c d → Ready d
  Passed-Ready c d r p = record {
    active = ap (λ s. s.disconnecting) p.same_session ∙ r.active;
    connected = ap (λ s. s.connected) p.same_session ∙ r.connected;
    none_yet = p.none_left;
  }

  Passed-taken :
      (c d : Client) (msgs : List PublishMsg) → Passed c d → AllTaken c msgs → AllTaken d msgs
  Passed-taken c d [] p t = tt
  Passed-taken c d (msg ∷ msgs) p t =
      (rw (p.same_config, p.same_reuse) t.0, Passed-taken c d msgs p t.1)

  handle_publishes-stays :
      (msgs : List PublishMsg) (c : Client)
      → Ready c
      → b.alloc_room receives 0 ≡ true
      → AllTaken c msgs
      → has_overflow c.trace ≡ true
      → has_overflow (handle_publishes b msgs c).trace ≡ true
  handle_publishes-stays [] c r room t h = h
  handle_publishes-stays (msg ∷ msgs) c r room t h =
      let d = handle_publish b msg c in
      let p = handle_publish-Passed msg c r room t.0 in
      handle_publishes-stays msgs d (Passed-Ready c d r p) room (Passed-taken c d msgs p t.1)
        (ground (arith, p.overflow))

  -- Publishes of QoS 0 that pass the checks of the client come in one after the other, with no
  -- cleaning of the list of all operations in between, in a connected client that is receiving
  -- nothing, has room for one receive operation, and whose list of all operations is within its
  -- capacity and has not overflowed: the list is appended to while it is full exactly if its
  -- entries, those of operations that are complete included, and the publishes together are more
  -- than its capacity.
  pub handle_publishes-overflow :
      (msgs : List PublishMsg) (c : Client)
      → c.session.disconnecting ≡ false
      → c.session.connected ≡ true
      → c.recv_ops ≡ []
      → b.alloc_room receives 0 ≡ true
      → All (λ msg. is_taken b c msg ≡ true) msgs
      → has_overflow c.trace ≡ false
      → length c.ops ≤ ops_max_size b
      → has_overflow (handle_publishes b msgs c).trace
        ≡ ltb (ops_max_size b) (length c.ops + length msgs)
  handle_publishes-overflow [] c active connected none_yet room t h fits = ground arith
  handle_publishes-overflow (msg ∷ msgs) c active connected none_yet room t h fits =
      let d = handle_publish b msg c in
      let r : Ready c = record { active = active; connected = connected; none_yet = none_yet } in
      let p = handle_publish-Passed msg c r room t.0 in
      let r' = Passed-Ready c d r p in
      let t' = Passed-taken c d msgs p t.1 in
      elim (Bool-cases (ops_full b c)) [
        | inl is_full ↦
            handle_publishes-stays msgs d r' room t' (p.overflow ∙ rw is_full refl) ∙ ground arith
        | inr has_room ↦
            let more = p.one_more in
            handle_publishes-overflow msgs d r'.active r'.connected r'.none_yet room t'
              (p.overflow ∙ rw (has_room, h) refl) (ground (arith, more))
            ∙ ground (arith, more)
      ]
