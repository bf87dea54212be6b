-- ===== src/Registered/Broker.antt =====
-- The calls of Client/Broker, in the registry.
use cc_mqtt311_libs.Base.{
  ℕ, zero, suc, ◌+◌, ◌≡◌, refl, Bool, inl, inr, Option, none, some, List, find_if, get_elem?,
  length, leb, Option-cases,
}
use cc_mqtt311_libs.Client.{
  Client, Build, Event, AsyncOpStatus, OpPtr, OpType, DisconnectReason, ConnectResponse, ConnectOp,
  SubscribeOp, UnsubscribeOp, connects, keeps_alive, disconnects, subscribes, unsubscribes,
  receives, sends, broker_disconnected,
}
use cc_mqtt311_libs.Client.Registry.{is_send, is_recv, is_connect, is_subscribe, is_unsubscribe}
use cc_mqtt311_libs.Client.Broker.{
  report_if, TerminateMode, keep_send_recv, is_kept, mark_disconnecting, report_disconnect,
  complete_connect, complete_subscribe, complete_unsubscribe, terminate_by_type, terminate_op,
  terminate_entry, terminate_from, terminate_ops, connectivity_by_type, connectivity_changed,
  connectivity_from, disconnect_broker,
}
use cc_mqtt311_libs.Registered.{lists, HasType}
use cc_mqtt311_libs.Registered.Evolves.{Evolves, Evolves-trans, outside, outside_first, if-Evolves}
use cc_mqtt311_libs.Registered.Known.{entry-HasType, known-HasType, given_registry}
use cc_mqtt311_libs.Registered.Sends.{op_complete-Evolves, complete_send-Evolves}

pub report_if-Evolves :
    (c d : Client) (t : Bool) (e : Event) → Evolves c d → Evolves c (report_if t e d)
report_if-Evolves c d t e s = if-Evolves c t _ _ (Evolves-trans s (outside refl)) s

report_disconnect-Evolves :
    (c d : Client) (reason : Option DisconnectReason)
    → Evolves c d
    → Evolves c (report_disconnect reason d)
report_disconnect-Evolves c d none s = s
report_disconnect-Evolves c d (some reason) s = Evolves-trans s (outside refl)

module _ (b : Build) where
  pub complete_connect-Evolves :
      (id : ℕ) (status : AsyncOpStatus) (response : Option ConnectResponse) (c : Client)
      → Evolves c (complete_connect b id status response c)
  unfolding complete_connect
  complete_connect-Evolves id status response c =
      elim (Option-cases (find_if (is_connect id) c.connect_ops)) [
        | inl e ↦ rw (e, complete_connect) (outside refl)
        | inr (op, e) ↦
            rw (e, complete_connect)
              (given_registry (λ r. report_if-Evolves c _ op.has_cb _ (
                op_complete-Evolves b connects id c (
                  known-HasType (λ (o : ConnectOp). o.id) connects (lists c) c.connect_ops refl id
                    op e r))))
      ]

  pub complete_subscribe-Evolves :
      (id : ℕ) (status : AsyncOpStatus) (codes : Option (List ℕ)) (c : Client)
      → Evolves c (complete_subscribe b id status codes c)
  unfolding complete_subscribe
  complete_subscribe-Evolves id status codes c =
      elim (Option-cases (find_if (is_subscribe id) c.subscribe_ops)) [
        | inl e ↦ rw (e, complete_subscribe) (outside refl)
        | inr (op, e) ↦
            rw (e, complete_subscribe)
              (given_registry (λ r. report_if-Evolves c _ op.has_cb _ (
                op_complete-Evolves b subscribes id c (
                  known-HasType (λ (o : SubscribeOp). o.id) subscribes (lists c) c.subscribe_ops
                    refl id op e r))))
      ]

  pub complete_unsubscribe-Evolves :
      (id : ℕ) (status : AsyncOpStatus) (c : Client)
      → Evolves c (complete_unsubscribe b id status c)
  unfolding complete_unsubscribe
  complete_unsubscribe-Evolves id status c =
      elim (Option-cases (find_if (is_unsubscribe id) c.unsubscribe_ops)) [
        | inl e ↦ rw (e, complete_unsubscribe) (outside refl)
        | inr (op, e) ↦
            rw (e, complete_unsubscribe)
              (given_registry (λ r. report_if-Evolves c _ op.has_cb _ (
                op_complete-Evolves b unsubscribes id c (
                  known-HasType (λ (o : UnsubscribeOp). o.id) unsubscribes (lists c)
                    c.unsubscribe_ops refl id op e r))))
      ]

  terminate_by_type-Evolves :
      (t : OpType) (id : ℕ) (status : AsyncOpStatus) (c : Client)
      → HasType t id (lists c)
      → Evolves c (terminate_by_type b t id status c)
  unfolding terminate_by_type
  terminate_by_type-Evolves connects id status c h = complete_connect-Evolves id status none c
  terminate_by_type-Evolves keeps_alive id status c h = op_complete-Evolves b keeps_alive id c h
  terminate_by_type-Evolves disconnects id status c h = op_complete-Evolves b disconnects id c h
  terminate_by_type-Evolves subscribes id status c h = complete_subscribe-Evolves id status none c
  terminate_by_type-Evolves unsubscribes id status c h = complete_unsubscribe-Evolves id status c
  terminate_by_type-Evolves receives id status c h = op_complete-Evolves b receives id c h
  terminate_by_type-Evolves sends id status c h = complete_send-Evolves b id status c

  pub terminate_op-Evolves :
      (p : OpPtr) (status : AsyncOpStatus) (c : Client)
      → HasType p.op_type p.id (lists c)
      → Evolves c (terminate_op b p status c)
  unfolding terminate_op
  terminate_op-Evolves p status c h = terminate_by_type-Evolves p.op_type p.id status c h

  pub terminate_entry-Evolves :
      (mode : TerminateMode) (status : AsyncOpStatus) (i : ℕ) (o : Option (Option OpPtr))
      (c : Client)
      → get_elem? c.ops i ≡ o
      → Evolves c (terminate_entry b mode status o c)
  unfolding terminate_entry
  terminate_entry-Evolves mode status i none c e = outside refl
  terminate_entry-Evolves mode status i (some none) c e = outside refl
  terminate_entry-Evolves mode status i (some (some p)) c e =
      if-Evolves c (is_kept mode p.op_type) _ _ (outside refl)
        (given_registry (λ r. terminate_op-Evolves p status c (entry-HasType i p c e r)))

  terminate_from-Evolves :
      (count idx : ℕ) (mode : TerminateMode) (status : AsyncOpStatus) (c : Client)
      → Evolves c (terminate_from b count idx mode status c)
  unfolding terminate_from
  terminate_from-Evolves zero idx mode status c = outside refl
  terminate_from-Evolves (suc count) idx mode status c =
      Evolves-trans (terminate_entry-Evolves mode status idx _ c refl)
        (terminate_from-Evolves count (idx + 1) mode status _)

  pub terminate_ops-Evolves :
      (status : AsyncOpStatus) (mode : TerminateMode) (c : Client)
      → Evolves c (terminate_ops b status mode c)
  unfolding terminate_ops
  terminate_ops-Evolves status mode c = terminate_from-Evolves (length c.ops) 0 mode status c

  connectivity_by_type-Evolves :
      (t : OpType) (id : ℕ) (c : Client) → Evolves c (connectivity_by_type b t id c)
  unfolding connectivity_by_type
  connectivity_by_type-Evolves connects id c =
      if-Evolves c c.client_state.network_disconnected _ _
        (complete_connect-Evolves id broker_disconnected none c) (outside refl)
  connectivity_by_type-Evolves sends id c = elim (Option-cases (find_if (is_send id) c.send_ops)) [
    | inl e ↦ rw (e, connectivity_by_type) (outside refl)
    | inr (op, e) ↦ rw (e, connectivity_by_type) (outside refl)
  ]
  connectivity_by_type-Evolves receives id c =
      elim (Option-cases (find_if (is_recv id) c.recv_ops)) [
        | inl e ↦ rw (e, connectivity_by_type) (outside refl)
        | inr (op, e) ↦
            rw (e, connectivity_by_type)
              (if-Evolves c (leb 2 b.cfg.max_qos) _ _ (outside refl) (outside refl))
      ]
  connectivity_by_type-Evolves keeps_alive id c = outside refl
  connectivity_by_type-Evolves disconnects id c = outside refl
  connectivity_by_type-Evolves subscribes id c = outside refl
  connectivity_by_type-Evolves unsubscribes id c = outside refl

  connectivity_changed-Evolves :
      (o : Option (Option OpPtr)) (c : Client) → Evolves c (connectivity_changed b o c)
  unfolding connectivity_changed
  connectivity_changed-Evolves none c = outside refl
  connectivity_changed-Evolves (some none) c = outside refl
  connectivity_changed-Evolves (some (some p)) c = connectivity_by_type-Evolves p.op_type p.id c

  connectivity_from-Evolves :
      (count idx : ℕ) (c : Client) → Evolves c (connectivity_from b count idx c)
  unfolding connectivity_from
  connectivity_from-Evolves zero idx c = outside refl
  connectivity_from-Evolves (suc count) idx c =
      Evolves-trans (connectivity_changed-Evolves _ c) (connectivity_from-Evolves count (idx + 1) _)

  pub disconnect_broker-Evolves :
      (reason : Option DisconnectReason) (status : AsyncOpStatus) (c : Client)
      → Evolves c (disconnect_broker b reason status c)
  unfolding disconnect_broker
  disconnect_broker-Evolves reason status c = report_disconnect-Evolves c _ reason (
      Evolves-trans
        (outside_first (terminate_ops-Evolves status keep_send_recv (mark_disconnecting c)) refl)
        (connectivity_from-Evolves _ 0 _))
