-- ===== src/Registered/Ended.antt =====
-- A disconnection ends every operation but the publishes.
use mathlib.Core.Path.{subst}
use cc_mqtt311_libs.Base.{
  ℕ, zero, suc, ◌+◌, ◌≡◌, refl, sym, ap, ◌∙◌, true, false, inl, inr, Option, none, some, List, [],
  leb, find_if, get_elem?, length, get_elem?_lt, Option-cases, Bool-cases,
}
use cc_mqtt311_libs.State.{SessionState}
use cc_mqtt311_libs.Client.{
  Client, Build, AsyncOpStatus, DisconnectReason, OpPtr, OpType, connects, keeps_alive, disconnects,
  subscribes, unsubscribes, receives, sends,
}
use cc_mqtt311_libs.Client.Registry.{is_send, is_recv}
use cc_mqtt311_libs.Client.Broker.{
  keep_send_recv, is_kept, mark_disconnecting, report_disconnect, terminate_ops,
  connectivity_by_type, connectivity_changed, connectivity_from, disconnect_broker,
}
use cc_mqtt311_libs.Registered.{ids_of, lists, list_ids, IsRegistered}
use cc_mqtt311_libs.Registered.Broker.{disconnect_broker-Evolves}
use cc_mqtt311_libs.Registered.Quiet.{Quiet, still}
use cc_mqtt311_libs.Registered.Cleared.{Cleared, ids_of-Cleared, terminate_ops-Ending}

-- After the operations that were to end have ended, the loop over the pointers changes timers only.
module _ (b : Build) where
  connectivity-Quiet :
      (t : OpType) (id : ℕ) (c : Client)
      → is_kept keep_send_recv t ≡ true
      → Quiet c.ops c (connectivity_by_type b t id c)
  unfolding connectivity_by_type
  connectivity-Quiet sends id c k = elim (Option-cases (find_if (is_send id) c.send_ops)) [
    | inl e ↦ rw (e, connectivity_by_type) (still c)
    | inr (op, e) ↦
        rw (e, connectivity_by_type)
          (record { ops_are = refl; send_ops = refl; recv_ops = refl; session = refl })
  ]
  connectivity-Quiet receives id c k = elim (Option-cases (find_if (is_recv id) c.recv_ops)) [
    | inl e ↦ rw (e, connectivity_by_type) (still c)
    | inr (op, e) ↦ elim (Bool-cases (leb 2 b.cfg.max_qos)) [
      | inl f ↦
          rw (e, f, connectivity_by_type)
            (record { ops_are = refl; send_ops = refl; recv_ops = refl; session = refl })
      | inr f ↦ rw (e, f, connectivity_by_type) (still c)
    ]
  ]
  connectivity-Quiet connects id c k = cc
  connectivity-Quiet keeps_alive id c k = cc
  connectivity-Quiet disconnects id c k = cc
  connectivity-Quiet subscribes id c k = cc
  connectivity-Quiet unsubscribes id c k = cc

  connectivity_changed-Quiet :
      (i : ℕ) (o : Option (Option OpPtr)) (c : Client)
      → get_elem? c.ops i ≡ o
      → Cleared (length c.ops) c.ops
      → Quiet c.ops c (connectivity_changed b o c)
  unfolding connectivity_changed Cleared
  connectivity_changed-Quiet i none c e k = still c
  connectivity_changed-Quiet i (some none) c e k = still c
  connectivity_changed-Quiet i (some (some p)) c e k =
      connectivity-Quiet p.op_type p.id c (k i p (get_elem?_lt c.ops i (some p) e) e)

  connectivity_from-Quiet :
      (count idx : ℕ) (c : Client)
      → Cleared (length c.ops) c.ops
      → Quiet c.ops c (connectivity_from b count idx c)
  unfolding connectivity_from
  connectivity_from-Quiet zero idx c k = still c
  connectivity_from-Quiet (suc count) idx c k =
      let d = connectivity_changed b (get_elem? c.ops idx) c in
      let q = connectivity_changed-Quiet idx _ c refl k in
      let q' =
        connectivity_from-Quiet count (idx + 1) d
          (subst (λ ps. Cleared (length ps) ps) (sym q.ops_are) k) in
      record {
        ops_are = q'.ops_are ∙ q.ops_are;
        send_ops = q'.send_ops ∙ q.send_ops;
        recv_ops = q'.recv_ops ∙ q.recv_ops;
        session = q'.session ∙ q.session;
      }

-- What `brokerDisconnected` leaves.
pub record Disconnected (c d : Client) : Type 0 where
  pub ended : (t : OpType) → is_kept keep_send_recv t ≡ false → list_ids t (lists d) ≡ []
  pub sends_stay : d.send_ops ≡ c.send_ops
  pub recvs_stay : d.recv_ops ≡ c.recv_ops
  pub unconnected : d.session.connected ≡ false
  pub disconnecting : d.session.disconnecting ≡ true

report-Quiet :
    (ops : List (Option OpPtr)) (c d : Client) (reason : Option DisconnectReason)
    → Quiet ops c d
    → Quiet ops c (report_disconnect reason d)
report-Quiet ops c d none q = q
report-Quiet ops c d (some reason) q = record {
  ops_are = q.ops_are;
  send_ops = q.send_ops;
  recv_ops = q.recv_ops;
  session = q.session;
}

module _ (b : Build) where
  disconnect_broker-Quiet :
      (reason : Option DisconnectReason) (status : AsyncOpStatus) (c : Client)
      → IsRegistered c
      → (ops : List (Option OpPtr)) × Cleared (length ops) ops
        × Quiet ops (mark_disconnecting c) (disconnect_broker b reason status c)
  unfolding disconnect_broker
  disconnect_broker-Quiet reason status c r =
      let c0 = mark_disconnecting c in
      let c1 = terminate_ops b status keep_send_recv c0 in
      let s = terminate_ops-Ending b status c0 r in
      let cleared : Cleared (length c1.ops) c1.ops =
        subst (λ k. Cleared k c1.ops) (sym s.same_length) s.cleared in
      let q = connectivity_from-Quiet b (length c1.ops) 0 c1 cleared in
      (
        c1.ops,
        cleared,
        report-Quiet c1.ops c0 _ reason (record {
          ops_are = q.ops_are;
          send_ops = q.send_ops ∙ s.quiet.send_ops;
          recv_ops = q.recv_ops ∙ s.quiet.recv_ops;
          session = q.session ∙ s.quiet.session;
        }),
      )

  -- When a client whose lists of operations match its pointers is disconnected from the broker,
  -- for whatever reason, no connect, keep-alive, disconnect, subscribe or unsubscribe operation is
  -- left; the publishes in both directions stay as they are, and the client is marked as not
  -- connected and as disconnecting.
  pub disconnect_broker-Disconnected :
      (reason : Option DisconnectReason) (status : AsyncOpStatus) (c : Client)
      → IsRegistered c
      → Disconnected c (disconnect_broker b reason status c)
  disconnect_broker-Disconnected reason status c r =
      let (ops, cleared, q) = disconnect_broker-Quiet reason status c r in
      let registered = ((disconnect_broker-Evolves b reason status c).grown r).registry in
      record {
        ended =
            λ t h. registered.listed t ∙ ap (ids_of t) q.ops_are ∙ ids_of-Cleared t ops cleared h;
        sends_stay = q.send_ops;
        recvs_stay = q.recv_ops;
        unconnected = ap (λ (s : SessionState). s.connected) q.session;
        disconnecting = ap (λ (s : SessionState). s.disconnecting) q.session;
      }
