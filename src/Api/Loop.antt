-- ===== src/Api/Loop.antt =====
-- `tick`, and the scope that `apiEnter` opens: `doApiEnter` and `doApiExit`.
use cc_mqtt311_libs.Base.{ℕ, ◌+◌, ◌-◌, not, ◌||◌, List, [], ◌∷◌, ltb, ◌==◌, if◌then◌else◌}
use cc_mqtt311_libs.Timers.{tick, get_min_wait}
use cc_mqtt311_libs.Client.{
  Client, Build, TimerCb, connect_op_timeout, subscribe_op_timeout, unsubscribe_op_timeout,
  send_op_timeout, recv_op_timeout, keep_alive_ping, keep_alive_recv, keep_alive_resp, timeout,
  programs_tick,
}
use cc_mqtt311_libs.Base.{none}
use cc_mqtt311_libs.Client.Output.{emit}
use cc_mqtt311_libs.Client.Registry.{clean_ops}
use cc_mqtt311_libs.Client.Broker.{complete_connect}
use cc_mqtt311_libs.Ops.Send.{send_timeout}
use cc_mqtt311_libs.Ops.Recv.{recv_timeout}
use cc_mqtt311_libs.Ops.KeepAlive.{ping_timeout, resp_timeout}
use cc_mqtt311_libs.Ops.Subscribe.{subscribe_timeout}
use cc_mqtt311_libs.Ops.Unsubscribe.{unsubscribe_timeout}

module _ (b : Build) where
  -- The call of a timeout callback.
  unfoldable pub fire : TimerCb → Client → Client
  fire (connect_op_timeout id) c = complete_connect b id timeout none c
  fire (subscribe_op_timeout id) c = subscribe_timeout b id c
  fire (unsubscribe_op_timeout id) c = unsubscribe_timeout b id c
  fire (send_op_timeout id) c = send_timeout b id c
  fire (recv_op_timeout id) c = recv_timeout b id c
  fire (keep_alive_ping id) c = ping_timeout b id c
  fire (keep_alive_recv id) c = ping_timeout b id c
  fire (keep_alive_resp id) c = resp_timeout b id c

  unfoldable pub fire_all : List TimerCb → Client → Client
  fire_all [] c = c
  fire_all (cb ∷ cbs) c = fire_all cbs (fire cb c)

  -- `m_timerMgr.tick(ms)` whole: the first loop, then the callbacks that it collected.
  unfoldable pub tick_timers : ℕ → Client → Client
  unfolding fire_all
  tick_timers ms c = let (m, cbs) = tick ms c.timer_mgr in fire_all cbs (record c { timer_mgr = m })

  -- `elapsed` is what the application answers to `m_cancelNextTickWaitCb`.
  unfoldable pub do_api_enter : ℕ → Client → Client
  do_api_enter elapsed c =
      let c1 : Client = record c { api_enter_count = c.api_enter_count + 1 } in
      if ltb 1 c1.api_enter_count || not c.callbacks.cancel_tick
      then c1
      else if get_min_wait c1.timer_mgr == 0
      then c1
      else tick_timers elapsed c1

  unfoldable pub do_api_exit : Client → Client
  do_api_exit c =
      let c1 : Client = record c { api_enter_count = c.api_enter_count - 1 } in
      let c2 = clean_ops c1 in
      if ltb 0 c1.api_enter_count
      then c1
      else if not c.callbacks.next_tick
      then c2
      else if get_min_wait c2.timer_mgr == 0
      then c2
      else emit (programs_tick (get_min_wait c2.timer_mgr)) c2

  unfoldable pub client_tick : ℕ → Client → Client
  unfolding tick_timers do_api_exit
  client_tick ms c =
      do_api_exit (tick_timers ms (record c { api_enter_count = c.api_enter_count + 1 }))

  -- A piece of code in the scope of `apiEnter`.
  unfoldable pub guarded {ℓ} : {R : Type ℓ} → ℕ → (Client → Client × R) → Client → Client × R
  guarded elapsed f c = let (c1, r) = f (do_api_enter elapsed c) in (do_api_exit c1, r)
