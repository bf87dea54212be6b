-- ===== src/Examples/CallRuns.antt =====
-- A client that connects, publishes and is disconnected.
use cc_mqtt311_libs.Base.{◌≡◌, refl, arith, true, false, none, some, List, [], ◌∷◌}
use cc_mqtt311_libs.Client.{
  has_overflow, keeps_alive, subscribes, SubscribeOp, KeepAliveOp, Client, new_client,
  no_broker_response, broker_disconnected,
}
use cc_mqtt311_libs.Config.{list_max_size}
use cc_mqtt311_libs.State.{initial_session}
use cc_mqtt311_libs.Client.Broker.{disconnect_broker}
use cc_mqtt311_libs.Client.Sends.{resume_since}
use cc_mqtt311_libs.Client.Sends.Settles.{Settled}
use cc_mqtt311_libs.Ops.Connect.{ConnectConfig}
use cc_mqtt311_libs.Ops.Send.{PublishConfig}
use cc_mqtt311_libs.Session.Acks.{resend_all_until}
use cc_mqtt311_libs.Api.Data.{message, connack}
use cc_mqtt311_libs.Api.Calls.{
  Call, prepares_connect, configures_connect, sends_connect, processes_data, prepares_publish,
  configures_publish, sends_publish,
}
use cc_mqtt311_libs.Api.Interface.{calls}
use cc_mqtt311_libs.Registered.{IsRegistered}
use cc_mqtt311_libs.Registered.Calls.{run-IsRegistered}
use cc_mqtt311_libs.Registered.Ended.{Disconnected, disconnect_broker-Disconnected}
use cc_mqtt311_libs.Ops.KeepAlive.{resp_timeout}
use cc_mqtt311_libs.Ops.Subscribe.{handle_suback}
use cc_mqtt311_libs.Registered.Answered.{Granted, handle_suback-Granted}
use cc_mqtt311_libs.Registered.Silent.{GivenUp, resp_timeout-GivenUp}
use cc_mqtt311_libs.Registered.Unique.{registered_resume-Settled, registered_resend-Settled}
use cc_mqtt311_libs.Examples.TopicRuns.{checked_state}
use cc_mqtt311_libs.Examples.ClientRuns.{demo_build, all_callbacks}

abbrev clean_connect : ConnectConfig
clean_connect = record {
  client_id = none;
  username = none;
  password = none;
  password_len = 0;
  keep_alive = 60;
  clean_session = true;
}

abbrev publish_to_a : PublishConfig
publish_to_a = record { topic = some (97 ∷ []); content = 1 ∷ []; qos = 1; retain = false }

-- A connection, and a publish on its way.
abbrev publishing : List Call
publishing =
    prepares_connect 0
    ∷ configures_connect (some 0) (some clean_connect)
    ∷ sends_connect 0 (some 0) true
    ∷ processes_data 0 4 (message (connack 0 false) 4 ∷ [])
    ∷ prepares_publish
    ∷ configures_publish (some 2) (some publish_to_a)
    ∷ sends_publish 0 (some 2) true
    ∷ []

abbrev publishing_client : Client
publishing_client = calls demo_build publishing (new_client all_callbacks checked_state)

publishing_defined : has_overflow publishing_client.trace ≡ false
unfolding calls cc_mqtt311_libs.Api.Interface.call cc_mqtt311_libs.Api.Prepare.publish_prepare
    cc_mqtt311_libs.Api.Data.process_data cc_mqtt311_libs.Api.Loop.guarded
    cc_mqtt311_libs.Api.Loop.do_api_exit cc_mqtt311_libs.Api.Loop.do_api_enter
    cc_mqtt311_libs.Api.Connect.connect_prepare cc_mqtt311_libs.Api.Connect.init_internal
    cc_mqtt311_libs.Api.Connect.init_body cc_mqtt311_libs.Timers.get_min_wait
    cc_mqtt311_libs.Client.Broker.terminate_ops cc_mqtt311_libs.Client.Broker.terminate_from
    cc_mqtt311_libs.Client.Registry.clean_ops list_max_size cc_mqtt311_libs.Config.ops_limit
    cc_mqtt311_libs.Api.Connect.add_connect cc_mqtt311_libs.Ops.Connect.send_connect
    cc_mqtt311_libs.Timers.alloc_timer cc_mqtt311_libs.Config.timers_limit
    cc_mqtt311_libs.Ops.Connect.config_connect cc_mqtt311_libs.Client.Output.send_message
    cc_mqtt311_libs.Client.Output.messages_sent cc_mqtt311_libs.Timers.timer_wait
    cc_mqtt311_libs.Api.Loop.tick_timers cc_mqtt311_libs.Timers.tick
    cc_mqtt311_libs.Api.Data.process_reads cc_mqtt311_libs.Api.Data.dispatch
    cc_mqtt311_libs.Api.Data.handle_message cc_mqtt311_libs.Api.Data.dispatch_from
    cc_mqtt311_libs.Api.Data.dispatch_entry cc_mqtt311_libs.Ops.Connect.handle_connack
    cc_mqtt311_libs.Client.Broker.complete_connect
    cc_mqtt311_libs.Session.Connected.broker_connected
    cc_mqtt311_libs.Session.Connected.create_keep_alive_op_if_needed
    cc_mqtt311_libs.Session.Connected.abort_from cc_mqtt311_libs.Session.Connected.abort_entry
    cc_mqtt311_libs.Client.Output.restart_ping_timer cc_mqtt311_libs.Client.Sends.op_complete
    cc_mqtt311_libs.Client.Sends.op_complete_with cc_mqtt311_libs.Client.Sends.op_complete_by_type
    cc_mqtt311_libs.Client.Registry.erase_connect cc_mqtt311_libs.Timers.destroy_timer
    cc_mqtt311_libs.Timers.timer_cancel cc_mqtt311_libs.Ops.Send.send_publish
    cc_mqtt311_libs.Ops.Send.config_send cc_mqtt311_libs.Topics.verify_pub_topic
    cc_mqtt311_libs.Topics.pub_topic_from cc_mqtt311_libs.Client.Sends.can_send
    cc_mqtt311_libs.Client.Sends.do_send_internal cc_mqtt311_libs.Client.Sends.restart_send_timer
publishing_defined = refl

publishing-IsRegistered : IsRegistered publishing_client
publishing-IsRegistered =
    run-IsRegistered demo_build all_callbacks checked_state publishing publishing_defined

run_example : IsRegistered (calls demo_build publishing (new_client all_callbacks checked_state))
run_example = run-IsRegistered demo_build all_callbacks checked_state publishing publishing_defined

resume_example : Settled publishing_client (resume_since demo_build 0 publishing_client)
resume_example = registered_resume-Settled demo_build 0 publishing_client publishing-IsRegistered

resend_example : Settled publishing_client (resend_all_until demo_build 2 publishing_client)
resend_example = registered_resend-Settled demo_build 2 publishing_client publishing-IsRegistered

disconnect_example :
    Disconnected publishing_client
      (disconnect_broker demo_build (some no_broker_response) broker_disconnected publishing_client)
disconnect_example =
    disconnect_broker-Disconnected demo_build (some no_broker_response) broker_disconnected
      publishing_client publishing-IsRegistered

-- A connected client with nothing in progress.
abbrev watch : KeepAliveOp
watch = record { id = 0; ping_timer = 0; recv_timer = 1; resp_timer = 2 }

abbrev idle_client : Client
idle_client = record (new_client all_callbacks checked_state) {
  session = record initial_session { connected = true; keep_alive_ms = 1000 };
  keep_alive_ops = watch ∷ [];
  ops = some (record { op_type = keeps_alive; id = 0 }) ∷ [];
  next_op = 1;
}

idle-IsRegistered : IsRegistered idle_client
idle-IsRegistered = record {
  listed = λ t. ground arith;
  distinct = (tt, tt);
  below = (omega arith, tt);
}

silent_example : GivenUp no_broker_response idle_client (resp_timeout demo_build 0 idle_client)
silent_example = resp_timeout-GivenUp demo_build 0 watch idle_client idle-IsRegistered refl

-- A client that waits for the answer to a subscribe.
abbrev subscribing : SubscribeOp
subscribing = record {
  id = 0;
  timer = 0;
  packet_id = 5;
  topics = (97 ∷ [], 1) ∷ [];
  has_cb = true;
  response_timeout_ms = 2000;
}

abbrev subscribing_client : Client
subscribing_client = record (new_client all_callbacks checked_state) {
  session = record initial_session { connected = true; keep_alive_ms = 1000 };
  subscribe_ops = subscribing ∷ [];
  ops = some (record { op_type = subscribes; id = 0 }) ∷ [];
  next_op = 1;
}

subscribing-IsRegistered : IsRegistered subscribing_client
subscribing-IsRegistered = record {
  listed = λ t. ground arith;
  distinct = (tt, tt);
  below = (omega arith, tt);
}

suback_example :
    Granted demo_build subscribing
      (1 ∷ [])
      subscribing_client
      (handle_suback demo_build subscribing 5 (1 ∷ []) subscribing_client)
unfolding list_max_size
suback_example =
    handle_suback-Granted demo_build subscribing 5 (1 ∷ []) subscribing_client
      subscribing-IsRegistered refl refl refl refl refl (omega arith) tt (λ h. omega arith)
