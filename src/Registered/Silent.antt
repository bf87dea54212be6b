-- ===== src/Registered/Silent.antt =====
-- What the client does when the answer to its ping does not come (`pingTimeoutInternal` of
-- client/lib/src/op/KeepAliveOp.cpp).
use cc_mqtt311_libs.Base.{ℕ, ◌≡◌, refl, some, List, ◌∷◌, find_if}
use cc_mqtt311_libs.Client.{
  Client, Build, Event, KeepAliveOp, DisconnectReason, AsyncOpStatus, broker_disconnects,
  no_broker_response, broker_disconnected,
}
use cc_mqtt311_libs.Client.Registry.{is_keep_alive}
use cc_mqtt311_libs.Client.Broker.{disconnect_broker}
use cc_mqtt311_libs.Ops.KeepAlive.{resp_timeout}
use cc_mqtt311_libs.Registered.{IsRegistered}
use cc_mqtt311_libs.Registered.Broker.{disconnect_broker-Evolves}
use cc_mqtt311_libs.Registered.Ended.{Disconnected, disconnect_broker-Disconnected}

-- The disconnection, and its report as the last event.
pub record GivenUp (reason : DisconnectReason) (c d : Client) : Type 0 where
  pub disconnected : Disconnected c d
  pub registered : IsRegistered d
  pub earlier : List Event
  pub reported : d.trace ≡ broker_disconnects reason ∷ earlier

module _ (b : Build) where
  disconnect_broker-GivenUp :
      (reason : DisconnectReason) (status : AsyncOpStatus) (c : Client)
      → IsRegistered c
      → GivenUp reason c (disconnect_broker b (some reason) status c)
  unfolding disconnect_broker
  disconnect_broker-GivenUp reason status c r = record {
    disconnected = disconnect_broker-Disconnected b (some reason) status c r;
    registered = ((disconnect_broker-Evolves b (some reason) status c).grown r).registry;
    earlier = _;
    reported = refl;
  }

  -- In a client whose lists of operations match its pointers, when the answer to a ping does not
  -- come in time: the last thing that the application is told is that the broker does not respond;
  -- no operation but the publishes is left, the client is not connected and is disconnecting, and
  -- its lists still match its pointers.
  pub resp_timeout-GivenUp :
      (id : ℕ) (op : KeepAliveOp) (c : Client)
      → IsRegistered c
      → find_if (is_keep_alive id) c.keep_alive_ops ≡ some op
      → GivenUp no_broker_response c (resp_timeout b id c)
  unfolding resp_timeout
  resp_timeout-GivenUp id op c r e =
      rw (e, resp_timeout) (disconnect_broker-GivenUp no_broker_response broker_disconnected c r)
