-- ===== src/Registered.antt =====
-- The registry of operations in client/lib/src/ClientImpl.h: `m_ops` against the lists that own the
-- operations. The children follow every call of the client through it.
pub mod Pointers
pub mod Evolves
pub mod Known
pub mod Erasure
pub mod Sends
pub mod Broker
pub mod Messages
pub mod Publishes
pub mod Arrivals
pub mod Connection
pub mod Scope
pub mod Handles
pub mod Prepared
pub mod Found
pub mod Calls
pub mod Unique
pub mod Quiet
pub mod Cleared
pub mod Ended
pub mod Silent
pub mod Answered
use cc_mqtt311_libs.Base.{
  ℕ, ◌+◌, ◌<◌, ◌≡◌, Bool, true, false, Option, none, some, List, [], ◌∷◌, map, ◌==◌, ◌||◌,
  if◌then◌else◌, All,
}
use cc_mqtt311_libs.Client.{
  Client, OpPtr, OpType, ConnectOp, KeepAliveOp, SubscribeOp, UnsubscribeOp, RecvOp, SendOp,
  connects, keeps_alive, disconnects, subscribes, unsubscribes, receives, sends,
}

abbrev pub type_tag : OpType → ℕ
type_tag connects = 0
type_tag keeps_alive = 1
type_tag disconnects = 2
type_tag subscribes = 3
type_tag unsubscribes = 4
type_tag receives = 5
type_tag sends = 6

abbrev pub same_type : OpType → OpType → Bool
same_type s t = type_tag s == type_tag t

-- The identities that the pointers of a type hold, in order.
abbrev pub ids_of : OpType → List (Option OpPtr) → List ℕ
ids_of t [] = []
ids_of t (none ∷ ps) = ids_of t ps
ids_of t (some p ∷ ps) = if same_type p.op_type t then p.id ∷ ids_of t ps else ids_of t ps

abbrev pub live_ids : List (Option OpPtr) → List ℕ
live_ids [] = []
live_ids (none ∷ ps) = live_ids ps
live_ids (some p ∷ ps) = p.id ∷ live_ids ps

abbrev pub has : ℕ → List ℕ → Bool
has id [] = false
has id (x ∷ xs) = x == id || has id xs

abbrev pub Distinct : List ℕ → Type 0
Distinct [] = Unit
Distinct (x ∷ xs) = All (λ y. (y == x) ≡ false) xs × Distinct xs

-- The part of the client that the registry is.
pub record Lists : Type 0 where
  pub connect_ops : List ConnectOp
  pub keep_alive_ops : List KeepAliveOp
  pub disconnect_ops : List ℕ
  pub subscribe_ops : List SubscribeOp
  pub unsubscribe_ops : List UnsubscribeOp
  pub recv_ops : List RecvOp
  pub send_ops : List SendOp
  pub ops : List (Option OpPtr)
  pub next_op : ℕ

abbrev pub lists : Client → Lists
lists c = record {
  connect_ops = c.connect_ops;
  keep_alive_ops = c.keep_alive_ops;
  disconnect_ops = c.disconnect_ops;
  subscribe_ops = c.subscribe_ops;
  unsubscribe_ops = c.unsubscribe_ops;
  recv_ops = c.recv_ops;
  send_ops = c.send_ops;
  ops = c.ops;
  next_op = c.next_op;
}

-- The identities of the operations that the list of a type owns.
abbrev pub list_ids : OpType → Lists → List ℕ
list_ids connects l = map (λ (o : ConnectOp). o.id) l.connect_ops
list_ids keeps_alive l = map (λ (o : KeepAliveOp). o.id) l.keep_alive_ops
list_ids disconnects l = l.disconnect_ops
list_ids subscribes l = map (λ (o : SubscribeOp). o.id) l.subscribe_ops
list_ids unsubscribes l = map (λ (o : UnsubscribeOp). o.id) l.unsubscribe_ops
list_ids receives l = map (λ (o : RecvOp). o.id) l.recv_ops
list_ids sends l = map (λ (o : SendOp). o.id) l.send_ops

-- The live pointers of a type are the operations in its list, one for one and in order; no two live
-- pointers are to one operation; identities to come are new.
pub record IsRegistry (l : Lists) : Type 0 where
  pub listed : (t : OpType) → list_ids t l ≡ ids_of t l.ops
  pub distinct : Distinct (live_ids l.ops)
  pub below : All (λ i. i < l.next_op) (live_ids l.ops)

abbrev pub IsRegistered : Client → Type 0
IsRegistered c = IsRegistry (lists c)

-- A pointer to that operation, if it is one, is of that type.
abbrev pub PointerFits : OpType → ℕ → Option OpPtr → Type 0
PointerFits t id none = Unit
PointerFits t id (some p) = (p.id == id) ≡ true → p.op_type ≡ t

-- The identity has been given out, and no pointer of another type is to it.
pub record HasType (t : OpType) (id : ℕ) (l : Lists) : Type 0 where
  pub given : id < l.next_op
  pub fits : All (PointerFits t id) l.ops
