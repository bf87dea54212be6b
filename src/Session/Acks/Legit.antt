-- ===== src/Session/Acks/Legit.antt =====
-- `ClientImpl::isLegitSendAck`: which acknowledgements come in order.
use cc_mqtt311_libs.Base.{
  ℕ, ◌≡◌, Bool, true, false, not, ◌&&◌, List, [], ◌∷◌, ◌++◌, ◌==◌, is_empty, All, arith,
}
use cc_mqtt311_libs.Client.{Client, SendOp}
use cc_mqtt311_libs.Session.Acks.{legit_from, is_legit_send_ack}

-- Every one of these publishes has had its PUBACK or PUBREC.
abbrev pub all_acked : List SendOp → Bool
all_acked [] = true
all_acked (op ∷ rest) = op.acked && all_acked rest

legit_from_front :
    (id : ℕ) (pubcomp_ack : Bool) (before : List SendOp) (op : SendOp) (later : List SendOp)
    → All (λ o. (o.id == id) ≡ false) before
    → (op.id == id) ≡ true
    → legit_from id false pubcomp_ack (before ++ op ∷ later)
      ≡ (all_acked before && not (pubcomp_ack && not (is_empty before)))
unfolding legit_from
legit_from_front id pubcomp_ack [] op later a e = ground arith
legit_from_front id pubcomp_ack (o ∷ before) op later a e =
    ground (arith, legit_from_front id pubcomp_ack before op later a.1 e)

-- An acknowledgement of a publish in the list, whose identity none before it has, is in order
-- exactly if the publish was sent and all publishes before it are acknowledged; a PUBCOMP also has
-- to be for the first one in the list.
pub is_legit_send_ack_lem :
    (c : Client) (pubcomp_ack : Bool) (before : List SendOp) (op : SendOp) (later : List SendOp)
    → c.send_ops ≡ before ++ op ∷ later
    → All (λ o. (o.id == op.id) ≡ false) before
    → is_legit_send_ack op pubcomp_ack c
      ≡ (op.published && all_acked before && not (pubcomp_ack && not (is_empty before)))
unfolding is_legit_send_ack legit_from
is_legit_send_ack_lem c pubcomp_ack [] op later e a = rw e (ground arith)
is_legit_send_ack_lem c pubcomp_ack (o ∷ before) op later e a =
    rw e (ground (arith, legit_from_front op.id pubcomp_ack before op later a.1))
