-- ===== src/Registered/Unique.antt =====
-- No two operations of a registered client have one identity, so its publishes can be resumed and
-- sent again.
use cc_mqtt311_libs.Base.{ℕ, sym, Option, none, some, List, [], ◌∷◌, map, All, Bool-cases, inl, inr}
use mathlib.Core.Path.{subst}
use cc_mqtt311_libs.Client.{Client, Build, OpPtr, OpType, SendOp, sends}
use cc_mqtt311_libs.Client.Sends.{resume_since}
use cc_mqtt311_libs.Client.Sends.Lists.{UniqueSends}
use cc_mqtt311_libs.Client.Sends.Settles.{Settled}
use cc_mqtt311_libs.Client.Sends.Fuel.{resume_since-Settled}
use cc_mqtt311_libs.Session.Acks.{resend_all_until}
use cc_mqtt311_libs.Session.Acks.Resend.{resend_all_until-Settled}
use cc_mqtt311_libs.Registered.{same_type, ids_of, live_ids, Distinct, IsRegistered}

ids_of-All :
    (P : ℕ → Type 0) (t : OpType) (ps : List (Option OpPtr))
    → All P (live_ids ps)
    → All P (ids_of t ps)
ids_of-All P t [] a = tt
ids_of-All P t (none ∷ ps) a = ids_of-All P t ps a
ids_of-All P t (some p ∷ ps) a = elim (Bool-cases (same_type p.op_type t)) [
  | inl e ↦ rw e (a.0, ids_of-All P t ps a.1)
  | inr e ↦ rw e (ids_of-All P t ps a.1)
]

ids_of-Distinct :
    (t : OpType) (ps : List (Option OpPtr)) → Distinct (live_ids ps) → Distinct (ids_of t ps)
ids_of-Distinct t [] d = tt
ids_of-Distinct t (none ∷ ps) d = ids_of-Distinct t ps d
ids_of-Distinct t (some p ∷ ps) d = elim (Bool-cases (same_type p.op_type t)) [
  | inl e ↦ rw e (ids_of-All _ t ps d.0, ids_of-Distinct t ps d.1)
  | inr e ↦ rw e (ids_of-Distinct t ps d.1)
]

All-of_map :
    (P : ℕ → Type 0) (xs : List SendOp)
    → All P (map (λ (o : SendOp). o.id) xs)
    → All (λ o. P o.id) xs
All-of_map P [] a = tt
All-of_map P (x ∷ xs) a = (a.0, All-of_map P xs a.1)

Distinct-UniqueSends :
    (xs : List SendOp) → Distinct (map (λ (o : SendOp). o.id) xs) → UniqueSends xs
Distinct-UniqueSends [] d = tt
Distinct-UniqueSends (x ∷ xs) d = (All-of_map _ xs d.0, Distinct-UniqueSends xs d.1)

pub registered-UniqueSends : (c : Client) → IsRegistered c → UniqueSends c.send_ops
registered-UniqueSends c r =
    Distinct-UniqueSends c.send_ops
      (subst Distinct (sym (r.listed sends)) (ids_of-Distinct sends c.ops r.distinct))

module _ (b : Build) where
  -- In a client whose lists of operations match its pointers, resuming publishes from any index
  -- ends: the fuel does not run out and no operation is read after its end; the identities of
  -- publishes stay distinct, and no publish is added or paused.
  pub registered_resume-Settled :
      (idx : ℕ) (c : Client) → IsRegistered c → Settled c (resume_since b idx c)
  registered_resume-Settled idx c r = resume_since-Settled b idx c (registered-UniqueSends c r)

  -- In a client whose lists of operations match its pointers, sending publishes again up to a
  -- given one ends: the fuel does not run out and no operation is read after its end; the
  -- identities of publishes stay distinct, and no publish is added or paused.
  pub registered_resend-Settled :
      (id : ℕ) (c : Client) → IsRegistered c → Settled c (resend_all_until b id c)
  registered_resend-Settled id c r = resend_all_until-Settled b id c (registered-UniqueSends c r)
