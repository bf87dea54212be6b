-- ===== src/Registered/Cleared.antt =====
-- The loop of `terminateOps` at a disconnection: it ends every operation but the publishes.
use mathlib.Core.Path.{subst}
use cc_mqtt311_libs.Base.{
  All, ℕ, zero, suc, ◌+◌, ◌<◌, ◌≡◌, refl, sym, ap, ◌∙◌, true, false, inl, inr, Option, none, some,
  List, [], ◌∷◌, ◌==◌, ==_iff, get_elem?, length, Bool-cases, arith,
}
use cc_mqtt311_libs.Client.{Client, Build, AsyncOpStatus, OpPtr, OpType}
use cc_mqtt311_libs.Client.Registry.{nullify}
use cc_mqtt311_libs.Client.Broker.{
  keep_send_recv, is_kept, terminate_op, terminate_entry, terminate_from, terminate_ops,
}
use cc_mqtt311_libs.Registered.{same_type, ids_of, live_ids, Distinct, IsRegistered}
use cc_mqtt311_libs.Registered.Pointers.{same_type_eq}
use cc_mqtt311_libs.Registered.Broker.{terminate_op-Evolves}
use cc_mqtt311_libs.Registered.Known.{entry-HasType}
use cc_mqtt311_libs.Registered.Quiet.{Quiet, still, terminate_op-Quiet}

-- Before an index every pointer that is not null is to an operation that is kept.
unfoldable pub Cleared : ℕ → List (Option OpPtr) → Type 0
Cleared k ps =
    (i : ℕ) (p : OpPtr)
    → i < k
    → get_elem? ps i ≡ some (some p)
    → is_kept keep_send_recv p.op_type ≡ true

length-nullify : (id : ℕ) (ps : List (Option OpPtr)) → length (nullify id ps) ≡ length ps
length-nullify id [] = refl
length-nullify id (none ∷ ps) = ap suc (length-nullify id ps)
length-nullify id (some p ∷ ps) = elim (Bool-cases (p.id == id)) [
  | inl e ↦ rw e refl
  | inr e ↦ rw e (ap suc (length-nullify id ps))
]

-- No pointer comes up.
get_elem?-nullify :
    (id i : ℕ) (p : OpPtr) (ps : List (Option OpPtr))
    → get_elem? (nullify id ps) i ≡ some (some p)
    → (get_elem? ps i ≡ some (some p))
get_elem?-nullify id i p [] h = h
get_elem?-nullify id zero p (none ∷ ps) h = h
get_elem?-nullify id (suc i) p (none ∷ ps) h = get_elem?-nullify id i p ps h
get_elem?-nullify id zero p (some q ∷ ps) h = elim (Bool-cases (q.id == id)) [
  | inl e ↦ cc (e, h)
  | inr e ↦ cc (e, h)
]
get_elem?-nullify id (suc i) p (some q ∷ ps) h = elim (Bool-cases (q.id == id)) [
  | inl e ↦ cc (e, h)
  | inr e ↦ get_elem?-nullify id i p ps (cc (e, h))
]

at-All :
    (P : ℕ → Type 0) (i : ℕ) (p : OpPtr) (ps : List (Option OpPtr))
    → All P (live_ids ps)
    → get_elem? ps i ≡ some (some p)
    → P p.id
at-All P i p [] a e = cc
at-All P zero p (none ∷ ps) a e = cc
at-All P zero p (some x ∷ ps) a e = let same : x ≡ p = cc in subst (λ (y : OpPtr). P y.id) same a.0
at-All P (suc i) p (none ∷ ps) a e = at-All P i p ps a e
at-All P (suc i) p (some x ∷ ps) a e = at-All P i p ps a.1 e

-- The pointers to the identity are gone.
gone-nullify :
    (i : ℕ) (p : OpPtr) (q : OpPtr) (ps : List (Option OpPtr))
    → Distinct (live_ids ps)
    → get_elem? ps i ≡ some (some p)
    → ¬ (get_elem? (nullify p.id ps) i ≡ some (some q))
gone-nullify i p q [] d e h = cc
gone-nullify zero p q (none ∷ ps) d e h = cc
gone-nullify (suc i) p q (none ∷ ps) d e h = gone-nullify i p q ps d e h
gone-nullify zero p q (some x ∷ ps) d e h =
    let same : x ≡ p = cc in
    let found : (x.id == p.id) ≡ true = rw same ((==_iff p.id p.id).1 refl) in cc (found, h)
gone-nullify (suc i) p q (some x ∷ ps) d e h = elim (Bool-cases (x.id == p.id)) [
  | inl f ↦
      let x_id = (==_iff x.id p.id).0 f in
      let differs = at-All (λ y. (y == x.id) ≡ false) i p ps d.0 e in ground (arith, x_id, differs)
  | inr f ↦ gone-nullify i p q ps d.1 e (cc (f, h))
]

-- The types that are not kept have no operations.
pub ids_of-Cleared :
    (t : OpType) (ps : List (Option OpPtr))
    → Cleared (length ps) ps
    → is_kept keep_send_recv t ≡ false
    → ids_of t ps ≡ []
unfolding Cleared
ids_of-Cleared t [] k h = refl
ids_of-Cleared t (none ∷ ps) k h =
    ids_of-Cleared t ps (λ i p l e. k (suc i) p (omega (arith, l)) e) h
ids_of-Cleared t (some q ∷ ps) k h =
    let rest = ids_of-Cleared t ps (λ i p l e. k (suc i) p (omega (arith, l)) e) h in
    let kept = k zero q (omega arith) refl in
    elim (Bool-cases (same_type q.op_type t)) [
      | inl e ↦ absurd (cc (same_type_eq q.op_type t e, kept, h))
      | inr e ↦ rw e rest
    ]

-- The loop up to an index.
pub record Ending (k : ℕ) (c d : Client) : Type 0 where
  pub registered : IsRegistered d
  pub cleared : Cleared k d.ops
  pub same_length : length d.ops ≡ length c.ops
  pub quiet : Quiet d.ops c d

extend :
    (k : ℕ) (ps : List (Option OpPtr))
    → Cleared k ps
    → ((p : OpPtr) → get_elem? ps k ≡ some (some p) → is_kept keep_send_recv p.op_type ≡ true)
    → Cleared (k + 1) ps
unfolding Cleared
extend k ps cleared here j p l e = elim (Bool-cases (j == k)) [
  | inl f ↦ here p (ap (get_elem? ps) (sym ((==_iff j k).0 f)) ∙ e)
  | inr f ↦ cleared j p (ground (arith, f, l)) e
]

stays-Ending :
    (k : ℕ) (c d : Client)
    → Ending k c d
    → ((p : OpPtr) → get_elem? d.ops k ≡ some (some p) → is_kept keep_send_recv p.op_type ≡ true)
    → Ending (k + 1) c d
stays-Ending k c d s here = record {
  registered = s.registered;
  cleared = extend k d.ops s.cleared here;
  same_length = s.same_length;
  quiet = s.quiet;
}

module _ (b : Build) (status : AsyncOpStatus) where
  ends-Ending :
      (i : ℕ) (p : OpPtr) (c d : Client)
      → get_elem? d.ops i ≡ some (some p)
      → is_kept keep_send_recv p.op_type ≡ false
      → Ending i c d
      → Ending (i + 1) c (terminate_op b p status d)
  unfolding Cleared
  ends-Ending i p c d e h s =
      let q = terminate_op-Quiet b i p status d e h s.registered in
      let k = entry-HasType i p d e s.registered in
      let before : Cleared i (nullify p.id d.ops) =
        λ j r l f. s.cleared j r l (get_elem?-nullify p.id j r d.ops f) in
      let here : (r : OpPtr)
          → get_elem? (nullify p.id d.ops) i ≡ some (some r)
          → is_kept keep_send_recv r.op_type ≡ true =
        λ r f. absurd (gone-nullify i p r d.ops s.registered.distinct e f) in
      record {
        registered = ((terminate_op-Evolves b p status d k).grown s.registered).registry;
        cleared = rw q.ops_are (extend i (nullify p.id d.ops) before here);
        same_length = ap length q.ops_are ∙ length-nullify p.id d.ops ∙ s.same_length;
        quiet = record {
          ops_are = refl;
          send_ops = q.send_ops ∙ s.quiet.send_ops;
          recv_ops = q.recv_ops ∙ s.quiet.recv_ops;
          session = q.session ∙ s.quiet.session;
        };
      }

  terminate_entry-Ending :
      (i : ℕ) (o : Option (Option OpPtr)) (c d : Client)
      → get_elem? d.ops i ≡ o
      → Ending i c d
      → Ending (i + 1) c (terminate_entry b keep_send_recv status o d)
  unfolding terminate_entry
  terminate_entry-Ending i none c d e s = stays-Ending i c d s (λ p f. cc)
  terminate_entry-Ending i (some none) c d e s = stays-Ending i c d s (λ p f. cc)
  terminate_entry-Ending i (some (some p)) c d e s =
      elim (Bool-cases (is_kept keep_send_recv p.op_type)) [
        | inl k ↦ rw k (
            stays-Ending i c d s (λ q f.
              let same : p ≡ q = cc in
              subst (λ (x : OpPtr). is_kept keep_send_recv x.op_type ≡ true) same k))
        | inr k ↦ rw k (ends-Ending i p c d e k s)
      ]

  terminate_from-Ending :
      (count idx : ℕ) (c d : Client)
      → Ending idx c d
      → Ending (count + idx) c (terminate_from b count idx keep_send_recv status d)
  unfolding terminate_from
  terminate_from-Ending zero idx c d s = subst (λ k. Ending k c d) (omega arith) s
  terminate_from-Ending (suc count) idx c d s =
      subst (λ k. Ending k c (terminate_from b (suc count) idx keep_send_recv status d))
        (omega arith)
        (terminate_from-Ending count (idx + 1) c _ (terminate_entry-Ending idx _ c d refl s))

  pub terminate_ops-Ending :
      (c : Client)
      → IsRegistered c
      → Ending (length c.ops) c (terminate_ops b status keep_send_recv c)
  unfolding terminate_ops Cleared
  terminate_ops-Ending c r =
      subst (λ k. Ending k c (terminate_ops b status keep_send_recv c)) (omega arith)
        (terminate_from-Ending (length c.ops) 0 c c (record {
          registered = r;
          cleared = λ j p l e. absurd (omega (arith, l));
          same_length = refl;
          quiet = still c;
        }))
