-- ===== src/Client/Sends/Settles.antt =====
-- What a change of the client does to its list of publishes and to the trace.
use mathlib.Core.Path.{subst}
use cc_mqtt311_libs.Base.{
  ℕ, ◌+◌, ◌-◌, ◌≤◌, ◌<◌, ◌≡◌, refl, sym, ap, ◌∙◌, Bool, true, false, ◌⊎◌, inl, inr, List,
  if◌then◌else◌, length, find_if, find_index, erase_first, count_if, Bool-cases, Option-cases,
  arith,
}
use cc_mqtt311_libs.Client.{Client, Build, Event, Msg, SendOp, uses_destroyed, out_of_fuel}
use cc_mqtt311_libs.Client.Output.{send_message}
use cc_mqtt311_libs.Client.Output.Frame.{is_sendable, output_if, send_message-Retimed}
use cc_mqtt311_libs.Client.Registry.{is_send, erase_send, update_send}
use cc_mqtt311_libs.Client.Sends.{Resume, unpause}
use cc_mqtt311_libs.Client.Sends.Lists.{
  paused_count, UniqueSends, length-update_if, update_if-UniqueSends, find_index-update_if,
  paused_count-update_if, paused_count-unpause, erase_first-UniqueSends, paused_count-erase_first,
  length-erase_first,
}

-- The steps at which the program reads an operation that is no more, or at which fuel ran out.
abbrev pub is_fault : Event → Bool
is_fault uses_destroyed = true
is_fault out_of_fuel = true
is_fault _ = false

abbrev pub faults : List Event → ℕ
faults t = count_if is_fault t

-- From the first client to the second no publish is added or paused, and no fault occurs.
pub record Settled (c d : Client) : Type 0 where
  pub unique : UniqueSends d.send_ops
  pub paused : paused_count d.send_ops ≤ paused_count c.send_ops
  pub fewer : length d.send_ops ≤ length c.send_ops
  pub no_faults : faults d.trace ≡ faults c.trace

pub Settled-trans : {c d e : Client} → Settled c d → Settled d e → Settled c e
Settled-trans s t = record {
  unique = t.unique;
  paused = omega (arith, s.paused, t.paused);
  fewer = omega (arith, s.fewer, t.fewer);
  no_faults = t.no_faults ∙ s.no_faults;
}

-- The rounds that are left at an index.
abbrev pub rounds : ℕ → Client → ℕ
rounds idx c = paused_count c.send_ops + (length c.send_ops - idx)

-- With fewer than `k` rounds left the call settles.
abbrev pub Settles : ℕ → Resume → Type 0
Settles k again =
    (idx : ℕ) (c : Client) → UniqueSends c.send_ops → rounds idx c < k → Settled c (again idx c)

-- The publish is in the list.
abbrev pub IsListed : ℕ → Client → Type 0
IsListed id c = find_index (is_send id) c.send_ops < length c.send_ops

erase_send-send_ops :
    (id : ℕ) (c : Client) → (erase_send id c).send_ops ≡ erase_first (is_send id) c.send_ops
unfolding erase_send
erase_send-send_ops id c = elim (Option-cases (find_if (is_send id) c.send_ops)) [
  | inl e ↦ rw (e, erase_send) refl
  | inr (op, e) ↦ rw (e, erase_send) refl
]

erase_send-trace : (id : ℕ) (c : Client) → (erase_send id c).trace ≡ c.trace
unfolding erase_send
erase_send-trace id c = elim (Option-cases (find_if (is_send id) c.send_ops)) [
  | inl e ↦ rw (e, erase_send) refl
  | inr (op, e) ↦ rw (e, erase_send) refl
]

pub erase_send-Settled :
    (id : ℕ) (c : Client)
    → UniqueSends c.send_ops
    → IsListed id c
    → Settled c (erase_send id c) × (length (erase_send id c).send_ops + 1 ≡ length c.send_ops)
erase_send-Settled id c u here =
    let e = erase_send-send_ops id c in
    let shorter : length (erase_send id c).send_ops + 1 ≡ length c.send_ops =
      omega (arith, ap length e, length-erase_first id c.send_ops here) in
    (
      record {
        unique = subst UniqueSends (sym e) (erase_first-UniqueSends id c.send_ops u);
        paused = omega (arith, ap paused_count e, paused_count-erase_first id c.send_ops);
        fewer = omega (arith, shorter);
        no_faults = ap faults (erase_send-trace id c);
      },
      shorter,
    )

pub if-Settled :
    {c : Client} (t : Bool) (x y : Client)
    → Settled c x
    → Settled c y
    → Settled c (if t then x else y)
if-Settled true x y sx sy = sx
if-Settled false x y sx sy = sy

-- The same publishes at the same places, and no more of them paused.
pub record Same (c d : Client) : Type 0 where
  pub unique : UniqueSends d.send_ops
  pub index : (id : ℕ) → find_index (is_send id) d.send_ops ≡ find_index (is_send id) c.send_ops
  pub paused : paused_count d.send_ops ≤ paused_count c.send_ops
  pub size : length d.send_ops ≡ length c.send_ops
  pub no_faults : faults d.trace ≡ faults c.trace

pub Same-trans : {c d e : Client} → Same c d → Same d e → Same c e
Same-trans s t = record {
  unique = t.unique;
  index = λ id. t.index id ∙ s.index id;
  paused = omega (arith, s.paused, t.paused);
  size = t.size ∙ s.size;
  no_faults = t.no_faults ∙ s.no_faults;
}

pub Same-Settled : {c d : Client} → Same c d → Settled c d
Same-Settled s = record {
  unique = s.unique;
  paused = s.paused;
  fewer = omega (arith, s.size);
  no_faults = s.no_faults;
}

pub outside-Same :
    (c d : Client)
    → UniqueSends c.send_ops
    → d.send_ops ≡ c.send_ops
    → faults d.trace ≡ faults c.trace
    → Same c d
outside-Same c d u e f = record {
  unique = subst UniqueSends (sym e) u;
  index = λ id. ap (find_index (is_send id)) e;
  paused = omega (arith, ap paused_count e);
  size = ap length e;
  no_faults = f;
}

pub update_send-Same :
    (id : ℕ) (f : SendOp → SendOp) (c : Client)
    → ((op : SendOp) → (f op).id ≡ op.id)
    → ((op : SendOp) → (f op).paused ≡ op.paused)
    → UniqueSends c.send_ops
    → Same c (update_send id f c)
update_send-Same id f c same_id same_paused u = record {
  unique = update_if-UniqueSends (is_send id) f same_id c.send_ops u;
  index = λ j. find_index-update_if (is_send id) f same_id j c.send_ops;
  paused = omega (arith, paused_count-update_if (is_send id) f same_paused c.send_ops);
  size = length-update_if (is_send id) f c.send_ops;
  no_faults = refl;
}

pub unpause-Same :
    (id : ℕ) (c : Client) → UniqueSends c.send_ops → Same c (update_send id unpause c)
unpause-Same id c u = record {
  unique = update_if-UniqueSends (is_send id) unpause (λ op. refl) c.send_ops u;
  index = λ j. find_index-update_if (is_send id) unpause (λ op. refl) j c.send_ops;
  paused = paused_count-unpause id c.send_ops;
  size = length-update_if (is_send id) unpause c.send_ops;
  no_faults = refl;
}

faults-output_if : (b : Build) (msg : Msg) (t : List Event) → faults (output_if b msg t) ≡ faults t
faults-output_if b msg t = elim (Bool-cases (is_sendable b msg)) [
  | inl e ↦ rw e refl
  | inr e ↦ rw e refl
]

pub send_message-Same :
    (b : Build) (msg : Msg) (c : Client) → UniqueSends c.send_ops → Same c (send_message b msg c).0
send_message-Same b msg c u =
    let (m, e) = send_message-Retimed b msg c in
    outside-Same c _ u (ap (λ d. d.send_ops) e)
      (ap (λ d. faults d.trace) e ∙ faults-output_if b msg c.trace)

-- A publish has left the list.
abbrev pub Shortened : Client → Client → Type 0
Shortened c d = Settled c d × (length d.send_ops < length c.send_ops)

-- Either all publishes stand where they stood, or one at least has left the list.
abbrev pub Moved : Client → Client → Type 0
Moved c d = Same c d ⊎ Shortened c d

pub Moved-Settled : {c d : Client} → Moved c d → Settled c d
Moved-Settled (inl same) = Same-Settled same
Moved-Settled (inr (s, _)) = s

pub if-Shortened :
    {c : Client} (t : Bool) (x y : Client)
    → Shortened c x
    → Shortened c y
    → Shortened c (if t then x else y)
if-Shortened true x y sx sy = sx
if-Shortened false x y sx sy = sy

pub if-Moved :
    {c : Client} (t : Bool) (x y : Client) → Moved c x → Moved c y → Moved c (if t then x else y)
if-Moved true x y sx sy = sx
if-Moved false x y sx sy = sy

-- A change outside the list, before and after.
pub outside-Moved :
    {c d : Client} (e : Client)
    → Moved c d
    → e.send_ops ≡ d.send_ops
    → faults e.trace ≡ faults d.trace
    → Moved c e
outside-Moved e (inl same) p f = inl (Same-trans same (outside-Same _ e same.unique p f))
outside-Moved e (inr (s, l)) p f =
    inr (
      Settled-trans s (Same-Settled (outside-Same _ e s.unique p f)),
      omega (arith, l, ap length p),
    )
