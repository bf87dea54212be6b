-- ===== src/Client/Sends/Fuel.antt =====
-- The fuel of `resumeSendOpsSince` is enough.
use cc_mqtt311_libs.Base.{
  ℕ, zero, suc, ◌+◌, ◌<◌, ◌≡◌, refl, Bool, true, false, not, inl, inr, some, if◌then◌else◌,
  get_elem?, get_elem?_lt, find_index, count_if-le, Bool-cases, Option-cases, arith,
}
use cc_mqtt311_libs.Client.{Client, Build, SendOp, AsyncOpStatus}
use cc_mqtt311_libs.Client.Registry.{is_send, update_send}
use cc_mqtt311_libs.Client.Sends.{
  Resume, unpause, can_send, resume_op, go_on, do_send_internal, resume_send_ops_since, resume_fuel,
  resume_since, complete_send,
}
use cc_mqtt311_libs.Client.Sends.Lists.{
  is_paused, UniqueSends, paused_count-unpause_lt, find_index-get_elem, find_if_here,
}
use cc_mqtt311_libs.Client.Sends.Settles.{
  Settled, Settled-trans, Settles, rounds, IsListed, Same-Settled, outside-Same, unpause-Same,
  Moved,
}
use cc_mqtt311_libs.Client.Sends.Attempts.{
  do_send_internal-Attempted, after_resume-Settled, complete_send_with-Moved,
}

module _ (b : Build) where
  -- After an attempt to resume, either the loop stops, or there are fewer paused publishes.
  record Resumed (idx : ℕ) (c : Client) (r : Client × Bool) : Type 0 where
    settled : Settled c r.0
    progress : r.1 ≡ true → rounds idx r.0 < rounds idx c

  if-Resumed :
      {idx : ℕ} {c : Client} (t : Bool) (x y : Client × Bool)
      → Resumed idx c x
      → Resumed idx c y
      → Resumed idx c (if t then x else y)
  if-Resumed true x y rx ry = rx
  if-Resumed false x y rx ry = ry

  stays-Resumed : (idx : ℕ) (c : Client) → UniqueSends c.send_ops → Resumed idx c (c, false)
  stays-Resumed idx c u = record {
    settled = Same-Settled (outside-Same c c u refl refl);
    progress = λ e. cc;
  }

  resume_op-Resumed :
      (k : ℕ) (again : Resume) (idx : ℕ) (op : SendOp) (c : Client)
      → Settles k again
      → UniqueSends c.send_ops
      → get_elem? c.send_ops idx ≡ some op
      → op.paused ≡ true
      → rounds idx c < k + 1
      → Resumed idx c (resume_op b again op.id c)
  unfolding resume_op
  resume_op-Resumed k again idx op c settles u e h small =
      let place : find_index (is_send op.id) c.send_ops ≡ idx =
        find_index-get_elem c.send_ops idx op u e in
      let within = get_elem?_lt c.send_ops idx op e in
      let (o, found, same_id) = find_if_here op.id c.send_ops (omega (arith, place, within)) in
      let c1 = update_send op.id unpause c in
      let same = unpause-Same op.id c u in
      let fewer = paused_count-unpause_lt c.send_ops idx op e h in
      let here : IsListed op.id c1 = omega (arith, same.index op.id, place, same.size, within) in
      let less : rounds (find_index (is_send op.id) c1.send_ops) c1 < k + 1 =
        omega (arith, same.index op.id, place, same.size, fewer, small) in
      let sent = do_send_internal-Attempted k again settles b op.id c1 same.unique here less in
      let s =
        after_resume-Settled k again settles b op.id c1 (do_send_internal b again op.id c1) sent
          here less in
      rw (found, resume_op)
        (if-Resumed (not o.paused) _ _ (stays-Resumed idx c u) (
          if-Resumed (not (can_send o c)) _ _ (stays-Resumed idx c u) (record {
            settled = Settled-trans (Same-Settled same) s;
            progress = λ t. omega (arith, s.paused, s.fewer, same.size, fewer);
          })))

  -- What the loop does after an attempt.
  go_on-Settled :
      (fuel : ℕ) (idx : ℕ) (c : Client) (r : Client × Bool)
      → Settles fuel (resume_send_ops_since b fuel)
      → rounds idx c < fuel + 1
      → Resumed idx c r
      → Settled c (go_on b (resume_send_ops_since b fuel) idx r)
  go_on-Settled fuel idx c (d, false) settles small r = r.settled
  go_on-Settled fuel idx c (d, true) settles small r =
      Settled-trans r.settled (settles idx d r.settled.unique (omega (arith, r.progress refl)))

  -- With fewer rounds left than there is fuel, the loop settles.
  pub resume_send_ops_since-Settles : (fuel : ℕ) → Settles fuel (resume_send_ops_since b fuel)
  unfolding resume_send_ops_since
  resume_send_ops_since-Settles zero idx c u small = absurd (omega arith)
  resume_send_ops_since-Settles (suc fuel) idx c u small =
      let ih = resume_send_ops_since-Settles fuel in
      elim (Option-cases (get_elem? c.send_ops idx)) [
        | inl e ↦ rw (e, resume_send_ops_since) (Same-Settled (outside-Same c c u refl refl))
        | inr (op, e) ↦
            let within = get_elem?_lt c.send_ops idx op e in
            elim (Bool-cases op.paused) [
              | inl h ↦
                  let small' : rounds idx c < fuel + 1 = omega (arith, small) in
                  rw (e, h, resume_send_ops_since)
                    (go_on-Settled fuel idx c _ ih small' (
                      resume_op-Resumed fuel (resume_send_ops_since b fuel) idx op c ih u e h
                        small'))
              | inr h ↦
                  rw (e, h, resume_send_ops_since) (ih (idx + 1) c u (omega (arith, within, small)))
            ]
      ]

  -- The fuel that resuming is given is enough.
  pub resume_since-Settled :
      (idx : ℕ) (c : Client) → UniqueSends c.send_ops → Settled c (resume_since b idx c)
  unfolding resume_since
  resume_since-Settled idx c u =
      resume_send_ops_since-Settles (resume_fuel b c) idx c u
        (omega (arith, count_if-le is_paused c.send_ops))

  -- A publish in the list that is completed, with all that its completion resumes.
  pub complete_send-Moved :
      (id : ℕ) (status : AsyncOpStatus) (c : Client)
      → UniqueSends c.send_ops
      → IsListed id c
      → Moved c (complete_send b id status c)
  unfolding complete_send
  complete_send-Moved id status c u here =
      complete_send_with-Moved (rounds (find_index (is_send id) c.send_ops) c) (resume_since b)
        (λ idx d v small. resume_since-Settled idx d v) id status c u here (omega arith)
