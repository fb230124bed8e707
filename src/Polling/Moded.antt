-- ===== src/Polling/Moded.antt =====
-- `update_mode` of a PollMgr of polling.cc, on threads in order: the modes of all objects after it.
use vncproxy.Prelude.{
  ℕ, ◌<◌, ◌≡◌, ◌≢◌, sym, ap, subst, ◌∙◌, true, some, arith, ◌==◌, int_limit, lt→ltb, Bool-cases,
  inl, inr,
}
use mathlib.Core.Option.{some-injective}
use vncproxy.Poller.{Pollable}
use vncproxy.Polling.{Epoll, PollThread, find, has, mode_interest, update_mode}
use vncproxy.Polling.Invariant.{IsThread}
use vncproxy.Polling.Methods.{update_mode_lem}
use vncproxy.Polling.Fills.{mode_of, update_mode-Updated}
use vncproxy.Polling.Manager.{nth, set_nth, Threads, if_valid, mgr_update_mode}
use vncproxy.Polling.Placed.{
  nth-itself, nth-other, IsManager, Managed, HasMode, set_nth-IsManager, on_thread-eq,
}

module _ (e : Epoll) (o : ℕ → Pollable) where
  in_step-HasMode :
      (ts : Threads e) (a w i : ℕ) (t : PollThread e)
      → IsThread e o t
      → nth i ts ≡ some t
      → has (o a) t.poll_set ≡ true
      → find (o a).fd t.mode ≡ some w
      → HasMode e o ts a w
  in_step-HasMode ts a w i t v p m f =
      let r = v.registered a m in
      let same : r.as_mode ≡ w = some-injective _ _ (sym r.found ∙ f) in
      record {
        index = i;
        thread = t;
        at_index = p;
        member = m;
        mode = f;
        watched = r.watched ∙ ap (λ x. some (mode_interest e (o a) x)) same;
      }

  module _ (named : (a : ℕ) → (o a).address ≡ a) where
    -- The other objects of the thread keep their modes.
    other-find :
        (a w b m : ℕ) (t t' : PollThread e)
        → IsThread e o t
        → update_mode e (o a) w t ≡ some t'
        → t'.poll_set ≡ t.poll_set
        → a ≢ b
        → has (o b) t.poll_set ≡ true
        → find (o b).fd t.mode ≡ some m
        → find (o b).fd t'.mode ≡ some m
    unfolding mode_of
    other-find a w b m t t' v q same ne h f =
        let now = (update_mode-Updated e o named a w t t' v q).modes b in
        let h' : has (o b) t'.poll_set ≡ true = subst (λ ps. has (o b) ps ≡ true) (sym same) h in
        ground (arith, now, h, h', ne, f)

    -- Where each thread of a PollMgr is in step and each object is in the thread that its
    -- descriptor chooses, update_mode of an object that is in some thread, whose descriptor is not
    -- negative and whose change epoll takes, fails no check and keeps each thread in step and each
    -- object in its thread. Afterwards the object is in a thread whose mode_ has its descriptor
    -- with the new mode and whose epoll watches it for that, and each other object that was in a
    -- thread is in one with the mode that it had.
    pub mgr_update_mode_lem :
        (a w : ℕ) (ts : Threads e) (at : Managed e o ts a) (s : e.State)
        → IsManager e o ts
        → (o a).fd < int_limit
        → e.ctl_mod (o a).fd (mode_interest e (o a) w) at.thread.epoll ≡ some s
        → (ts' : Threads e) × (mgr_update_mode e (o a) w ts ≡ some ts')
          × IsManager e o ts'
          × HasMode e o ts' a w
          × ((b m : ℕ) → a ≢ b → HasMode e o ts b m → HasMode e o ts' b m)
    unfolding mgr_update_mode if_valid
    mgr_update_mode_lem a w ts at s v lim c =
        let i = at.index in
        let t = at.thread in
        let p = v.placed i a t at.at_index at.member in
        let step = v.in_step i t at.at_index in
        let (t', eq, v', f, same) = update_mode_lem e o named a w t s step at.member c in
        let here : nth i (set_nth i t' ts) ≡ some t' = nth-itself i t' t ts at.at_index in
        (
          set_nth i t' ts,
          rw (mgr_update_mode, if_valid, lt→ltb (o a).fd int_limit lim)
              (on_thread-eq e o (o a).fd i t (update_mode e (o a) w) ts t' p at.at_index eq),
          set_nth-IsManager e o i t t' ts v at.at_index v'
              (λ b m. inl (subst (λ ps. has (o b) ps ≡ true) same m)),
          in_step-HasMode (set_nth i t' ts) a w i t' v' here
              (subst (λ ps. has (o a) ps ≡ true) (sym same) at.member) f,
          λ b m ne was. elim (Bool-cases (i == was.index)) [
            | inl z ↦
                let there : nth was.index ts ≡ some t =
                  subst (λ j. nth j ts ≡ some t) (ground (arith, z)) at.at_index in
                let eq_t : was.thread ≡ t = some-injective _ _ (sym was.at_index ∙ there) in
                let h = subst (λ (x : PollThread e). has (o b) x.poll_set ≡ true) eq_t was.member in
                let g = subst (λ (x : PollThread e). find (o b).fd x.mode ≡ some m) eq_t was.mode in
                in_step-HasMode (set_nth i t' ts) b m i t' v' here
                  (subst (λ ps. has (o b) ps ≡ true) (sym same) h)
                  (other-find a w b m t t' step eq same ne h g)
            | inr z ↦ record {
              index = was.index;
              thread = was.thread;
              at_index = nth-other i was.index t' ts (ground (arith, z)) ∙ was.at_index;
              member = was.member;
              mode = was.mode;
              watched = was.watched;
            }
          ],
        )
