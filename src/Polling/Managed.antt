-- ===== src/Polling/Managed.antt =====
-- `add`, `remove` and `update_mode` of a PollMgr of polling.cc, on threads in order.
use vncproxy.Prelude.{
  ℕ, ◌+◌, ◌<◌, ◌≡◌, refl, sym, subst, true, none, some, arith, length, inl, inr, ◌>>=◌, int_limit,
  lt→ltb,
}
use vncproxy.Poller.{Pollable}
use vncproxy.Polling.{Epoll, PollThread, Counts, set_count, find, reads, add_interest, remove}
use vncproxy.Polling.Registry.{has-insert, has-remove_from}
use vncproxy.Polling.Invariant.{
  added, added_has, added-IsThread, removed, removed_has, removed-IsThread,
}
use vncproxy.Polling.Methods.{add-eq, remove-eq}
use vncproxy.Polling.Manager.{nth, set_nth, thread_of, Threads, if_valid, mgr_add, mgr_remove}
use vncproxy.Polling.Placed.{
  length-set_nth, nth-itself, IsManager, Managed, set_nth-IsManager, on_thread-eq, Managed-at,
}

module _ (e : Epoll) (o : ℕ → Pollable) where
  module _ (named : (a : ℕ) → (o a).address ≡ a) where
    -- Where each thread of a PollMgr is in step and each object is in the thread that its
    -- descriptor chooses, add of a live object that reads and whose count does not overflow, with a
    -- descriptor that is not negative, that its thread does not have and that epoll takes, puts it
    -- into a thread, counts the reference, and keeps each thread in step and each object in its
    -- thread.
    pub mgr_add_lem :
        (a i : ℕ) (ts : Threads e) (t : PollThread e) (counts : Counts) (s : e.State)
        → IsManager e o ts
        → (o a).fd < int_limit
        → thread_of (o a).fd (length ts) ≡ some i
        → nth i ts ≡ some t
        → reads (o a).poll_mode ≡ true
        → find (o a).fd t.mode ≡ none
        → e.ctl_add (o a).fd (add_interest e (o a)) t.epoll ≡ some s
        → 0 < counts (o a).address
        → counts (o a).address + 1 < int_limit
        → (ts' : Threads e) × (mgr_add e (o a) ts counts
            ≡ some (ts', set_count (o a).address (counts (o a).address + 1) counts))
          × IsManager e o ts'
          × Managed e o ts' a
    unfolding mgr_add
    mgr_add_lem a i ts t counts s v lim p q r free c pos small =
        let step = v.in_step i t q in
        let t' = added e o named a t s step free c in
        let eq = add-eq e o named a t counts s step free c pos small in
        (
          set_nth i t' ts,
          rw (mgr_add, lt→ltb (o a).fd int_limit lim, p, ◌>>=◌, q, eq) refl,
          set_nth-IsManager e o i t t' ts v q (added-IsThread e o named a t s step free c r) (λ b m.
              elim (added_has e o named a t s step free c b m) [
                | inl y ↦ inr (subst (λ x. thread_of (o x).fd (length ts) ≡ some i) y p)
                | inr y ↦ inl y
              ]),
          record {
            index = i;
            thread = t';
            at_index = nth-itself i t' t ts q;
            member = ground (arith, has-insert (o a) (o a) t.poll_set);
          },
        )

    -- Where each thread of a PollMgr is in step and each object is in the thread that its
    -- descriptor chooses, remove of an object that is in some thread and whose descriptor is not
    -- negative fails no assertion, leaves the object in no thread, and keeps each thread in step
    -- and each object in its thread.
    pub mgr_remove_lem :
        (a : ℕ) (ts : Threads e)
        → IsManager e o ts
        → (o a).fd < int_limit
        → Managed e o ts a
        → (ts' : Threads e) × (mgr_remove e (o a) ts ≡ some ts')
          × IsManager e o ts'
          × ¬ Managed e o ts' a
    unfolding mgr_remove if_valid
    mgr_remove_lem a ts v lim at =
        let p = v.placed at.index a at.thread at.at_index at.member in
        let step = v.in_step at.index at.thread at.at_index in
        let t' = removed e o named a at.thread step at.member in
        let eq = remove-eq e o named a at.thread step at.member in
        let v' =
          set_nth-IsManager e o at.index at.thread t' ts v at.at_index
            (removed-IsThread e o named a at.thread step at.member)
            (λ b m. inl (removed_has e o named a at.thread step at.member b m).1) in
        (
          set_nth at.index t' ts,
          rw (mgr_remove, if_valid, lt→ltb (o a).fd int_limit lim)
              (on_thread-eq e o (o a).fd at.index at.thread (remove e (o a)) ts t' p at.at_index
                eq),
          v',
          λ was. absurd (
              ground (
                arith,
                Managed-at e o (set_nth at.index t' ts) a at.index t' v'
                    (subst (λ n. thread_of (o a).fd n ≡ some at.index)
                      (sym (length-set_nth at.index t' ts)) p)
                    (nth-itself at.index t' at.thread ts at.at_index) was,
                has-remove_from (o a) (o a) at.thread.poll_set,
              )),
        )
