-- ===== src/Polling/ManagerTests.antt =====
-- A PollMgr of two threads, and the theorems there.
use vncproxy.Prelude.{
  ℕ, zero, suc, ◌+◌, ◌≢◌, ◌≡◌, refl, true, false, none, some, [], ◌∷◌, arith, subst, ap, sym, ◌⊎◌,
  inl, inr,
}
use mathlib.Core.Option.{some-injective}
use vncproxy.Polling.Invariant.{IsThread}
use vncproxy.Polling.{PollThread, set_count, has, find}
use vncproxy.Polling.Table.{all}
use vncproxy.Polling.Tests.{object, nothing, nothing-IsThread, one, one-IsThread, one-has}
use vncproxy.Polling.Manager.{nth, thread_of, Threads, mgr_add, mgr_remove, mgr_update_mode}
use vncproxy.Polling.Placed.{IsManager, Managed, HasMode}
use vncproxy.Polling.Managed.{mgr_add_lem, mgr_remove_lem}
use vncproxy.Polling.Moded.{mgr_update_mode_lem}

-- The object 1 has the descriptor 11, and so the thread 1.
abbrev two : Threads all
two = nothing ∷ one ∷ []

found_at :
    (i : ℕ) (t : PollThread all)
    → nth i two ≡ some t
    → ((i ≡ 0) × (nothing ≡ t)) ⊎ ((i ≡ 1) × (one ≡ t))
unfolding nth
found_at zero t h = inl (refl, some-injective _ _ h)
found_at (suc zero) t h = inr (refl, some-injective _ _ h)
found_at (suc (suc i)) t h = absurd (ground (arith, h))

only_one : (a : ℕ) → has (object a) one.poll_set ≡ true → 1 ≡ a
unfolding has
only_one a h = ground (arith, h)

none_there : (a : ℕ) → has (object a) nothing.poll_set ≡ false
unfolding has
none_there a = refl

choice : (i a : ℕ) → 1 ≡ a → i ≡ 1 → thread_of (object a).fd 2 ≡ some i
unfolding thread_of
choice i a p q = subst (λ x. thread_of (x + 10) 2 ≡ some i) p (ap some (sym q))

two-IsManager : IsManager all object two
two-IsManager = record {
  in_step = λ i t h. elim (found_at i t h) [
    | inl (p, q) ↦ subst (IsThread all object) q nothing-IsThread
    | inr (p, q) ↦ subst (IsThread all object) q one-IsThread
  ];
  placed = λ i a t h m. elim (found_at i t h) [
    | inl (p, q) ↦
        let was = subst (λ (x : PollThread all). has (object a) x.poll_set ≡ true) (sym q) m in
        absurd (ground (arith, none_there a, was))
    | inr (p, q) ↦
        choice i a
          (only_one a (subst (λ (x : PollThread all). has (object a) x.poll_set ≡ true) (sym q) m))
          p
  ];
}

two-Managed : Managed all object two 1
unfolding nth
two-Managed = record { index = 1; thread = one; at_index = refl; member = one-has }

chosen : thread_of 13 2 ≡ some 1
unfolding thread_of
chosen = refl

mgr_remove_lem_example :
    (ts' : Threads all) × (mgr_remove all (object 1) two ≡ some ts')
    × IsManager all object ts'
    × ¬ Managed all object ts' 1
mgr_remove_lem_example =
    mgr_remove_lem all object (λ a. refl) 1 two two-IsManager (omega arith) two-Managed

mgr_update_mode_lem_example :
    (ts' : Threads all) × (mgr_update_mode all (object 1) 1 two ≡ some ts')
    × IsManager all object ts'
    × HasMode all object ts' 1 1
    × ((b m : ℕ) → 1 ≢ b → HasMode all object two b m → HasMode all object ts' b m)
mgr_update_mode_lem_example =
    mgr_update_mode_lem all object (λ a. refl) 1 1 two two-Managed _ two-IsManager (omega arith)
      refl

second : nth 1 two ≡ some one
unfolding nth
second = refl

free : find 13 one.mode ≡ none
unfolding find
free = refl

mgr_add_lem_example :
    (ts' : Threads all) × (mgr_add all (object 3) two (λ a. 1) ≡ some (ts', set_count 3 2 (λ a. 1)))
    × IsManager all object ts'
    × Managed all object ts' 3
mgr_add_lem_example =
    mgr_add_lem all object (λ a. refl) 3 1 two one (λ a. 1) _ two-IsManager (omega arith) chosen
      second refl free refl (omega arith) (omega arith)
