-- ===== src/Polling/Invariant.antt =====
-- What it means for a PollThread that `poll_set_`, `mode_` and the interest list of epoll are in
-- step, and what `add`, `remove` and `update_mode` make of it.
use vncproxy.Prelude.{
  ℕ, subst, ◌≡◌, ◌≢◌, refl, sym, ap, ◌∙◌, true, false, none, some, List, arith, ◌==◌, if◌then◌else◌,
  Bool-cases, inl, inr, ◌⊎◌, not-==→ne,
}
use vncproxy.Poller.{Pollable}
use vncproxy.Polling.{
  Epoll, PollThread, find, erase, assign, has, insert, remove_from, reads, add_interest,
  mode_interest,
}
use vncproxy.Polling.Registry.{find-erase, find-assign, has-insert, has-remove_from}

-- The object at each address.
module _ (e : Epoll) (o : ℕ → Pollable) where
  pub record Registered (t : PollThread e) (a : ℕ) : Type 0 where
    pub as_mode : ℕ
    pub found : find (o a).fd t.mode ≡ some as_mode
    pub watched : e.interest t.epoll (o a).fd ≡ some (mode_interest e (o a) as_mode)

  pub record Owner (t : PollThread e) (fd : ℕ) : Type 0 where
    pub owner : ℕ
    pub member : has (o owner) t.poll_set ≡ true
    pub same_fd : (o owner).fd ≡ fd

  -- What is in `poll_set_` has its mode in `mode_` and is watched for it; what is in `mode_` has its
  -- object in `poll_set_`; and no two objects there have one descriptor.
  pub record IsThread (t : PollThread e) : Type 0 where
    pub registered : (a : ℕ) → has (o a) t.poll_set ≡ true → Registered t a
    pub owned : (fd w : ℕ) → find fd t.mode ≡ some w → Owner t fd
    pub apart :
        (a b : ℕ)
        → has (o a) t.poll_set ≡ true
        → has (o b) t.poll_set ≡ true
        → (o a).fd ≡ (o b).fd
        → a ≡ b

  module _ (named : (a : ℕ) → (o a).address ≡ a) where
    pub has-itself :
        (a b : ℕ) (ps : List Pollable)
        → has (o b) (insert (o a) ps) ≡ (if a == b then true else has (o b) ps)
    has-itself a b ps = ground (arith, has-insert (o a) (o b) ps, named a, named b)

    pub has-removed :
        (a b : ℕ) (ps : List Pollable)
        → has (o b) (remove_from (o a) ps) ≡ (if a == b then false else has (o b) ps)
    has-removed a b ps = ground (arith, has-remove_from (o a) (o b) ps, named a, named b)

    -- An object that was there with another descriptor is registered as before.
    Registered-other :
        (t t' : PollThread e) (fd b : ℕ)
        → Registered t b
        → fd ≢ (o b).fd
        → find (o b).fd t'.mode ≡ (if fd == (o b).fd then none else find (o b).fd t.mode)
          ⊎ ((w : ℕ) × (find (o b).fd t'.mode
                ≡ (if fd == (o b).fd then some w else find (o b).fd t.mode)))
        → (e.interest t'.epoll (o b).fd ≡ e.interest t.epoll (o b).fd)
        → Registered t' b
    Registered-other t t' fd b r h m i = record {
      as_mode = r.as_mode;
      found = elim m [
        | inl z ↦ ground (arith, z, h, r.found)
        | inr (w, z) ↦ ground (arith, z, h, r.found)
      ];
      watched = i ∙ r.watched;
    }

    module _ (a : ℕ) (t : PollThread e) (s : e.State) (v : IsThread t)
        (free : find (o a).fd t.mode ≡ none)
        (q : e.ctl_add (o a).fd (add_interest e (o a)) t.epoll ≡ some s) where
      abbrev pub added : PollThread e
      added = record t {
        poll_set = insert (o a) t.poll_set;
        mode = assign (o a).fd (o a).poll_mode t.mode;
        epoll = s;
      }

      apart_from : (b : ℕ) → Registered t b → (o a).fd ≢ (o b).fd
      apart_from b r h = ground (arith, ap (λ fd. find fd t.mode) h, free, r.found)

      added_itself : reads (o a).poll_mode ≡ true → Registered added a
      unfolding mode_interest add_interest
      added_itself r = record {
        as_mode = (o a).poll_mode;
        found = ground (arith, find-assign (o a).fd (o a).poll_mode t.mode (o a).fd);
        watched =
            ground (arith, e.interest-add (o a).fd (add_interest e (o a)) t.epoll s q (o a).fd, r);
      }

      added_before : (b : ℕ) → Registered t b → Registered added b
      added_before b r =
          let h = apart_from b r in
          Registered-other t added (o a).fd b r h
            (inr ((o a).poll_mode, find-assign (o a).fd (o a).poll_mode t.mode (o b).fd))
            (ground (arith, e.interest-add (o a).fd (add_interest e (o a)) t.epoll s q (o b).fd, h))

      pub added_has :
          (b : ℕ) → has (o b) added.poll_set ≡ true → (a ≡ b) ⊎ (has (o b) t.poll_set ≡ true)
      added_has b h = ground (arith, has-itself a b t.poll_set, h)

      added-Owner : (fd w : ℕ) → find fd added.mode ≡ some w → Owner added fd
      added-Owner fd w h = elim (Bool-cases ((o a).fd == fd)) [
        | inl z ↦ record {
          owner = a;
          member = ground (arith, has-itself a a t.poll_set);
          same_fd = ground (arith, z);
        }
        | inr z ↦
            let own =
              v.owned fd w (ground (arith, find-assign (o a).fd (o a).poll_mode t.mode fd, h, z)) in
            record {
              owner = own.owner;
              member = ground (arith, has-itself a own.owner t.poll_set, own.member);
              same_fd = own.same_fd;
            }
      ]

      apart_added :
          (b c : ℕ)
          → has (o b) added.poll_set ≡ true
          → has (o c) added.poll_set ≡ true
          → (o b).fd ≡ (o c).fd
          → b ≡ c
      apart_added b c hb hc same = elim (added_has b hb) [
        | inl x ↦ elim (added_has c hc) [
          | inl y ↦ sym x ∙ y
          | inr y ↦ absurd (apart_from c (v.registered c y) (ap (λ i. (o i).fd) x ∙ same))
        ]
        | inr x ↦ elim (added_has c hc) [
          | inl y ↦ absurd (apart_from b (v.registered b x) (ap (λ i. (o i).fd) y ∙ sym same))
          | inr y ↦ v.apart b c x y same
        ]
      ]

      -- Added under a descriptor that is not in `mode_`.
      pub added-IsThread : reads (o a).poll_mode ≡ true → IsThread added
      added-IsThread r = record {
        registered = λ b h. elim (added_has b h) [
          | inl x ↦ subst (Registered added) x (added_itself r)
          | inr x ↦ added_before b (v.registered b x)
        ];
        owned = added-Owner;
        apart = apart_added;
      }

    module _ (a : ℕ) (t : PollThread e) (v : IsThread t) (h : has (o a) t.poll_set ≡ true) where
      abbrev pub removed : PollThread e
      removed = record t {
        poll_set = remove_from (o a) t.poll_set;
        mode = erase (o a).fd t.mode;
        pending_remove = insert (o a) t.pending_remove;
      }

      apart_member : (b : ℕ) → a ≢ b → has (o b) t.poll_set ≡ true → (o a).fd ≢ (o b).fd
      apart_member b ne hb same = ne (v.apart a b h hb same)

      pub removed_has :
          (b : ℕ) → has (o b) removed.poll_set ≡ true → (a ≢ b) × (has (o b) t.poll_set ≡ true)
      removed_has b hb = elim (Bool-cases (a == b)) [
        | inl z ↦ absurd (ground (arith, has-removed a b t.poll_set, hb, z))
        | inr z ↦ (not-==→ne a b z, ground (arith, has-removed a b t.poll_set, hb, z))
      ]

      removed-Owner : (fd w : ℕ) → find fd removed.mode ≡ some w → Owner removed fd
      removed-Owner fd w f =
          let own = v.owned fd w (ground (arith, find-erase (o a).fd t.mode fd, f)) in
          let ne : (o a).fd ≢ fd = ground (arith, find-erase (o a).fd t.mode fd, f) in
          let other : a ≢ own.owner = λ z. ne (ap (λ i. (o i).fd) z ∙ own.same_fd) in
          record {
            owner = own.owner;
            member = ground (arith, has-removed a own.owner t.poll_set, own.member, other);
            same_fd = own.same_fd;
          }

      pub removed-IsThread : IsThread removed
      removed-IsThread = record {
        registered = λ b hb.
            let was = removed_has b hb in
            Registered-other t removed (o a).fd b (v.registered b was.1)
              (apart_member b was.0 was.1) (inl (find-erase (o a).fd t.mode (o b).fd)) refl;
        owned = removed-Owner;
        apart = λ b c hb hc same. v.apart b c (removed_has b hb).1 (removed_has c hc).1 same;
      }

      module _ (w : ℕ) (s : e.State)
          (q : (j : ℕ)
            → e.interest s j ≡ (
                if (o a).fd == j
                then some (mode_interest e (o a) w)
                else e.interest t.epoll j)) where
        abbrev pub changed : PollThread e
        changed = record t { mode = assign (o a).fd w t.mode; epoll = s }

        changed-Owner : (fd x : ℕ) → find fd changed.mode ≡ some x → Owner changed fd
        changed-Owner fd x f = elim (Bool-cases ((o a).fd == fd)) [
          | inl z ↦ record { owner = a; member = h; same_fd = ground (arith, z) }
          | inr z ↦
              let own = v.owned fd x (ground (arith, find-assign (o a).fd w t.mode fd, f, z)) in
              record { owner = own.owner; member = own.member; same_fd = own.same_fd }
        ]

        changed_itself : Registered changed a
        changed_itself = record {
          as_mode = w;
          found = ground (arith, find-assign (o a).fd w t.mode (o a).fd);
          watched = ground (arith, q (o a).fd);
        }

        pub changed-IsThread : IsThread changed
        changed-IsThread = record {
          registered = λ b hb. elim (Bool-cases (a == b)) [
            | inl z ↦ subst (Registered changed) (ground (arith, z)) changed_itself
            | inr z ↦
                let other = apart_member b (not-==→ne a b z) hb in
                Registered-other t changed (o a).fd b (v.registered b hb) other
                  (inr (w, find-assign (o a).fd w t.mode (o b).fd))
                  (ground (arith, q (o b).fd, other))
          ];
          owned = changed-Owner;
          apart = v.apart;
        }
