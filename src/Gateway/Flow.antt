-- ===== src/Gateway/Flow.antt =====
-- One direction of a pair of end points: what came from the one descriptor, what went to the
-- other, and the buffer between them.
use vncproxy.Prelude.{
  ℕ, Option-cases, inl, inr, ◌≡◌, ◌≢◌, refl, sym, ap, subst, ◌∙◌, Option, none, some, List, [],
  ◌++◌, arith, take, ◌>>=◌, append-nil, append_assoc, take-append-drop,
}
use mathlib.Core.Option.{some-injective}
use vncproxy.Kernel.{Kernel, on_fd}
use vncproxy.Marshal.{Marshal}
use vncproxy.Marshal.Valid.{IsMarshal, contents}
use vncproxy.Marshal.Reading.{Shortened}
use vncproxy.Marshal.FdReads.{Received}
use vncproxy.Marshal.FdWrites.{Sent}

on_fd-same : (fd : ℕ) (bs : List ℕ) → on_fd fd fd bs ≡ bs
on_fd-same fd bs = ground arith

on_fd-other : (fd j : ℕ) (bs : List ℕ) → fd ≢ j → on_fd fd j bs ≡ []
on_fd-other fd j bs h = ground arith

pub bind-some {ℓ κ} :
    {A : Type ℓ} {B C : Type κ} (o : Option A) (f : A → Option B) (g : B → C) (c : C)
    → (o >>= λ a. f a >>= λ b. some (g b)) ≡ some c
    → (a : A) × (b : B) × (o ≡ some a) × (f a ≡ some b) × (g b ≡ c)
bind-some none f g c h = absurd (ground (arith, h))
bind-some (some a) f g c h = elim (Option-cases (f a)) [
  | inl e ↦ absurd (ground (arith, h, e))
  | inr (b, e) ↦ (a, b, refl, e, some-injective (g b) c (sym (rw (e, ◌>>=◌) refl) ∙ h))
]

-- What holds of every result of `o` holds after the two steps.
pub bind-holds {ℓ} :
    {A B C : Type 0} (P : C → Type ℓ) (f : A → B) (g : B → C) (h : Option B) (o : Option A)
    → h ≡ (o >>= λ a. some (f a))
    → ((a : A) → o ≡ some a → P (g (f a)))
    → (c : C) → (h >>= λ b. some (g b)) ≡ some c
    → P c
bind-holds P f g h none e all c q =
    let q' : none ≡ some c = ap (λ z. z >>= λ b. some (g b)) (sym e) ∙ q in
    absurd (ground (arith, q'))
bind-holds P f g h (some a) e all c q =
    let q' : some (g (f a)) ≡ some c = ap (λ z. z >>= λ b. some (g b)) (sym e) ∙ q in
    subst P (ground (arith, q')) (all a refl)

module _ (k : Kernel) where
  -- What came from `from` after `came_before` is what went to `to` after `went_before`, followed by
  -- the content of the buffer.
  pub record Flow (came_before went_before : List ℕ) (from to : ℕ) (buf : Marshal) (s : k.State)
      : Type 0 where
    pub went : List ℕ
    pub came_eq : k.received s from ≡ came_before ++ (went ++ contents buf)
    pub went_eq : k.sent s to ≡ went_before ++ went
    pub valid : IsMarshal buf

  module _ {came_before went_before : List ℕ} {from to : ℕ} {buf : Marshal} {s : k.State}
      (flow : Flow came_before went_before from to buf s) where
    pub Flow-read :
        (bs : List ℕ) (b : Marshal) (t : k.State)
        → Received k from bs s t
        → IsMarshal b
        → contents b ≡ contents buf ++ bs
        → Flow came_before went_before from to b t
    Flow-read bs b t r v g = record {
      went = flow.went;
      came_eq =
          r.receives from
          ∙ ap (◌++◌ (k.received s from)) (on_fd-same from bs)
          ∙ ap (λ zs. zs ++ bs) flow.came_eq
          ∙ append_assoc came_before (flow.went ++ contents buf) bs
          ∙ ap (◌++◌ came_before)
              (append_assoc flow.went (contents buf) bs ∙ ap (◌++◌ flow.went) (sym g));
      went_eq = r.sends to ∙ flow.went_eq;
      valid = v;
    }

    pub Flow-write :
        (n : ℕ) (b : Marshal) (t : k.State)
        → Sent k to (take n (contents buf)) s t
        → Shortened n buf b
        → Flow came_before went_before from to b t
    Flow-write n b t w sh = record {
      went = flow.went ++ take n (contents buf);
      came_eq =
          w.receives from
          ∙ flow.came_eq
          ∙ ap (λ zs. came_before ++ (flow.went ++ zs))
              (sym (take-append-drop n (contents buf))
                ∙ ap (◌++◌ (take n (contents buf))) (sym sh.rest))
          ∙ ap (◌++◌ came_before)
              (sym (append_assoc flow.went (take n (contents buf)) (contents b)));
      went_eq =
          w.sends to
          ∙ ap (◌++◌ (k.sent s to)) (on_fd-same to (take n (contents buf)))
          ∙ ap (λ zs. zs ++ take n (contents buf)) flow.went_eq
          ∙ append_assoc went_before flow.went (take n (contents buf));
      valid = sh.valid;
    }

    pub Flow-same :
        (t : k.State)
        → k.received t from ≡ k.received s from
        → k.sent t to ≡ k.sent s to
        → Flow came_before went_before from to buf t
    Flow-same t r w = record {
      went = flow.went;
      came_eq = r ∙ flow.came_eq;
      went_eq = w ∙ flow.went_eq;
      valid = flow.valid;
    }

    -- The other direction's reads and writes.
    pub Flow-back-read :
        (bs : List ℕ) (t : k.State)
        → to ≢ from
        → Received k to bs s t
        → Flow came_before went_before from to buf t
    Flow-back-read bs t h r =
        Flow-same t
          (r.receives from
            ∙ ap (◌++◌ (k.received s from)) (on_fd-other to from bs h)
            ∙ append-nil (k.received s from))
          (r.sends to)

    pub Flow-back-write :
        (bs : List ℕ) (t : k.State)
        → from ≢ to
        → Sent k from bs s t
        → Flow came_before went_before from to buf t
    Flow-back-write bs t h w =
        Flow-same t (w.receives from) (
          w.sends to
          ∙ ap (◌++◌ (k.sent s to)) (on_fd-other from to bs h)
          ∙ append-nil (k.sent s to))
