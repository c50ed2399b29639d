-- ===== src/Wrapper/RunLoop/Laws.antt =====
-- How many exits `run_loop` has processed, and what it answers (include/openhyp/openhyp.hpp).
use open_hypervisor.Base.{
  ℕ, zero, suc, ◌+◌, ◌%◌, ◌^◌, ◌≤◌, ◌≡◌, ◌⊎◌, inl, inr, refl, sym, ap, ◌∙◌, Option, none, some,
  Bool, true, false, arith, Bool-cases, if_true, if_false,
}
use mathlib.Core.Path.{subst}
use open_hypervisor.Hv.{Result, ok, err}
use open_hypervisor.Wrapper.Run.{ExitInfo}
use open_hypervisor.Wrapper.RunLoop.{process, loop_from, run_loop}

-- What an answer of the loop holds.
state_of : {S : Type 0} → S → Option (S × Result ℕ) → S
state_of s none = s
state_of s (some (t, _)) = t

count_of : {S : Type 0} → Option (S × Result ℕ) → ℕ
count_of (some (_, ok v)) = v
count_of _ = 0

suc_as_add : (n : ℕ) → suc n ≡ n + 1
suc_as_add n = omega arith

one_at_most : (n : ℕ) → 1 ≤ suc n
one_at_most n = omega arith

module _ {S : Type 0} (run : S → Option (S × Result ExitInfo))
    (handler : S → ExitInfo → S × Bool) where
  -- `Processed s n stop s'`: from `s` the loop processes `n` exits and is then at `s'`; `stop` says
  -- whether the handler stopped it at the last of them.
  pub data Processed : S → ℕ → Bool → S → Type 0 where
    nothing : {s : S} → Processed s 0 false s
    stops :
        {s t : S} (e : ExitInfo)
        → run s ≡ some (t, ok e)
        → (handler t e).1 ≡ true
        → Processed s 1 true (handler t e).0
    goes_on :
        {s t u : S} {n : ℕ} {stop : Bool} (e : ExitInfo)
        → run s ≡ some (t, ok e)
        → (handler t e).1 ≡ false
        → Processed (handler t e).0 n stop u
        → Processed s (suc n) stop u

  abbrev Accounted : ℕ → ℕ → S → S → ℕ → Type 0
  Accounted left n s s' v =
      (p : ℕ) × (stop : Bool) × Processed s p stop s'
      × (((stop ≡ true) × (v ≡ n + p) × (p ≤ left))
          ⊎ ((stop ≡ false) × (v ≡ suc (n + p) % 2 ^ 64) × (p ≡ left)))

  process-Accounted :
      (left n v : ℕ) (s s' : S) (r : Option (S × Result ExitInfo))
      → run s ≡ r
      → ((t : S)
          → loop_from run handler left (suc n) t ≡ some (s', ok v)
          → Accounted left (suc n) t s' v)
      → process run handler n (loop_from run handler left (suc n)) r ≡ some (s', ok v)
      → Accounted (suc left) n s s' v
  unfolding process state_of count_of
  process-Accounted left n v s s' none is rest r = ground arith
  process-Accounted left n v s s' (some (t, err c)) is rest r = ground arith
  process-Accounted left n v s s' (some (t, ok e)) is rest r = elim (Bool-cases (handler t e).1) [
    | inl stop ↦
        let ended : some ((handler t e).0, ok (suc n)) ≡ some (s', ok v) =
          sym (if_true (handler t e).1 _ _ stop) ∙ r in
        (
          1,
          true,
          subst (Processed s 1 true) (ap (state_of t) ended) (stops e is stop),
          inl (refl, sym (ap count_of ended) ∙ suc_as_add n, one_at_most left),
        )
    | inr on ↦
        let (p, stop, d, ends) = rest (handler t e).0 (sym (if_false (handler t e).1 _ _ on) ∙ r) in
        (suc p, stop, goes_on e is on d, ground (arith, ends))
  ]

  loop_from-Accounted :
      (left n v : ℕ) (s s' : S)
      → loop_from run handler left n s ≡ some (s', ok v)
      → Accounted left n s s' v
  unfolding loop_from state_of count_of
  loop_from-Accounted zero n v s s' r = (
    0,
    false,
    subst (Processed s 0 false) (ap (state_of s) r) nothing,
    inr (refl, sym (ap count_of r) ∙ omega arith, refl),
  )
  loop_from-Accounted (suc left) n v s s' r =
      process-Accounted left n v s s' (run s) refl
        (λ t u. loop_from-Accounted left (suc n) v t s' u) r

  -- Where `run_loop` returns, it has processed exits one after the other up to the state it leaves.
  -- Stopped by the handler, it answers how many; where `max_iters` ends it, all of them were
  -- processed and the answer is one more, in 64
  -- bits.
  pub run_loop_lem :
      (max_iters v : ℕ) (s s' : S)
      → run_loop run handler s max_iters ≡ some (s', ok v)
      → (p : ℕ) × (stop : Bool) × Processed s p stop s'
        × (((stop ≡ true) × (v ≡ p) × (p ≤ max_iters))
            ⊎ ((stop ≡ false) × (v ≡ suc p % 2 ^ 64) × (p ≡ max_iters)))
  unfolding run_loop
  run_loop_lem max_iters v s s' r =
      let (p, stop, d, ends) = loop_from-Accounted max_iters 0 v s s' r in
      (p, stop, d, ground (arith, ends))
