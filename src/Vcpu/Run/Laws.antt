-- ===== src/Vcpu/Run/Laws.antt =====
-- What a call of `hv_vcpu_run` does over all its entries (src/ohv_vcpu.cpp).
use open_hypervisor.Base.{ℕ, zero, suc, ◌≤◌, ◌≡◌, ap, Option, none, some, arith}
use mathlib.Core.Path.{subst}
use open_hypervisor.Context.{Ctx}
use open_hypervisor.Host.{Host}
use open_hypervisor.Vm.Kernel.{Trap}
use open_hypervisor.Vcpu.Environment.{Environment}
use open_hypervisor.Vcpu.Run.{Round, Machine, Verdict, returned, again, follow, one_round, run_loop}
use open_hypervisor.Vcpu.Run.Spec.{Ends, Runs, stops, enters, one_round_lem, one_round-Ends}

or_else {ℓ} : {A : Type ℓ} → Option A → A → A
or_else none a = a
or_else (some x) a = x

module _ {K : Type 0} (trap : Trap K) (refresh : K → Ctx → Ctx) (e : Environment) (h : Host)
    (rounds : ℕ → Round) where
  abbrev run : ℕ → ℕ → Machine K → Option (Machine K × ℕ)
  run fuel i m = run_loop trap refresh e h fuel rounds i m

  abbrev round : ℕ → Machine K → Machine K × Verdict
  round i m = one_round trap refresh e h (rounds i) m

  -- A round, by its verdict.
  run_returned :
      (fuel i c : ℕ) (m m' : Machine K)
      → round i m ≡ (m', returned c)
      → run (suc fuel) i m ≡ some (m', c)
  unfolding run_loop
  run_returned fuel i c m m' r =
      ap (λ (x : Machine K × Verdict). follow x (λ n. run fuel (suc i) n)) r

  pub run_again :
      (fuel i : ℕ) (m n : Machine K)
      → round i m ≡ (n, again)
      → run (suc fuel) i m ≡ run fuel (suc i) n
  unfolding run_loop
  run_again fuel i m n r = ap (λ (x : Machine K × Verdict). follow x (λ n. run fuel (suc i) n)) r

  -- The loop from a round on, by the end of that round.
  followed :
      (fuel i c : ℕ) (m m' : Machine K) (x : Machine K × Verdict)
      → Ends trap refresh e h (rounds i) m x
      → ((n : Machine K)
          → run fuel (suc i) n ≡ some (m', c)
          → Runs trap refresh e h rounds (suc i) n m' c)
      → follow x (λ n. run fuel (suc i) n) ≡ some (m', c)
      → Runs trap refresh e h rounds i m m' c
  unfolding or_else
  followed fuel i c m m' (n, returned d) ends rest r =
      let same : (n, d) ≡ (m', c) = ap (λ (o : Option (Machine K × ℕ)). or_else o (n, d)) r in
      stops (
        subst (λ (x : Machine K × ℕ). Ends trap refresh e h (rounds i) m (x.0, returned x.1)) same
          ends)
  followed fuel i c m m' (n, again) ends rest r = enters ends (rest n r)

  -- Where the loop ends within its fuel, the call is a run of entries that the relation allows, with
  -- the same machine and code at its end.
  pub run_loop_sound :
      (fuel i c : ℕ) (m m' : Machine K)
      → run fuel i m ≡ some (m', c)
      → Runs trap refresh e h rounds i m m' c
  unfolding run_loop
  run_loop_sound zero i c m m' r = ground arith
  run_loop_sound (suc fuel) i c m m' r =
      followed fuel i c m m' (round i m) (one_round-Ends trap refresh e h (rounds i) m)
        (λ n s. run_loop_sound fuel (suc i) c n m' s) r

  pub last :
      (fuel i c : ℕ) (m m' : Machine K)
      → Ends trap refresh e h (rounds i) m (m', returned c)
      → 1 ≤ fuel
      → run fuel i m ≡ some (m', c)
  last zero i c m m' s le = absurd (omega arith)
  last (suc fuel) i c m m' s le =
      run_returned fuel i c m m' (one_round_lem trap refresh e h (rounds i) m (m', returned c) s)
