-- ===== src/Vcpu/Run/Spec.antt =====
-- `hv_vcpu_run` as a relation, without fuel (src/ohv_vcpu.cpp): what an entry may end with, and which
-- runs of entries a call is.
use open_hypervisor.Base.{
  ℕ, suc, ◌≡◌, Bool, true, false, not, ◌==◌, if◌then◌else◌, if_cases, if_true, if_false, ◌∙◌,
}
use open_hypervisor.Context.{Ctx}
use open_hypervisor.Hv.{hv_success}
use open_hypervisor.Host.{Host}
use open_hypervisor.Vm.Kernel.{Trap}
use open_hypervisor.Vcpu.Environment.{Environment}
use open_hypervisor.Vcpu.Run.{
  Round, Machine, Verdict, returned, again, stopped, served, code_of, entered, handled, turn_around,
  one_round,
}

module _ {K : Type 0} (trap : Trap K) (refresh : K → Ctx → Ctx) (e : Environment) (h : Host) where
  abbrev pub code : Machine K → ℕ
  code m = code_of trap refresh e h m

  -- When the kernel is back, and when the exit was handled.
  abbrev pub before : Round → Machine K → Machine K
  before r m = entered trap refresh e h r m

  abbrev pub after : Round → Machine K → Machine K × Bool
  after r m = handled trap refresh e h r (before r m)

  -- The five ends of an entry.
  pub data Ends (r : Round) (m : Machine K) : Machine K × Verdict → Type 0 where
    refused : not (code m == hv_success) ≡ true → Ends r m (before r m, returned (code m))
    canceled_inside :
        not (code m == hv_success) ≡ false
        → (before r m).slot.exit_requested ≡ true
        → Ends r m (stopped (before r m), returned hv_success)
    told :
        not (code m == hv_success) ≡ false
        → (before r m).slot.exit_requested ≡ false
        → (after r m).1 ≡ true
        → Ends r m (served (after r m).0, returned hv_success)
    canceled_between :
        not (code m == hv_success) ≡ false
        → (before r m).slot.exit_requested ≡ false
        → (after r m).1 ≡ false
        → (after r m).0.slot.exit_requested ≡ true
        → Ends r m (stopped (after r m).0, returned hv_success)
    goes_on :
        not (code m == hv_success) ≡ false
        → (before r m).slot.exit_requested ≡ false
        → (after r m).1 ≡ false
        → (after r m).0.slot.exit_requested ≡ false
        → Ends r m ((after r m).0, again)

  pub data Runs (rounds : ℕ → Round) : ℕ → Machine K → Machine K → ℕ → Type 0 where
    stops :
        {i : ℕ} {m m' : Machine K} {c : ℕ}
        → Ends (rounds i) m (m', returned c)
        → Runs rounds i m m' c
    enters :
        {i : ℕ} {m m' n : Machine K} {c : ℕ}
        → Ends (rounds i) m (n, again)
        → Runs rounds (suc i) n m' c
        → Runs rounds i m m' c

  -- By the tests in the order of the code.
  turn_around-Ends :
      (r : Round) (m : Machine K)
      → not (code m == hv_success) ≡ false
      → (before r m).slot.exit_requested ≡ false
      → Ends r m (turn_around trap refresh e h (after r m))
  unfolding turn_around
  turn_around-Ends r m c q = if_cases (Ends r m) (after r m).1 _ _ (told c q) (λ t.
      if_cases (Ends r m) (after r m).0.slot.exit_requested _ _ (canceled_between c q t)
        (goes_on c q t))

  pub one_round-Ends : (r : Round) (m : Machine K) → Ends r m (one_round trap refresh e h r m)
  unfolding one_round
  one_round-Ends r m = if_cases (Ends r m) (not (code m == hv_success)) _ _ refused (λ c.
      if_cases (Ends r m) (before r m).slot.exit_requested _ _ (canceled_inside c)
        (turn_around-Ends r m c))

  turn_around_told :
      (x : Machine K × Bool)
      → x.1 ≡ true
      → turn_around trap refresh e h x ≡ (served x.0, returned hv_success)
  unfolding turn_around
  turn_around_told x t = if_true x.1 _ _ t

  turn_around_quiet :
      (x : Machine K × Bool)
      → x.1 ≡ false
      → turn_around trap refresh e h x
        ≡ (if x.0.slot.exit_requested then (stopped x.0, returned hv_success) else (x.0, again))
  unfolding turn_around
  turn_around_quiet x t = if_false x.1 _ _ t

  one_round_success :
      (r : Round) (m : Machine K)
      → not (code m == hv_success) ≡ false
      → (before r m).slot.exit_requested ≡ false
      → one_round trap refresh e h r m ≡ turn_around trap refresh e h (after r m)
  unfolding one_round
  one_round_success r m c q =
      if_false (not (code m == hv_success)) _ _ c ∙ if_false (before r m).slot.exit_requested _ _ q

  pub one_round_lem :
      (r : Round) (m : Machine K) (x : Machine K × Verdict)
      → Ends r m x
      → one_round trap refresh e h r m ≡ x
  unfolding one_round
  one_round_lem r m _ (refused c) = if_true (not (code m == hv_success)) _ _ c
  one_round_lem r m _ (canceled_inside c q) =
      if_false (not (code m == hv_success)) _ _ c ∙ if_true (before r m).slot.exit_requested _ _ q
  one_round_lem r m _ (told c q t) = one_round_success r m c q ∙ turn_around_told (after r m) t
  one_round_lem r m _ (canceled_between c q t a) =
      one_round_success r m c q
      ∙ turn_around_quiet (after r m) t
      ∙ if_true (after r m).0.slot.exit_requested _ _ a
  one_round_lem r m _ (goes_on c q t a) =
      one_round_success r m c q
      ∙ turn_around_quiet (after r m) t
      ∙ if_false (after r m).0.slot.exit_requested _ _ a
