-- ===== src/Vcpu/Run/Cancel.antt =====
-- Requests for an exit while a vCPU runs, and the count of its entries (`hv_vcpu_run`,
-- src/ohv_vcpu.cpp).
use open_hypervisor.Base.{
  ℕ, zero, suc, ◌+◌, ◌%◌, ◌^◌, ◌<◌, ◌≡◌, refl, sym, ap, ◌∙◌, Bool, true, false, not, ◌||◌, Option,
  none, some, List, arith, ◌==◌,
}
use mathlib.Core.Path.{subst}
use open_hypervisor.Context.{Ctx}
use open_hypervisor.Hv.{hv_success}
use open_hypervisor.Host.{Host, find_vcpu, owned_vcpu, put_slot}
use open_hypervisor.Host.Laws.{owned_vcpu_found}
use open_hypervisor.Vm.Kernel.{Trap, vcpu_run}
use open_hypervisor.Vcpu.Slot.{VcpuSlot}
use open_hypervisor.Vcpu.Environment.{Environment}
use open_hypervisor.Vcpu.Exit.{exit_canceled}
use open_hypervisor.Vcpu.Exit.Kept.Entry.{expire-Kept}
use open_hypervisor.Vcpu.Exit.Kept.{exit_from_ro-Kept}
use open_hypervisor.Vcpu.Lifecycle.{hv_vcpus_exit}
use open_hypervisor.Vcpu.Lifecycle.Laws.{elem, in_range, hv_vcpus_exit_latches}
use open_hypervisor.Vcpu.Run.{
  Round, Machine, Verdict, returned, again, follow, stopped, enter, entered, handled, one_round,
  run_loop, finish, run_owned, hv_vcpu_run,
}
use open_hypervisor.Vcpu.Run.Spec.{
  Ends, refused, canceled_inside, told, canceled_between, goes_on, Runs, stops, enters,
  one_round-Ends,
}
use open_hypervisor.Vcpu.Run.Laws.{run_loop_sound, last}

-- The count of entries in what the loop answers.
count_of : {K : Type 0} → Option (Machine K × ℕ) → ℕ
count_of none = 0
count_of (some (m, _)) = m.slot.run_count

abbrev Counted : {K : Type 0} → ℕ → Machine K → Machine K → Type 0
Counted fuel m m' = (n : ℕ) × (n < fuel) × (m'.slot.run_count ≡ (m.slot.run_count + suc n) % 2 ^ 64)

i_plus : (i : ℕ) → i ≡ i + 0
i_plus i = omega arith

place : (i j : ℕ) → suc i + j ≡ i + suc j
place i j = omega arith

module _ {K : Type 0} (trap : Trap K) (refresh : K → Ctx → Ctx) (e : Environment) (h : Host) where
  pub entered_requested :
      (r : Round) (m : Machine K)
      → (entered trap refresh e h r m).slot.exit_requested ≡ (m.slot.exit_requested || r.asked)
  unfolding entered enter
  entered_requested r m =
      ap (λ (b : Bool). b || r.asked) (expire-Kept e r.timers m.slot (r.band m.band) r.races).0

  pub entered_count :
      (r : Round) (m : Machine K)
      → (entered trap refresh e h r m).slot.run_count ≡ (m.slot.run_count + 1) % 2 ^ 64
  unfolding entered enter
  entered_count r m =
      ap (λ (n : ℕ). (n + 1) % 2 ^ 64) (expire-Kept e r.timers m.slot (r.band m.band) r.races).1

  pub handled_requested :
      (r : Round) (m : Machine K)
      → (handled trap refresh e h r m).0.slot.exit_requested
        ≡ (m.slot.exit_requested || r.asked_again)
  unfolding handled
  handled_requested r m =
      ap (λ (b : Bool). b || r.asked_again)
        (exit_from_ro-Kept trap refresh h r.surroundings e m.kernel m.slot (r.held m.held)).0

  pub handled_count :
      (r : Round) (m : Machine K)
      → (handled trap refresh e h r m).0.slot.run_count ≡ m.slot.run_count
  unfolding handled
  handled_count r m =
      (exit_from_ro-Kept trap refresh h r.surroundings e m.kernel m.slot (r.held m.held)).1

  -- What an end of an entry says of the requests and of the count.
  abbrev Accounted : Round → Machine K → Machine K × Verdict → Type 0
  Accounted r m (n, returned c) =
      (n.slot.run_count ≡ (m.slot.run_count + 1) % 2 ^ 64)
      × ((not (c == hv_success) || not n.slot.exit_requested) ≡ true)
  Accounted r m (n, again) =
      (n.slot.run_count ≡ (m.slot.run_count + 1) % 2 ^ 64)
      × (n.slot.exit_requested ≡ false)
      × (m.slot.exit_requested ≡ false)
      × (r.asked ≡ false)
      × (r.asked_again ≡ false)

  Ends-Accounted :
      (r : Round) (m : Machine K) (x : Machine K × Verdict)
      → Ends trap refresh e h r m x
      → Accounted r m x
  Ends-Accounted r m _ (refused c) = (entered_count r m, ground (arith, c))
  Ends-Accounted r m _ (canceled_inside c q) = (entered_count r m, refl)
  Ends-Accounted r m _ (told c q t) =
      (handled_count r (entered trap refresh e h r m) ∙ entered_count r m, refl)
  Ends-Accounted r m _ (canceled_between c q t a) =
      (handled_count r (entered trap refresh e h r m) ∙ entered_count r m, refl)
  Ends-Accounted r m _ (goes_on c q t a) =
      let m1 = entered trap refresh e h r m in
      let inside = entered_requested r m in
      let between = handled_requested r m1 in
      (handled_count r m1 ∙ entered_count r m, a, ground arith, ground arith, ground arith)

  module _ (rounds : ℕ → Round) where
    abbrev Answers : ℕ → ℕ → Machine K → Type 0
    Answers fuel i m =
        (m' : Machine K) × (c : ℕ) × (run_loop trap refresh e h fuel rounds i m ≡ some (m', c))

    Runs-cleared :
        {i c : ℕ} {m m' : Machine K}
        → Runs trap refresh e h rounds i m m' c
        → (not (c == hv_success) || not m'.slot.exit_requested) ≡ true
    Runs-cleared {i = i} {m = m} (stops s) = (Ends-Accounted (rounds i) m _ s).1
    Runs-cleared (enters s r) = Runs-cleared r

    -- A call that succeeds leaves no request for an exit standing, whenever it was made: the next
    -- call does not end on a request that this one has answered.
    pub run_loop_cleared :
        (fuel i : ℕ) (m m' : Machine K)
        → run_loop trap refresh e h fuel rounds i m ≡ some (m', hv_success)
        → m'.slot.exit_requested ≡ false
    run_loop_cleared fuel i m m' r =
        ground
          (arith, Runs-cleared (run_loop_sound trap refresh e h rounds fuel i hv_success m m' r))

    -- A request that stands when the call begins, or is made while the guest runs, ends the call at
    -- that entry: it is told as a cancel, without a look at the exit, and is taken.
    pub run_loop_canceled :
        (fuel i : ℕ) (m : Machine K)
        → (trap vcpu_run m.kernel).0.code ≡ hv_success
        → (m.slot.exit_requested || (rounds i).asked) ≡ true
        → run_loop trap refresh e h (suc fuel) rounds i m
          ≡ some (stopped (entered trap refresh e h (rounds i) m), hv_success)
    run_loop_canceled fuel i m code asked =
        last trap refresh e h rounds (suc fuel) i hv_success m
          (stopped (entered trap refresh e h (rounds i) m))
          (canceled_inside (ground arith) (entered_requested (rounds i) m ∙ asked)) (omega arith)

    -- The guest is entered again only where nobody has asked for an exit: not before the entry, not
    -- while the guest ran and not while its exit was handled.
    pub one_round_again :
        (i : ℕ) (m n : Machine K)
        → one_round trap refresh e h (rounds i) m ≡ (n, again)
        → (m.slot.exit_requested ≡ false)
          × ((rounds i).asked ≡ false)
          × ((rounds i).asked_again ≡ false)
          × (n.slot.exit_requested ≡ false)
    one_round_again i m n r =
        let acc =
          subst (λ (x : Machine K × Verdict). Accounted (rounds i) m x) r
            (Ends-Accounted (rounds i) m (one_round trap refresh e h (rounds i) m)
              (one_round-Ends trap refresh e h (rounds i) m)) in
        (acc.2, acc.3, acc.4, acc.1)

    followed-Counted :
        (fuel i c : ℕ) (m m' : Machine K) (x : Machine K × Verdict)
        → Accounted (rounds i) m x
        → ((n : Machine K)
            → run_loop trap refresh e h fuel rounds (suc i) n ≡ some (m', c)
            → Counted fuel n m')
        → follow x (λ n. run_loop trap refresh e h fuel rounds (suc i) n) ≡ some (m', c)
        → Counted (suc fuel) m m'
    unfolding count_of
    followed-Counted fuel i c m m' (n, returned d) acc rest r =
        (0, omega arith, ap count_of (sym r) ∙ acc.0)
    followed-Counted fuel i c m m' (n, again) acc rest r =
        let (k, lt, count) = rest n r in (suc k, omega arith, omega (arith, count, acc.0))

    -- Whatever a call ends with, it has counted its entries, at least one and at most as many as its
    -- fuel.
    pub run_loop_counted :
        (fuel i c : ℕ) (m m' : Machine K)
        → run_loop trap refresh e h fuel rounds i m ≡ some (m', c)
        → (n : ℕ) × (n < fuel) × (m'.slot.run_count ≡ (m.slot.run_count + suc n) % 2 ^ 64)
    unfolding run_loop
    run_loop_counted zero i c m m' r = ground arith
    run_loop_counted (suc fuel) i c m m' r =
        followed-Counted fuel i c m m' (one_round trap refresh e h (rounds i) m)
          (Ends-Accounted (rounds i) m _ (one_round-Ends trap refresh e h (rounds i) m))
          (λ n s. run_loop_counted fuel (suc i) c n m' s) r

    Answers-followed :
        (fuel i : ℕ) (m : Machine K) (x : Machine K × Verdict)
        → Accounted (rounds i) m x
        → ((n : Machine K) → Accounted (rounds i) m (n, again) → Answers fuel (suc i) n)
        → (m' : Machine K) × (c : ℕ) × (follow x
              (λ n. run_loop trap refresh e h fuel rounds (suc i) n)
            ≡ some (m', c))
    Answers-followed fuel i m (n, returned d) acc rest = (n, d, refl)
    Answers-followed fuel i m (n, again) acc rest = rest n acc

    -- A call comes back by the entry in which another thread asks for an exit, whatever the kernel
    -- and the guest do: it goes round at most that often, so fuel beyond that entry is enough.
    pub run_loop_ends :
        (j fuel i : ℕ) (m : Machine K)
        → j < fuel
        → (rounds (i + j)).asked ≡ true
        → (m' : Machine K) × (c : ℕ) × (run_loop trap refresh e h fuel rounds i m ≡ some (m', c))
    unfolding run_loop
    run_loop_ends j zero i m lt asked = absurd (omega arith)
    run_loop_ends zero (suc fuel) i m lt asked =
        let now : (rounds i).asked ≡ true = ap (λ (n : ℕ). (rounds n).asked) (i_plus i) ∙ asked in
        Answers-followed fuel i m (one_round trap refresh e h (rounds i) m)
          (Ends-Accounted (rounds i) m _ (one_round-Ends trap refresh e h (rounds i) m))
          (λ n acc. absurd (ground (arith, now, acc.3)))
    run_loop_ends (suc j) (suc fuel) i m lt asked =
        let later : (rounds (suc i + j)).asked ≡ true =
          ap (λ (n : ℕ). (rounds n).asked) (place i j) ∙ asked in
        Answers-followed fuel i m (one_round trap refresh e h (rounds i) m)
          (Ends-Accounted (rounds i) m _ (one_round-Ends trap refresh e h (rounds i) m))
          (λ n acc. run_loop_ends j fuel (suc i) n (omega arith) later)

    -- What the call does on such a request.
    pub hv_vcpu_run_canceled :
        (fuel held band id : ℕ) (k : K) (s : VcpuSlot)
        → owned_vcpu h id ≡ some s
        → (trap vcpu_run k).0.code ≡ hv_success
        → (s.exit_requested || (rounds 0).asked) ≡ true
        → (m' : Machine K) × (hv_vcpu_run trap refresh e h (suc fuel) rounds k held band id
            ≡ some (put_slot h id m'.slot, m', hv_success))
          × (m'.slot.exit_reason ≡ exit_canceled)
          × (m'.slot.exit_requested ≡ false)
          × (m'.slot.run_count ≡ (s.run_count + 1) % 2 ^ 64)
    unfolding hv_vcpu_run run_owned
    hv_vcpu_run_canceled fuel held band id k s owned code asked =
        let m : Machine K = record { kernel = k; slot = s; held = held; band = band } in
        let m1 = entered trap refresh e h (rounds 0) m in
        (
          stopped m1,
          ap
                (λ (o : Option VcpuSlot).
                  run_owned trap refresh e h o (suc fuel) rounds k held band id)
                owned
              ∙ ap (finish trap refresh e h id) (run_loop_canceled fuel 0 m code asked),
          refl,
          refl,
          entered_count (rounds 0) m,
        )

-- Looking up a vCPU whose request was latched.
owned_requested :
    (h h' : Host) (id : ℕ) (s : VcpuSlot)
    → h'.current ≡ h.current
    → h'.vcpus id ≡ record (h.vcpus id) { exit_requested = true }
    → owned_vcpu h id ≡ some s
    → owned_vcpu h' id ≡ some (record s { exit_requested = true })
unfolding owned_vcpu find_vcpu
owned_requested h h' id s current latched owned = ground (arith, owned_vcpu_found h id s owned)

module _ {K : Type 0} (trap : Trap K) (pages : K → ℕ → Ctx) (refresh : K → Ctx → Ctx)
    (e : Environment) (h : Host) where
  current_kept :
      (ids : List ℕ) (k : K) → (hv_vcpus_exit trap pages h k (some ids)).0.current ≡ h.current
  unfolding hv_vcpus_exit
  current_kept ids k = ground arith

  -- A vCPU that another thread asked out of the guest before it was run: the call of the vCPU's
  -- thread enters the guest once and answers with a cancel, and the request is taken. The kernel
  -- lets the vCPU run, all ids of the request are in range and the vCPU's is one of them.
  pub hv_vcpus_exit-run :
      (ids : List ℕ) (rounds : ℕ → Round) (fuel held band id : ℕ) (k : K) (s : VcpuSlot)
      → in_range ids ≡ true
      → elem id ids ≡ true
      → owned_vcpu h id ≡ some s
      → let (h', k', _) = hv_vcpus_exit trap pages h k (some ids) in
        (trap vcpu_run k').0.code ≡ hv_success
        → (m' : Machine K) × (hv_vcpu_run trap refresh e h' (suc fuel) rounds k' held band id
            ≡ some (put_slot h' id m'.slot, m', hv_success))
          × (m'.slot.exit_reason ≡ exit_canceled)
          × (m'.slot.exit_requested ≡ false)
          × (m'.slot.run_count ≡ (s.run_count + 1) % 2 ^ 64)
  hv_vcpus_exit-run ids rounds fuel held band id k s small named owned code =
      let (h', k', _) = hv_vcpus_exit trap pages h k (some ids) in
      let t : VcpuSlot = record s { exit_requested = true } in
      let still : owned_vcpu h' id ≡ some t =
        owned_requested h h' id s (current_kept ids k)
          (ground (arith, hv_vcpus_exit_latches trap pages h k ids id small)) owned in
      hv_vcpu_run_canceled trap refresh e h' rounds fuel held band id k' t still code refl
