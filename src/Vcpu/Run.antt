-- ===== src/Vcpu/Run.antt =====
-- Running a vCPU (`hv_vcpu_run`, src/ohv_vcpu.cpp): a loop of entries into the guest. The kernel
-- decides how often it goes round, so it runs on fuel; what happens beside it is an explicit
-- schedule, one `Round` for each entry.
pub mod Spec
pub mod Laws
pub mod Cancel
pub mod Nested
use open_hypervisor.Base.{
  ℕ, zero, suc, ◌+◌, ◌-◌, ◌%◌, ◌^◌, Bool, false, not, ◌||◌, Option, none, some, List, ◌==◌,
  if◌then◌else◌,
}
use open_hypervisor.Context.{Ctx}
use open_hypervisor.Hv.{hv_success, hv_bad_argument}
use open_hypervisor.Host.{Host, owned_vcpu, put_slot}
use open_hypervisor.Vm.Kernel.{Trap, vcpu_run}
use open_hypervisor.Vcpu.Slot.{VcpuSlot}
use open_hypervisor.Vcpu.Environment.{Environment}
use open_hypervisor.Vcpu.Timers.{ohv_expire_timers}
use open_hypervisor.Vcpu.Emulation.Service.{Surroundings}
use open_hypervisor.Vcpu.Exit.{exit_canceled, exit_from_ro}

-- What one entry finds: the host's counter before it, when the timers are looked at and after it;
-- what other threads put into `g_monitor_band` while an exchange of it failed; what they made of
-- that variable and of the static of `service_nv2_access` since the last entry; whether one asked
-- for an exit while the guest ran, and between the two looks at the request after that; and what
-- the handling of the exit reads of the process.
pub record Round : Type 0 where
  pub started : ℕ
  pub timers : ℕ
  pub ended : ℕ
  pub races : List ℕ
  pub band : ℕ → ℕ
  pub held : ℕ → ℕ
  pub asked : Bool
  pub asked_again : Bool
  pub surroundings : Surroundings

-- The kernel, the slot of the vCPU, the static of `service_nv2_access` and `g_monitor_band`.
pub record Machine (K : Type 0) : Type 0 where
  pub kernel : K
  pub slot : VcpuSlot
  pub held : ℕ
  pub band : ℕ

-- What a round ends with: the call returns its code, or goes round again.
pub data Verdict : Type 0 where
  returned : ℕ → Verdict
  again : Verdict

-- The loop goes round again, or the call returns.
abbrev pub follow :
    {K : Type 0}
    → Machine K × Verdict
    → (Machine K → Option (Machine K × ℕ))
    → Option (Machine K × ℕ)
follow (m, returned code) loop = some (m, code)
follow (m, again) loop = loop m

-- The request is taken: as a cancel that is told, or as one that the exit has served.
abbrev pub stopped : {K : Type 0} → Machine K → Machine K
stopped m = record m {
  slot = record m.slot { exit_requested = false; exit_reason = exit_canceled };
}

abbrev pub served : {K : Type 0} → Machine K → Machine K
served m = record m { slot = record m.slot { exit_requested = false } }

abbrev pub ask : Bool → VcpuSlot → VcpuSlot
ask asked s = record s { exit_requested = s.exit_requested || asked }

module _ {K : Type 0} (trap : Trap K) (refresh : K → Ctx → Ctx) (e : Environment) (h : Host) where
  -- The entry, with the times it is counted by; `refresh` is what it has put into the pages.
  unfoldable pub enter : Round → VcpuSlot → K → VcpuSlot
  enter r s k = record s {
    ctx = refresh k s.ctx;
    wfi_ticks = (s.wfi_ticks + (r.ended + 2 ^ 64 - r.started % 2 ^ 64)) % 2 ^ 64;
    run_count = (s.run_count + 1) % 2 ^ 64;
    exit_requested = s.exit_requested || r.asked;
  }

  -- The code of the entry, and the machine when the kernel is back from it.
  abbrev pub code_of : Machine K → ℕ
  code_of m = (trap vcpu_run m.kernel).0.code

  unfoldable pub entered : Round → Machine K → Machine K
  entered r m =
      let (s, band) = ohv_expire_timers e r.timers m.slot (r.band m.band) r.races in
      let k = (trap vcpu_run m.kernel).1 in
      record { kernel = k; slot = enter r s k; held = m.held; band = band }

  -- The machine after `exit_from_ro`, with the requests of other threads since the first look, and
  -- whether the VMM is to be told.
  unfoldable pub handled : Round → Machine K → Machine K × Bool
  handled r m =
      let (k, s, held, told) =
        exit_from_ro h r.surroundings trap refresh e m.kernel m.slot (r.held m.held) in
      (record { kernel = k; slot = ask r.asked_again s; held = held; band = m.band }, told)

  unfoldable pub turn_around : Machine K × Bool → Machine K × Verdict
  turn_around (m, told) =
      if told
      then (served m, returned hv_success)
      else if m.slot.exit_requested
      then (stopped m, returned hv_success)
      else (m, again)

  unfoldable pub one_round : Round → Machine K → Machine K × Verdict
  one_round r m =
      let m1 = entered r m in
      let rest = turn_around (handled r m1) in
      if not (code_of m == hv_success)
      then (m1, returned (code_of m))
      else if m1.slot.exit_requested
      then (stopped m1, returned hv_success)
      else rest

  -- `none` where the fuel ran out; `i` numbers the entries.
  unfoldable pub run_loop : ℕ → (ℕ → Round) → ℕ → Machine K → Option (Machine K × ℕ)
  run_loop zero rounds i m = none
  run_loop (suc fuel) rounds i m =
      follow (one_round (rounds i) m) (λ n. run_loop fuel rounds (suc i) n)

  -- The slot is written back to the table.
  abbrev pub finish : ℕ → Option (Machine K × ℕ) → Option (Host × Machine K × ℕ)
  finish id none = none
  finish id (some (m, code)) = some (put_slot h id m.slot, m, code)

  -- The call: the machine it leaves, with the host that the slot was written back to, and the code.
  -- The first argument is `owned_vcpu(id)`.
  unfoldable pub run_owned :
      Option VcpuSlot → ℕ → (ℕ → Round) → K → ℕ → ℕ → ℕ → Option (Host × Machine K × ℕ)
  run_owned none fuel rounds k held band id =
      let m : Machine K = record { kernel = k; slot = h.vcpus id; held = held; band = band } in
      some (h, m, hv_bad_argument)
  run_owned (some s) fuel rounds k held band id =
      let m : Machine K = record { kernel = k; slot = s; held = held; band = band } in
      finish id (run_loop fuel rounds 0 m)

  unfoldable pub hv_vcpu_run : ℕ → (ℕ → Round) → K → ℕ → ℕ → ℕ → Option (Host × Machine K × ℕ)
  hv_vcpu_run fuel rounds k held band id = run_owned (owned_vcpu h id) fuel rounds k held band id
