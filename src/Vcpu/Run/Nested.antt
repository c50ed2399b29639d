-- ===== src/Vcpu/Run/Nested.antt =====
-- The level of a guest hypervisor over a whole call of `hv_vcpu_run` (src/ohv_vcpu.cpp).
pub mod Words
pub mod Served
pub mod Entry
use open_hypervisor.Base.{ℕ, ◌^◌, ◌≡◌, refl, true, ◌&&◌, ◌||◌, bit_or, some, arith, ◌==◌, if_cases}
use open_hypervisor.Context.{Ctx, load32, load64, store64}
use open_hypervisor.Context.Rw
use open_hypervisor.Context.Ro
use open_hypervisor.Context.Controls
use open_hypervisor.Context.State
use open_hypervisor.Host.{Host}
use open_hypervisor.Vm.Kernel.{Trap, vcpu_run, vcpu_sysregs_sync}
use open_hypervisor.Vcpu.Slot.{VcpuSlot, mark_slot_dirty}
use open_hypervisor.Vcpu.Environment.{Environment}
use open_hypervisor.Vcpu.Timers.{ohv_expire_timers}
use open_hypervisor.Vcpu.Emulation.Transfer.{step_pc}
use open_hypervisor.Vcpu.Emulation.Service.{Surroundings, service_nv2_access}
use open_hypervisor.Vcpu.Nesting.{
  elr_el1, spsr_el1, elr_gl1, spsr_gl1, nv_on, leave_guarded, synced,
}
use open_hypervisor.Vcpu.Nesting.Laws.{
  is_nested, nv_on_lem, leave_guarded-nested, level_change-nested,
}
use open_hypervisor.Vcpu.Exit.{
  ExitAction, keep_running, to_vmm, report, vmexit_msr_trap, mirrored, monitor_nv,
  physical_interrupt, mirror_gl1, synchronous, msr_trap, exit_switch, exit_prelude, exit_from_ro,
}
use open_hypervisor.Vcpu.Run.{Round, Machine, Verdict, enter, entered, handled, run_loop}
use open_hypervisor.Vcpu.Run.Spec.{
  Ends, refused, canceled_inside, told, canceled_between, goes_on, Runs, stops, enters,
}
use open_hypervisor.Vcpu.Run.Laws.{run_loop_sound}
use open_hypervisor.Vcpu.Run.Nested.Words.{
  Steady, Steady-trans, Steady-nested, mark-Steady, store-Steady, step-Steady,
}
use open_hypervisor.Vcpu.Run.Nested.Served.{service-nested}
use open_hypervisor.Vcpu.Run.Nested.Entry.{expire-nested}

-- The handling of an exit.
nv_on-nested : (s : VcpuSlot) → is_nested (nv_on s) ≡ true
nv_on-nested s = ground (arith, nv_on_lem s)

monitor-nested :
    (e : Environment) (s : VcpuSlot) → is_nested s ≡ true → is_nested (monitor_nv e s) ≡ true
unfolding monitor_nv
monitor-nested e s n = ground (arith, nv_on-nested s)

mirrored-Steady : (s : VcpuSlot) → Steady s (mirrored s)
unfolding mirrored
mirrored-Steady s =
    let s1 : VcpuSlot = record s { ctx = store64 s.ctx elr_el1 (load64 s.ctx elr_gl1) } in
    let s2 : VcpuSlot = record s1 { ctx = store64 s1.ctx spsr_el1 (load64 s.ctx spsr_gl1) } in
    let s3 = mark_slot_dirty s2 State.sysregs in
    let moved : Steady s s3 =
      Steady-trans s s2 s3
        (Steady-trans s s1 s2 (store-Steady s elr_el1 (load64 s.ctx elr_gl1) (omega arith))
          (store-Steady s1 spsr_el1 (load64 s.ctx spsr_gl1) (omega arith)))
        (mark-Steady s2 State.sysregs) in
    if_cases (Steady s) (load64 s.ctx elr_gl1 == 0 || load64 s.ctx spsr_gl1 == 0) _ _
      (λ _. (refl, refl, refl))
      (λ _.
        if_cases (Steady s)
          (load64 s.ctx elr_el1 == load64 s.ctx elr_gl1
            && load64 s.ctx spsr_el1 == load64 s.ctx spsr_gl1)
          _ _ (λ _. (refl, refl, refl)) (λ _. moved))

interrupt-Steady : (s : VcpuSlot) (esr : ℕ) → Steady s (physical_interrupt s esr).0
unfolding physical_interrupt
interrupt-Steady s esr =
    ground (arith, store-Steady s Rw.timer (bit_or (load64 s.ctx Rw.timer) (2 ^ 0)) (omega arith))

report-Steady :
    (a : ExitAction) (esr far hpfar : ℕ) (s : VcpuSlot) → Steady s (report a esr far hpfar s).0
unfolding report
report-Steady keep_running esr far hpfar s = (refl, refl, refl)
report-Steady (to_vmm _ _) esr far hpfar s = (refl, refl, refl)

module _ {K : Type 0} (trap : Trap K) (refresh : K → Ctx → Ctx)
    (controls_kept : (k : K) (c : Ctx)
      → load64 (refresh k c) Controls.hcr_el2 ≡ load64 c Controls.hcr_el2)
    (e : Environment) where
  refreshed-Steady : (k : K) (s : VcpuSlot) → Steady s (record s { ctx = refresh k s.ctx })
  refreshed-Steady k s = (controls_kept k s.ctx, refl, refl)

  entered-nested :
      (h : Host) (r : Round) (m : Machine K)
      → is_nested m.slot ≡ true
      → is_nested (entered trap refresh e h r m).slot ≡ true
  unfolding entered enter
  entered-nested h r m n =
      let s = (ohv_expire_timers e r.timers m.slot (r.band m.band) r.races).0 in
      let k = (trap vcpu_run m.kernel).1 in
      Steady-nested s (enter trap refresh e h r s k) (refreshed-Steady k s)
        (expire-nested e r.timers m.slot (r.band m.band) r.races n)

  module _ (h : Host) (m : Surroundings) where
    mirror-nested :
        (k : K) (s : VcpuSlot) (esr : ℕ)
        → is_nested s ≡ true
        → is_nested (mirror_gl1 h m trap refresh e k s esr).1 ≡ true
    unfolding mirror_gl1 synced
    mirror-nested k s esr n =
        let k1 = (trap vcpu_sysregs_sync k).1 in
        let t : VcpuSlot = record s { ctx = refresh k1 s.ctx } in
        let still : Steady s (mirrored t) =
          Steady-trans s t (mirrored t) (refreshed-Steady k1 s) (mirrored-Steady t) in
        ground (arith, n, Steady-nested s (mirrored t) still n)

    synchronous-nested :
        (k : K) (s : VcpuSlot) (reason esr : ℕ)
        → is_nested s ≡ true
        → is_nested (synchronous h m trap refresh e k s reason esr).1 ≡ true
    unfolding synchronous
    synchronous-nested k s reason esr n = ground (
      arith,
      Steady-nested s (step_pc s) (step-Steady s) n,
      level_change-nested trap refresh controls_kept e k s esr n,
    )

    msr_trap-nested :
        (k : K) (s : VcpuSlot) (held esr : ℕ)
        → is_nested s ≡ true
        → is_nested (msr_trap h m trap refresh e k s held esr).1 ≡ true
    unfolding msr_trap
    msr_trap-nested k s held esr n =
        let o = (service_nv2_access e m s held esr).slot in
        let served = service-nested e m s held esr n in
        ground (
          arith,
          served,
          synchronous-nested k s vmexit_msr_trap esr n,
          synchronous-nested k o vmexit_msr_trap esr served,
        )

    exit_switch-nested :
        (k : K) (s : VcpuSlot) (held reason esr : ℕ)
        → is_nested s ≡ true
        → is_nested (exit_switch h m trap refresh e k s held reason esr).1 ≡ true
    unfolding exit_switch
    exit_switch-nested k s held reason esr n = ground (
      arith,
      n,
      Steady-nested s (physical_interrupt s esr).0 (interrupt-Steady s esr) n,
      msr_trap-nested k s held esr n,
      synchronous-nested k s reason esr n,
    )

    exit_from_ro-nested :
        (k : K) (s : VcpuSlot) (held : ℕ)
        → is_nested s ≡ true
        → is_nested (exit_from_ro h m trap refresh e k s held).1 ≡ true
    unfolding exit_from_ro exit_prelude
    exit_from_ro-nested k s held n =
        let esr = load64 s.ctx Ro.exit_esr in
        let far = load64 s.ctx Ro.exit_far in
        let hpfar = load64 s.ctx Ro.exit_hpfar in
        let reason = load32 s.ctx Ro.exit_reason in
        let s0 = leave_guarded s esr in
        let (k1, s1) = mirror_gl1 h m trap refresh e k s0 esr in
        let s2 = monitor_nv e s1 in
        let ready : is_nested s2 ≡ true =
          monitor-nested e s1 (mirror-nested k s0 esr (leave_guarded-nested s esr n)) in
        let (k3, s3, held3, action) = exit_switch h m trap refresh e k1 s2 held reason esr in
        Steady-nested s3 (report action esr far hpfar s3).0 (report-Steady action esr far hpfar s3)
          (exit_switch-nested k1 s2 held reason esr ready)

  module _ (h : Host) (rounds : ℕ → Round) where
    handled-nested :
        (r : Round) (m : Machine K)
        → is_nested m.slot ≡ true
        → is_nested (handled trap refresh e h r m).0.slot ≡ true
    unfolding handled
    handled-nested r m n = exit_from_ro-nested h r.surroundings m.kernel m.slot (r.held m.held) n

    Ends-nested :
        (r : Round) (m : Machine K) (x : Machine K × Verdict)
        → Ends trap refresh e h r m x
        → is_nested m.slot ≡ true
        → is_nested x.0.slot ≡ true
    Ends-nested r m _ (refused c) n = entered-nested h r m n
    Ends-nested r m _ (canceled_inside c q) n = entered-nested h r m n
    Ends-nested r m _ (told c q t) n =
        handled-nested r (entered trap refresh e h r m) (entered-nested h r m n)
    Ends-nested r m _ (canceled_between c q t a) n =
        handled-nested r (entered trap refresh e h r m) (entered-nested h r m n)
    Ends-nested r m _ (goes_on c q t a) n =
        handled-nested r (entered trap refresh e h r m) (entered-nested h r m n)

    Runs-nested :
        {i c : ℕ} {m m' : Machine K}
        → Runs trap refresh e h rounds i m m' c
        → is_nested m.slot ≡ true
        → is_nested m'.slot ≡ true
    Runs-nested {i = i} {m = m} (stops s) n = Ends-nested (rounds i) m _ s n
    Runs-nested {i = i} {m = m} (enters s r) n = Runs-nested r (Ends-nested (rounds i) m _ s n)

    -- Over a whole call, whatever its entries and the accesses that are carried out in between, a
    -- guest that is left believing itself at EL2 has HCR_EL2.NV, or was let into a guarded level,
    -- where that held before the call. The kernel is taken to leave HCR_EL2 as it is, in an entry and
    -- in a sync.
    pub run_loop-nested :
        (fuel i c : ℕ) (m m' : Machine K)
        → run_loop trap refresh e h fuel rounds i m ≡ some (m', c)
        → is_nested m.slot ≡ true
        → is_nested m'.slot ≡ true
    run_loop-nested fuel i c m m' r n =
        Runs-nested (run_loop_sound trap refresh e h rounds fuel i c m m' r) n
