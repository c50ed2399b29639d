-- ===== src/Vcpu/Exit/Laws.antt =====
-- Which exits the VMM is told of, and what it is told (`exit_from_ro`, src/ohv_vcpu.cpp).
use open_hypervisor.Base.{
  ℕ, ◌+◌, ◌*◌, ◌/◌, ◌%◌, ◌^◌, ◌<◌, ◌≡◌, ◌⊎◌, refl, sym, ap, ◌∙◌, Bool, true, false, not, ◌&&◌, ◌||◌,
  bit_and, bit_or, arith, ◌==◌, if◌then◌else◌,
}
use open_hypervisor.Base.Bits.{
  bit_and_low, bit_and_high, bit_or_disjoint, not64, bit_at, bit_at-or, bit_and-one_hot, bit_at-mod,
  bit_at-one_hot, bit_at-le-one,
}
use open_hypervisor.Context.{Ctx, IsCtx, load32, load64}
use open_hypervisor.Context.Rw
use open_hypervisor.Context.Ro
use open_hypervisor.Context.Laws.{load64-lt, load64-store64-Apart}
use open_hypervisor.Host.{Host}
use open_hypervisor.Vm.Kernel.{Trap}
use open_hypervisor.Vcpu.Slot.{VcpuSlot}
use open_hypervisor.Vcpu.Environment.{Environment}
use open_hypervisor.Vcpu.Controls.{timer_mask}
use open_hypervisor.Vcpu.Stage1.{banked}
use open_hypervisor.Vcpu.Emulation.Transfer.{load64-store64_wrapped}
use open_hypervisor.Vcpu.Emulation.Service.{Surroundings, service_nv2_access}
use open_hypervisor.Vcpu.Nesting.{level_change}
use open_hypervisor.Vcpu.Exit.{
  ExitAction, keep_running, to_vmm, exit_canceled, exit_exception, exit_vtimer_activated,
  exit_unknown, vmexit_sync, vmexit_serror, vmexit_msr_trap, fault_address, report, told_syndrome,
  exception, physical_interrupt, synchronous, msr_trap, exit_switch, exit_prelude, exit_from_ro,
}

-- The exits that are the library's own business, whatever the guest did.
abbrev pub is_internal : ℕ → Bool
is_internal reason = reason == vmexit_serror || (reason == 7 || (reason == 11 || reason == 12))

-- The exits that the VMM may be told of as an exception.
abbrev pub is_exception : ℕ → Bool
is_exception reason = reason == vmexit_sync || (reason == 6 || reason == vmexit_msr_trap)

-- The virtual timer is enabled, due and unmasked, and its exit not masked.
abbrev pub due_in : Ctx → Bool
due_in c = bit_and (load64 c Rw.timer) timer_mask == 0 && load64 c (banked 18) == 5

abbrev pub vtimer_due : VcpuSlot → Bool
vtimer_due s = due_in s.ctx

-- The reason that is told.
abbrev pub reason_told : ℕ → Bool → ℕ
reason_told reason due =
    if reason == 0
    then exit_canceled
    else if is_exception reason
    then exit_exception
    else if (reason == 3 || reason == 4) && due
    then exit_vtimer_activated
    else exit_unknown

abbrev fits : ℕ → Bool → ℕ → ExitAction → Bool
fits reason due esr keep_running =
    is_internal reason || (reason == vmexit_sync || reason == vmexit_msr_trap)
fits reason due esr (to_vmm told syndrome) =
    not (is_internal reason) && (told == reason_told reason due && (esr == 0 || syndrome == esr))

pub fault_address_lem :
    (hpfar far : ℕ)
    → hpfar < 2 ^ 64
    → fault_address hpfar far ≡ hpfar / 2 ^ 12 * 2 ^ 12 + far % 2 ^ 12
unfolding fault_address
fault_address_lem hpfar far lt =
    let page : bit_and hpfar (not64 0xfff) ≡ hpfar / 2 ^ 12 * 2 ^ 12 =
      bit_and_high 12 64 hpfar (omega arith) lt in
    let small = bit_and_low 12 far in
    ground (arith, page, small, bit_or_disjoint 12 (hpfar / 2 ^ 12) (far % 2 ^ 12))

report-ctx :
    (a : ExitAction) (esr far hpfar : ℕ) (s : VcpuSlot) → (report a esr far hpfar s).0.ctx ≡ s.ctx
unfolding report
report-ctx keep_running esr far hpfar s = refl
report-ctx (to_vmm _ _) esr far hpfar s = refl

-- What the virtual timer's exit makes of the pages: the mask bit, and nothing else of its word or of
-- the timer's control word.
masked_after :
    (s : VcpuSlot) (esr j : ℕ)
    → vtimer_due s ≡ true
    → j < 64
    → let c = (physical_interrupt s esr).0.ctx in
      (bit_at (load64 s.ctx Rw.timer) 0 ≡ 0)
      × (load64 s.ctx (banked 18) ≡ 5)
      × (bit_at (load64 c Rw.timer) j ≡ (if j == 0 then 1 else bit_at (load64 s.ctx Rw.timer) j))
      × (load64 c (banked 18) ≡ 5)
unfolding physical_interrupt
masked_after s esr j due lt =
    let timer = load64 s.ctx Rw.timer in
    let v = bit_or timer timer_mask in
    let control : load64 s.ctx (banked 18) ≡ 5 = ground arith in
    (
      ground (arith, bit_and-one_hot 0 timer),
      control,
      ground (
        arith,
        load64-store64_wrapped s.ctx Rw.timer v,
        bit_at-mod 64 j v lt,
        bit_at-or j timer timer_mask,
        bit_at-one_hot 0 j,
        bit_at-le-one j timer,
      ),
      ground (arith, control, load64-store64-Apart s.ctx Rw.timer (banked 18) v),
    )

report_told :
    (a : ExitAction) (reason : ℕ) (due : Bool) (esr far hpfar : ℕ) (s : VcpuSlot)
    → fits reason due esr a ≡ true
    → (report a esr far hpfar s).1 ≡ true
    → let t = (report a esr far hpfar s).0 in
      (is_internal reason ≡ false)
      × (t.exit_reason ≡ reason_told reason due)
      × ((esr ≡ 0) ⊎ (t.exit_syndrome ≡ esr))
      × (t.exit_virtual_address ≡ far)
      × (t.exit_physical_address ≡ fault_address hpfar far)
unfolding report
report_told keep_running reason due esr far hpfar s fit told = ground arith
report_told (to_vmm n y) reason due esr far hpfar s fit told = ground arith

report_quiet :
    (a : ExitAction) (reason : ℕ) (due : Bool) (esr far hpfar : ℕ) (s : VcpuSlot)
    → fits reason due esr a ≡ true
    → (report a esr far hpfar s).1 ≡ false
    → (is_internal reason || (reason == vmexit_sync || reason == vmexit_msr_trap)) ≡ true
unfolding report
report_quiet keep_running reason due esr far hpfar s fit quiet = fit
report_quiet (to_vmm n y) reason due esr far hpfar s fit quiet = ground arith

module _ (h : Host) (m : Surroundings) {K : Type 0} (trap : Trap K) (refresh : K → Ctx → Ctx)
    (e : Environment) where
  exception-fits :
      (s : VcpuSlot) (reason esr : ℕ) (due : Bool)
      → is_exception reason ≡ true
      → fits reason due esr (exception h m s reason esr) ≡ true
  unfolding exception told_syndrome
  exception-fits s reason esr due is = ground arith

  synchronous-fits :
      (k : K) (s : VcpuSlot) (reason esr : ℕ) (due : Bool)
      → (reason ≡ vmexit_sync) ⊎ (reason ≡ vmexit_msr_trap)
      → fits reason due esr (synchronous h m trap refresh e k s reason esr).2 ≡ true
  unfolding synchronous
  synchronous-fits k s reason esr due is =
      let t = (level_change trap refresh e k s esr).1 in
      ground (arith, exception-fits t reason esr due)

  msr_trap-fits :
      (k : K) (s : VcpuSlot) (held esr : ℕ) (due : Bool)
      → fits vmexit_msr_trap due esr (msr_trap h m trap refresh e k s held esr).3 ≡ true
  unfolding msr_trap
  msr_trap-fits k s held esr due =
      let o = (service_nv2_access e m s held esr).slot in
      ground (
        arith,
        synchronous-fits k s vmexit_msr_trap esr due,
        synchronous-fits k o vmexit_msr_trap esr due,
      )

  exit_switch-fits :
      (k : K) (s : VcpuSlot) (held reason esr : ℕ)
      → fits reason (vtimer_due s) esr (exit_switch h m trap refresh e k s held reason esr).3 ≡ true
  unfolding exit_switch physical_interrupt
  exit_switch-fits k s held reason esr = ground (
    arith,
    synchronous-fits k s reason esr (vtimer_due s),
    msr_trap-fits k s held esr (vtimer_due s),
    exception-fits s reason esr (vtimer_due s),
  )

  switched-ctx :
      (k : K) (s : VcpuSlot) (held reason esr : ℕ)
      → (reason == 3 || reason == 4) ≡ true
      → (exit_switch h m trap refresh e k s held reason esr).1.ctx
        ≡ (physical_interrupt s esr).0.ctx
  unfolding exit_switch
  switched-ctx k s held reason esr is = ground arith

  abbrev pub esr_of : VcpuSlot → ℕ
  esr_of s = load64 s.ctx Ro.exit_esr

  abbrev pub far_of : VcpuSlot → ℕ
  far_of s = load64 s.ctx Ro.exit_far

  abbrev pub hpfar_of : VcpuSlot → ℕ
  hpfar_of s = load64 s.ctx Ro.exit_hpfar

  abbrev pub reason_of : VcpuSlot → ℕ
  reason_of s = load32 s.ctx Ro.exit_reason

  abbrev pub due_of : K → VcpuSlot → Bool
  due_of k s = vtimer_due (exit_prelude h m trap refresh e k s (esr_of s)).1

  -- What the VMM is told of an exit, if it is told: the reason is the one of the kernel's, the two
  -- addresses are the kernel's words, the page of the one and the offset of the other put together,
  -- and the syndrome is the kernel's where it gave one. An exit for an SError, or one that asks for
  -- no more than going back, is never told.
  pub exit_from_ro-told :
      (k : K) (s : VcpuSlot) (held : ℕ)
      → IsCtx s.ctx
      → (exit_from_ro h m trap refresh e k s held).3 ≡ true
      → let t = (exit_from_ro h m trap refresh e k s held).1 in
        (is_internal (reason_of s) ≡ false)
        × (t.exit_reason ≡ reason_told (reason_of s) (due_of k s))
        × ((esr_of s ≡ 0) ⊎ (t.exit_syndrome ≡ esr_of s))
        × (t.exit_virtual_address ≡ far_of s)
        × (t.exit_physical_address ≡ hpfar_of s / 2 ^ 12 * 2 ^ 12 + far_of s % 2 ^ 12)
  unfolding exit_from_ro
  exit_from_ro-told k s held is told =
      let (k1, s1) = exit_prelude h m trap refresh e k s (esr_of s) in
      let switched = exit_switch h m trap refresh e k1 s1 held (reason_of s) (esr_of s) in
      let (r, n, y, v, p) =
        report_told switched.3 (reason_of s) (due_of k s) (esr_of s) (far_of s) (hpfar_of s)
          switched.1 (exit_switch-fits k1 s1 held (reason_of s) (esr_of s)) told in
      (r, n, y, v, p ∙ fault_address_lem (hpfar_of s) (far_of s) (load64-lt s.ctx Ro.exit_hpfar is))

  -- The guest is entered again without a word to the VMM only after an exit that is the library's own
  -- business, a synchronous one or a trapped register access.
  pub exit_from_ro_untold :
      (k : K) (s : VcpuSlot) (held : ℕ)
      → (exit_from_ro h m trap refresh e k s held).3 ≡ false
      → (is_internal (reason_of s)
          || (reason_of s == vmexit_sync || reason_of s == vmexit_msr_trap))
        ≡ true
  unfolding exit_from_ro
  exit_from_ro_untold k s held quiet =
      let (k1, s1) = exit_prelude h m trap refresh e k s (esr_of s) in
      let switched = exit_switch h m trap refresh e k1 s1 held (reason_of s) (esr_of s) in
      report_quiet switched.3 (reason_of s) (due_of k s) (esr_of s) (far_of s) (hpfar_of s)
        switched.1 (exit_switch-fits k1 s1 held (reason_of s) (esr_of s)) quiet

  interrupted :
      (k : K) (s : VcpuSlot) (held : ℕ)
      → (reason_of s == 3 || reason_of s == 4) ≡ true
      → (exit_from_ro h m trap refresh e k s held).1.ctx
        ≡ (physical_interrupt (exit_prelude h m trap refresh e k s (esr_of s)).1 (esr_of s)).0.ctx
  unfolding exit_from_ro
  interrupted k s held is =
      let (k1, s1) = exit_prelude h m trap refresh e k s (esr_of s) in
      let switched = exit_switch h m trap refresh e k1 s1 held (reason_of s) (esr_of s) in
      report-ctx switched.3 (esr_of s) (far_of s) (hpfar_of s) switched.1
      ∙ switched-ctx k1 s1 held (reason_of s) (esr_of s) is

  -- An exit that is told as the virtual timer's: as the pages stand after the sync of a guarded level,
  -- the timer was enabled, due and unmasked and its exit not masked; the exit sets the mask bit, so
  -- that the same expiry is not told again, and no other bit of that word, and it leaves the timer's
  -- control word, which is the guest's. The pages hold 32-bit cells when the exit comes.
  pub exit_from_ro-vtimer_due :
      (k : K) (s : VcpuSlot) (held j : ℕ)
      → IsCtx s.ctx
      → (exit_from_ro h m trap refresh e k s held).3 ≡ true
      → (exit_from_ro h m trap refresh e k s held).1.exit_reason ≡ exit_vtimer_activated
      → j < 64
      → let before = (exit_prelude h m trap refresh e k s (esr_of s)).1.ctx in
        let after = (exit_from_ro h m trap refresh e k s held).1.ctx in
        (bit_at (load64 before Rw.timer) 0 ≡ 0)
        × (load64 before (banked 18) ≡ 5)
        × (bit_at (load64 after Rw.timer) j
            ≡ (if j == 0 then 1 else bit_at (load64 before Rw.timer) j))
        × (load64 after (banked 18) ≡ 5)
  exit_from_ro-vtimer_due k s held j is told vtimer lt =
      let s1 = (exit_prelude h m trap refresh e k s (esr_of s)).1 in
      let named = (exit_from_ro-told k s held is told).1 in
      let reason = reason_of s in
      let which : ((reason == 3 || reason == 4) ≡ true) × (due_of k s ≡ true) =
        ground (arith, sym named ∙ vtimer) in
      let (clear, control, timer, kept) = masked_after s1 (esr_of s) j which.1 lt in
      let same = interrupted k s held which.0 in
      (
        clear,
        control,
        ap (λ (c : Ctx). bit_at (load64 c Rw.timer) j) same ∙ timer,
        ap (λ (c : Ctx). load64 c (banked 18)) same ∙ kept,
      )
