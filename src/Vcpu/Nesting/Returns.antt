-- ===== src/Vcpu/Nesting/Returns.antt =====
-- Exception returns of a guest hypervisor: which are left to the hardware, and what a completed one
-- resumes (the cases of `exit_from_ro`, src/ohv_vcpu.cpp).
use open_hypervisor.Base.{
  ℕ, ◌+◌, ◌/◌, ◌%◌, ◌^◌, ◌≡◌, ◌<◌, ◌⊎◌, refl, ap, ◌∙◌, Bool, true, false, bit_and, arith,
  if◌then◌else◌,
}
use open_hypervisor.Context.{Ctx, IsCtx, load32, load64, store64}
use open_hypervisor.Context.Rw
use open_hypervisor.Context.Laws.{load32-lt, load64-store32_apart, load32-store32}
use open_hypervisor.Vm.Kernel.{Trap, vcpu_sysregs_sync}
use open_hypervisor.Vcpu.Slot.{VcpuSlot}
use open_hypervisor.Vcpu.Environment.{Environment}
use open_hypervisor.Vcpu.Emulation.Transfer.{load64-store64_wrapped}
use open_hypervisor.Vcpu.Nesting.Laws.{nv_bit, nv_off-Apart, nv_off_lem, nv_off_flag, nv_off-cpsr}
use open_hypervisor.Vcpu.Nesting.{
  elr_el1, spsr_el1, spsr_gl1, mode_of, is_guarded, nv_off, enter_guest_el2, put_return,
  complete_return, synced, soft_return, trapped_eret, level_change,
}
use open_hypervisor.Vcpu.Nesting.Entry.{enter-elr, enter-spsr}

-- A return to EL1.
abbrev lowered : VcpuSlot → ℕ → VcpuSlot
lowered s spsr = nv_off (record (put_return s (load64 s.ctx elr_el1) spsr) { guest_at_el2 = false })

lowered-pc :
    (s : VcpuSlot) (spsr : ℕ) → load64 (lowered s spsr).ctx Rw.pc ≡ load64 s.ctx elr_el1 % 2 ^ 64
unfolding put_return
lowered-pc s spsr =
    let elr = load64 s.ctx elr_el1 in
    let c = store64 s.ctx Rw.pc elr in
    nv_off-Apart (record (put_return s elr spsr) { guest_at_el2 = false }) Rw.pc (omega arith)
      (omega arith)
    ∙ load64-store32_apart c Rw.cpsr Rw.pc spsr (omega arith)
    ∙ load64-store64_wrapped s.ctx Rw.pc elr

lowered-cpsr :
    (s : VcpuSlot) (spsr : ℕ) → spsr < 2 ^ 32 → load32 (lowered s spsr).ctx Rw.cpsr ≡ spsr
unfolding put_return
lowered-cpsr s spsr lt =
    let elr = load64 s.ctx elr_el1 in
    nv_off-cpsr (record (put_return s elr spsr) { guest_at_el2 = false })
    ∙ load32-store32 (store64 s.ctx Rw.pc elr) Rw.cpsr spsr lt

complete-lowered :
    (s : VcpuSlot)
    → (mode_of (load64 s.ctx spsr_el1) ≡ 4) ⊎ (mode_of (load64 s.ctx spsr_el1) ≡ 5)
    → complete_return s ≡ lowered s (load64 s.ctx spsr_el1)
unfolding complete_return
complete-lowered s mode = ground (arith, mode)

-- What a return of the hypervisor resumes: the program counter and the state of `s`, at EL1.
abbrev pub IsResumed : VcpuSlot → ℕ → VcpuSlot → Type 0
IsResumed s pc t =
    load64 t.ctx Rw.pc ≡ pc % 2 ^ 64
    × load32 t.ctx Rw.cpsr ≡ load32 s.ctx Rw.cpsr
    × nv_bit t ≡ 0
    × t.guest_at_el2 ≡ false

-- The pages hold the return pair of `s` and `pc`.
abbrev HasPair : VcpuSlot → ℕ → Ctx → Type 0
HasPair s pc c = load64 c elr_el1 ≡ pc % 2 ^ 64 × load64 c spsr_el1 ≡ load32 s.ctx Rw.cpsr

-- The saved state names EL1.
abbrev pub IsLower : VcpuSlot → Type 0
IsLower s = (mode_of (load32 s.ctx Rw.cpsr) ≡ 4) ⊎ (mode_of (load32 s.ctx Rw.cpsr) ≡ 5)

complete-IsResumed :
    (s t : VcpuSlot) (pc : ℕ)
    → IsCtx s.ctx
    → IsLower s
    → HasPair s pc t.ctx
    → IsResumed s pc (complete_return t)
complete-IsResumed s t pc is lower (at_elr, at_spsr) =
    let spsr = load64 t.ctx spsr_el1 in
    let small : spsr < 2 ^ 32 = rw (at_spsr) (load32-lt s.ctx Rw.cpsr is) in
    let returned : VcpuSlot = record (put_return t (load64 t.ctx elr_el1) spsr) {
      guest_at_el2 = false;
    } in
    rw (complete-lowered t (rw (at_spsr) lower)) (
      lowered-pc t spsr ∙ ap (λ (v : ℕ). v % 2 ^ 64) at_elr ∙ omega arith,
      lowered-cpsr t spsr small ∙ at_spsr,
      nv_off_lem returned,
      nv_off_flag returned,
    )

either :
    {K : Type 0} (s : VcpuSlot) (pc : ℕ) (b : Bool) (x y : K × VcpuSlot × Bool)
    → IsResumed s pc x.1 × x.2 ≡ true
    → IsResumed s pc y.1 × y.2 ≡ true
    → IsResumed s pc (if b then x else y).1 × (if b then x else y).2 ≡ true
either s pc true x y p q = p
either s pc false x y p q = q

module _ {K : Type 0} (trap : Trap K) (refresh : K → Ctx → Ctx)
    (elr_kept : (k : K) (c : Ctx) → load64 (refresh k c) elr_el1 ≡ load64 c elr_el1)
    (spsr_kept : (k : K) (c : Ctx) → load64 (refresh k c) spsr_el1 ≡ load64 c spsr_el1)
    (unguarded : (k : K) (c : Ctx) → is_guarded (load64 (refresh k c) spsr_gl1) ≡ false) where
  module _ (e : Environment) (emulated : e.no_eret_emulation ≡ false) (s : VcpuSlot) (pc : ℕ)
      (is : IsCtx s.ctx) (lower : IsLower s) where
    completed :
        (k : K) (t : VcpuSlot)
        → t.guest_at_el2 ≡ true
        → soft_return trap refresh e k t
          ≡ ((synced trap refresh k t).0, complete_return (synced trap refresh k t).1, true)
    unfolding soft_return synced
    completed k t upper = simp (upper, unguarded (trap vcpu_sysregs_sync k).1 t.ctx, emulated)

    soft_return-IsResumed :
        (k : K) (t : VcpuSlot)
        → t.guest_at_el2 ≡ true
        → HasPair s pc t.ctx
        → IsResumed s pc (soft_return trap refresh e k t).1
          × (soft_return trap refresh e k t).2 ≡ true
    unfolding synced
    soft_return-IsResumed k t upper (at_elr, at_spsr) =
        let k1 = (trap vcpu_sysregs_sync k).1 in
        let t1 : VcpuSlot = record t { ctx = refresh k1 t.ctx } in
        rw (completed k t upper) (
          complete-IsResumed s t1 pc is lower
              (elr_kept k1 t.ctx ∙ at_elr, spsr_kept k1 t.ctx ∙ at_spsr),
          refl,
        )

    passed_on :
        (k : K) (t : VcpuSlot)
        → trapped_eret trap refresh e k t ≡ (
            if e.no_hw_geret
            then soft_return trap refresh e k t
            else soft_return trap refresh e (synced trap refresh k t).0 (synced trap refresh k t).1)
    unfolding trapped_eret synced
    passed_on k t = simp (unguarded (trap vcpu_sysregs_sync k).1 t.ctx)

    trapped_eret-IsResumed :
        (k : K) (t : VcpuSlot)
        → t.guest_at_el2 ≡ true
        → HasPair s pc t.ctx
        → IsResumed s pc (trapped_eret trap refresh e k t).1
          × (trapped_eret trap refresh e k t).2 ≡ true
    unfolding synced
    trapped_eret-IsResumed k t upper (at_elr, at_spsr) =
        let k1 = (trap vcpu_sysregs_sync k).1 in
        let t1 : VcpuSlot = record t { ctx = refresh k1 t.ctx } in
        let pair : HasPair s pc t1.ctx =
          (elr_kept k1 t.ctx ∙ at_elr, spsr_kept k1 t.ctx ∙ at_spsr) in
        rw (passed_on k t) (
          either s pc e.no_hw_geret (soft_return trap refresh e k t)
            (soft_return trap refresh e k1 t1) (soft_return-IsResumed k t upper (at_elr, at_spsr))
            (soft_return-IsResumed k1 t1 upper pair))

  entered :
      (e : Environment) (k : K) (s : VcpuSlot) (call : ℕ)
      → e.no_el2_injection ≡ false
      → s.guest_at_el2 ≡ false
      → bit_and (call / 2 ^ 26) 0x3f ≡ 0x16
      → level_change trap refresh e k s call
        ≡ (k, enter_guest_el2 s call (load64 s.ctx Rw.pc + 4), true)
  unfolding level_change
  entered e k s call injected lower class = rw (class, injected, lower) refl

  left :
      (e : Environment) (k : K) (s : VcpuSlot) (ret : ℕ)
      → bit_and (ret / 2 ^ 26) 0x3f ≡ 0x1a
      → bit_and ret 1 ≡ 0
      → level_change trap refresh e k s ret ≡ trapped_eret trap refresh e k s
  unfolding level_change
  left e k s ret class plain = rw (class, plain) refl

  entered_flag : (s : VcpuSlot) (esr pc : ℕ) → (enter_guest_el2 s esr pc).guest_at_el2 ≡ true
  unfolding enter_guest_el2
  entered_flag s esr pc = refl

  -- An HVC of the guest that a guest hypervisor hosts enters the hypervisor; an exception return
  -- that the hypervisor then makes, with its return pair as it found it, goes on with the guest
  -- four bytes past the PC that the exit left, in the state that it had and at its EL1, with
  -- HCR_EL2.NV off. The guest was at EL1, neither path is switched off, the return is not an ERETAA
  -- or ERETAB, and the kernel's syncs keep the return pair and show no guarded return.
  pub level_change-IsResumed :
      (e : Environment) (k : K) (s : VcpuSlot) (call ret : ℕ)
      → IsCtx s.ctx
      → IsLower s
      → s.guest_at_el2 ≡ false
      → e.no_el2_injection ≡ false
      → e.no_eret_emulation ≡ false
      → bit_and (call / 2 ^ 26) 0x3f ≡ 0x16
      → bit_and (ret / 2 ^ 26) 0x3f ≡ 0x1a
      → bit_and ret 1 ≡ 0
      → let (k1, s1, _) = level_change trap refresh e k s call in
        let (_, s2, running) = level_change trap refresh e k1 s1 ret in
        IsResumed s (load64 s.ctx Rw.pc + 4) s2 × running ≡ true
  level_change-IsResumed e k s call ret is lower low injected emulated is_call is_ret plain =
      let pc = load64 s.ctx Rw.pc + 4 in
      let t = enter_guest_el2 s call pc in
      rw (entered e k s call injected low is_call, left e k t ret is_ret plain)
        (trapped_eret-IsResumed e emulated s pc is lower k t (entered_flag s call pc)
          (enter-elr s call pc, enter-spsr s call pc is))
