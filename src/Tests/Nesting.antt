-- ===== src/Tests/Nesting.antt =====
-- Runs of the changes of level of a guest hypervisor.
use open_hypervisor.Base.{
  ℕ, ◌+◌, ◌*◌, ◌^◌, ◌≡◌, inr, refl, true, false, List, [], arith, ◌==◌, if◌then◌else◌,
}
use open_hypervisor.Context.{Ctx, IsCtx, load32, load64, store64}
use open_hypervisor.Context.Rw
use open_hypervisor.Context.Laws.{load64-store64, load64-store64-Apart, store64-IsCtx}
use open_hypervisor.Vm.Kernel.{Trap, Request, recording}
use open_hypervisor.Tests.Fixtures.{slot}
use open_hypervisor.Vcpu.Slot.{VcpuSlot, mark_slot_dirty}
use open_hypervisor.Vcpu.Environment.{default_environment}
use open_hypervisor.Vcpu.Nesting.{
  spsr_gl1, elr_el1, spsr_el1, spsr_illegal_reason, is_guarded, nv_off, hand_over, synced,
  trapped_eret, level_change,
}
use open_hypervisor.Vcpu.Nesting.Returns.{IsResumed, level_change-IsResumed}
use open_hypervisor.Vcpu.Nesting.Guarded.{IsHanded, level_change-IsHanded}

abbrev hvc : ℕ
hvc = 0x16 * 2 ^ 26

abbrev eret : ℕ
eret = 0x1a * 2 ^ 26

abbrev syncing : Trap (List Request)
syncing = recording (λ _. record { code = 0; word = 0 })

-- A sync that shows `v` in SPSR_GL1.
abbrev showing : ℕ → List Request → Ctx → Ctx
showing v _ c = store64 c spsr_gl1 v

-- A guest of the guest hypervisor, at EL1h.
abbrev hosted : VcpuSlot
hosted = record slot { guest_at_el2 = false; ctx = λ i. if i == 68 then 5 else 0 }

hosted-IsCtx : IsCtx hosted.ctx
hosted-IsCtx i = ground arith

unguarded : (k : List Request) (c : Ctx) → is_guarded (load64 (showing 0 k c) spsr_gl1) ≡ false
unfolding is_guarded
unguarded k c = rw (load64-store64 c spsr_gl1 0 (omega arith)) refl

level_change-IsResumed_example :
    let (k1, s1, _) = level_change syncing (showing 0) default_environment [] hosted hvc in
    let (_, s2, running) = level_change syncing (showing 0) default_environment k1 s1 eret in
    IsResumed hosted (load64 hosted.ctx Rw.pc + 4) s2 × running ≡ true
unfolding load32
level_change-IsResumed_example =
    level_change-IsResumed syncing (showing 0)
      (λ k c. load64-store64-Apart c spsr_gl1 elr_el1 0 (omega arith))
      (λ k c. load64-store64-Apart c spsr_gl1 spsr_el1 0 (omega arith)) unguarded
      default_environment [] hosted hvc eret hosted-IsCtx (inr refl) refl refl refl refl refl refl

level_change-IsHanded_example :
    IsHanded (level_change syncing (showing 0x3c0) default_environment [] hosted eret).1
unfolding level_change trapped_eret synced is_guarded spsr_illegal_reason load64 store64 hand_over
    nv_off mark_slot_dirty
level_change-IsHanded_example =
    level_change-IsHanded syncing (showing 0x3c0) (λ k c is. store64-IsCtx c spsr_gl1 0x3c0 is)
      default_environment [] hosted eret hosted-IsCtx refl refl
