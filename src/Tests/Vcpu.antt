-- ===== src/Tests/Vcpu.antt =====
-- Runs of the vCPU's calls.
use open_hypervisor.Base.{
  ℕ, ◌/◌, ◌%◌, ◌^◌, ◌≤◌, ◌<◌, ◌≡◌, ◌≢◌, ◌⊎◌, refl, true, false, ◌||◌, none, some, [], ◌∷◌, arith,
  leb, ◌==◌, if◌then◌else◌,
}
use open_hypervisor.Base.Bits.{bit_at}
use open_hypervisor.Context.{load32, load64, store32, update}
use open_hypervisor.Context.Rw
use open_hypervisor.Hv.{ok}
use open_hypervisor.Host.{Host, find_vcpu, owned_vcpu, max_vcpu_ids}
use open_hypervisor.Tests.Fixtures.{slot, vm_host, running, granting, fresh_pages}
use open_hypervisor.Vm.Kernel.{vcpu_run_cancel}
use open_hypervisor.Vcpu.Slot.{VcpuSlot, fresh_slot}
use open_hypervisor.Vcpu.Environment.{default_environment}
use open_hypervisor.Vcpu.Interrupts.{
  irq, hv_vcpu_get_pending_interrupt, hv_vcpu_set_pending_interrupt, ohv_vcpu_set_parked,
  ohv_timer_gate_mode,
}
use open_hypervisor.Vcpu.Interrupts.Gate.{well_gated}
use open_hypervisor.Vcpu.Interrupts.Pending.{get_pending-parked}
use open_hypervisor.Vcpu.Timers.{ohv_expire_timers}
use open_hypervisor.Vcpu.Timers.Laws.{expire_timers-gated}
use open_hypervisor.Vcpu.Registers.{
  hv_vcpu_get_reg, hv_vcpu_set_reg, write_reg, read_reg, guest_pstate,
}
use open_hypervisor.Vcpu.Registers.Laws.{get_reg-set, set_reg-cpsr_level}
use open_hypervisor.Vcpu.Lifecycle.{hv_vcpu_create, hv_vcpus_exit, first_unused, joined_space}
use open_hypervisor.Vcpu.Lifecycle.Laws.{hv_vcpu_create_granted, hv_vcpus_exit_latches}

-- A guest in the kernel with a monitor below it and both masks set, so that the gate is shut.
abbrev masked : VcpuSlot
masked = record slot { sptm_base = 0xfffffff000000000; ctx = λ i. if i == 68 then 0xc0 else 0 }

masked-IsCtx : (i : ℕ) → masked.ctx i < 2 ^ 32
masked-IsCtx i = ground arith

abbrev masked_host : Host
masked_host = record running { vcpus = λ i. if i == 0 then masked else fresh_slot }

expire_timers-gated_example :
    let s' = (ohv_expire_timers default_environment 100 masked 0 []).0 in
    (well_gated s' ≡ true)
    × ((0 < s'.sptm_base)
        ⊎ ((masked.sptm_base ≡ 0)
            × (masked.run_count ≡ 0)
            × (load64 masked.ctx Rw.pc < 0xfffffff000000000)))
    × ((s'.sptm_base ≤ load64 masked.ctx Rw.pc) ⊎ (load64 masked.ctx Rw.pc < 0xfffffff000000000))
unfolding ohv_timer_gate_mode
expire_timers-gated_example =
    expire_timers-gated default_environment 100 masked 0 [] refl masked-IsCtx

get_pending-parked_example :
    hv_vcpu_get_pending_interrupt
      (ohv_vcpu_set_parked default_environment
        (hv_vcpu_set_pending_interrupt default_environment masked_host 0 irq true).0
        0
        true)
      0
      irq
      true
    ≡ ok true
unfolding owned_vcpu find_vcpu
get_pending-parked_example =
    get_pending-parked default_environment masked_host 0 irq masked refl masked-IsCtx

get_reg-set_example : hv_vcpu_get_reg (hv_vcpu_set_reg running 0 31 0x4000).0 0 31 true ≡ ok 0x4000
unfolding hv_vcpu_set_reg owned_vcpu find_vcpu write_reg
get_reg-set_example = get_reg-set running 0 0 31 31 0x4000 (omega arith)

set_reg-cpsr_level_example :
    (0x3c5 % 16 ≢ 8) × (0x3c5 % 16 ≢ 9) × (0x3c5 / 16 ≡ 0x3c9 % 2 ^ 32 / 16)
unfolding hv_vcpu_set_reg hv_vcpu_get_reg owned_vcpu find_vcpu write_reg read_reg guest_pstate
    load32 store32 update
set_reg-cpsr_level_example = set_reg-cpsr_level running 0 0x3c9 0x3c5 refl (omega arith) refl refl

hv_vcpu_create_granted_example :
    let h' = (hv_vcpu_create granting fresh_pages default_environment vm_host [] true).0 in
    (vm_host.vm_alive ≡ true)
    × (vm_host.current ≡ none)
    × (0 < max_vcpu_ids)
    × ((vm_host.vcpus 0).used ≡ false)
    × ((leb 0 3 || (vm_host.vcpus 3).used) ≡ true)
    × (h'.current ≡ some 0)
    × ((h'.vcpus 0).used ≡ true)
    × ((h'.vcpus 0).id ≡ 0)
    × ((h'.vcpus 0).guest_at_el2 ≡ true)
    × ((h'.vcpus 0).run_count ≡ 0)
    × (h'.vcpus 3 ≡ fresh_slot)
unfolding hv_vcpu_create first_unused load64 joined_space
hv_vcpu_create_granted_example =
    hv_vcpu_create_granted granting fresh_pages default_environment vm_host [] true 0 3 refl

hv_vcpus_exit_latches_example :
    let (h', k', r) = hv_vcpus_exit granting fresh_pages running [] (some (0 ∷ 2 ∷ [])) in
    (mask : ℕ) × (bit_at mask 2 ≡ 1)
    × (k' ≡ vcpu_run_cancel mask ∷ [])
    × (h'.vcpus 2 ≡ record fresh_slot { exit_requested = true })
hv_vcpus_exit_latches_example =
    hv_vcpus_exit_latches granting fresh_pages running [] (0 ∷ 2 ∷ []) 2 refl
