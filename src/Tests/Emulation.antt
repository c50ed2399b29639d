-- ===== src/Tests/Emulation.antt =====
-- Runs of the system register accesses that are carried out for the guest.
use open_hypervisor.Base.{ℕ, ◌+◌, ◌*◌, ◌^◌, ◌≡◌, refl, [], ◌∷◌, arith, ◌==◌, if◌then◌else◌}
use open_hypervisor.Context.{IsCtx, load64}
use open_hypervisor.Context.Rw
use open_hypervisor.Tests.Fixtures.{slot, one_map}
use open_hypervisor.Vcpu.Slot.{VcpuSlot}
use open_hypervisor.Vcpu.Environment.{default_environment}
use open_hypervisor.Vcpu.Syndrome.{decode_access}
use open_hypervisor.Caps.Block.{zero_capabilities}
use open_hypervisor.Vcpu.Emulation.Dispatch.{
  operands_of, target_of, machine_target, slot_target, is_gic_interface_reg, gl2,
}
use open_hypervisor.Vcpu.Emulation.Transfer.{source_of}
use open_hypervisor.Vcpu.Emulation.Service.{Surroundings, serve, service_nv2_access}
use open_hypervisor.Vcpu.Emulation.Laws.{service-pc}
use open_hypervisor.Vcpu.Emulation.Laws.Registers.{service_kept}

-- The syndrome of an access.
abbrev syndrome : (op0 op1 crn crm op2 rt read : ℕ) → ℕ
syndrome op0 op1 crn crm op2 rt read =
    op0 * 2 ^ 20 + op2 * 2 ^ 17 + op1 * 2 ^ 14 + crn * 2 ^ 10 + rt * 2 ^ 5 + crm * 2 + read

abbrev host_memory : ℕ → ℕ
host_memory a = if a == 0x10008 then 0x8003 else 0

abbrev surroundings : Surroundings
surroundings = record {
  now = 100;
  cntfrq = 24000000;
  caps = zero_capabilities;
  memory = host_memory;
  maps = one_map ∷ [];
}

-- X2 holds 7.
abbrev working : VcpuSlot
working = record slot { ctx = λ i. if i == 6 then 7 else 0 }

working-IsCtx : IsCtx working.ctx
working-IsCtx i = ground arith

-- `MSR S3_6_C15_C11_1, X2` and `MRS X3, S3_6_C15_C11_1`.
abbrev bank_write : ℕ
bank_write = syndrome 3 6 15 11 1 2 0

abbrev bank_read : ℕ
bank_read = syndrome 3 6 15 11 1 3 1

service-pc_example :
    load64 (service_nv2_access default_environment surroundings working 0 bank_write).slot.ctx Rw.pc
    ≡ 4
unfolding service_nv2_access serve operands_of target_of machine_target slot_target
    is_gic_interface_reg load64
service-pc_example = service-pc default_environment surroundings working 0 bank_write

service_kept_example :
    let out = service_nv2_access default_environment surroundings working 0 bank_write in
    load64
      (service_nv2_access default_environment surroundings out.slot out.held bank_read).slot.ctx
      (Rw.x 3)
    ≡ 7
unfolding service_nv2_access serve operands_of target_of machine_target slot_target
    is_gic_interface_reg source_of load64 decode_access
service_kept_example =
    service_kept default_environment surroundings working 0 bank_write bank_read (gl2 1)
      working-IsCtx refl refl refl refl refl refl (omega arith) refl

-- A guest with translation on whose X1 holds 0x1234; `AT S1E1R, X1`.
abbrev asking : VcpuSlot
asking = record slot {
  ctx = λ i.
      if i == 262
      then 1
      else if i == 242
      then 43
      else if i == 238
      then 0x4000
      else if i == 4
      then 0x1234
      else 0;
}

abbrev at_s1e1r : ℕ
at_s1e1r = syndrome 1 0 7 8 0 1 0
