-- ===== src/Vcpu/Syndrome.antt =====
-- The syndrome that is built for a trapped system register access, and how one is taken apart
-- (`synth_msr_trap_syndrome`, and the head of `service_nv2_access`, src/ohv_vcpu.cpp).
pub mod Laws
use open_hypervisor.Base.{
  ℕ, ◌+◌, ◌*◌, ◌/◌, ◌%◌, ◌^◌, Bool, not, Option, none, some, bit_and, bit_or, ◌==◌, if◌then◌else◌,
}
use open_hypervisor.Context.{load64}
use open_hypervisor.Context.Rw
use open_hypervisor.Host.{Host}
use open_hypervisor.Vcpu.Slot.{VcpuSlot}
use open_hypervisor.Vm.Maps.{guest_ptr}

-- `(*insn & 0xffd00000u) == 0xd5100000u`.
abbrev pub is_msr : ℕ → Bool
is_msr i = bit_and i 0xffd00000 == 0xd5100000

-- The syndrome of the instruction word `i`.
unfoldable pub msr_syndrome : ℕ → ℕ
msr_syndrome i =
    let read = bit_and (i / 2 ^ 21) 1 in
    let op0 = 2 + bit_and (i / 2 ^ 19) 1 in
    let op1 = bit_and (i / 2 ^ 16) 7 in
    let crn = bit_and (i / 2 ^ 12) 0xf in
    let crm = bit_and (i / 2 ^ 8) 0xf in
    let op2 = bit_and (i / 2 ^ 5) 7 in
    let rt = bit_and i 0x1f in
    let e1 = bit_or (0x18 * 2 ^ 26) (2 ^ 25) in
    let e2 = bit_or e1 (op0 * 2 ^ 20) in
    let e3 = bit_or e2 (op2 * 2 ^ 17) in
    let e4 = bit_or e3 (op1 * 2 ^ 14) in
    let e5 = bit_or e4 (crn * 2 ^ 10) in
    let e6 = bit_or e5 (rt * 2 ^ 5) in let e7 = bit_or e6 (crm * 2 ^ 1) in bit_or e7 read

-- `memory` is the word at an address of this process; the result is the syndrome of the exit,
-- which was `syndrome`.
unfoldable pub synth_msr_trap_syndrome : (ℕ → ℕ) → Host → VcpuSlot → ℕ → ℕ
synth_msr_trap_syndrome memory h s syndrome = elim (guest_ptr h.maps (load64 s.ctx Rw.pc) 4) [
  | none ↦ syndrome
  | some p ↦
      if p == 0 then syndrome else if is_msr (memory p) then msr_syndrome (memory p) else syndrome
]

-- The register, the general register and the direction that a syndrome names.
pub record SysregAccess : Type 0 where
  pub enc : ℕ
  pub rt : ℕ
  pub read : Bool

unfoldable pub decode_access : ℕ → SysregAccess
decode_access esr =
    let op0 = bit_and (esr / 2 ^ 20) 3 in
    let op2 = bit_and (esr / 2 ^ 17) 7 in
    let op1 = bit_and (esr / 2 ^ 14) 7 in
    let crn = bit_and (esr / 2 ^ 10) 0xf in
    let crm = bit_and (esr / 2 ^ 1) 0xf in
    let e1 = bit_or (op0 * 2 ^ 14) (op1 * 2 ^ 11) in
    let e2 = bit_or e1 (crn * 2 ^ 7) in
    let e3 = bit_or e2 (crm * 2 ^ 3) in
    record { enc = bit_or e3 op2; rt = bit_and (esr / 2 ^ 5) 0x1f; read = not (bit_and esr 1 == 0) }
