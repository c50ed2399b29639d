-- ===== src/Vcpu/Registers.antt =====
-- The general and the vector registers of a vCPU (`hv_vcpu_get_reg` and its neighbours,
-- src/ohv_vcpu.cpp).
pub mod Laws
use open_hypervisor.Base.{
  ℕ, ◌-◌, ◌^◌, ◌%◌, ◌+◌, Bool, ◌&&◌, ◌||◌, bit_and, bit_or, ltb, ◌==◌, if◌then◌else◌,
}
use open_hypervisor.Context.{Ctx, load32, store32, load64, store64}
use open_hypervisor.Context.Rw
use open_hypervisor.Hv.{hv_success, hv_bad_argument, Result, ok, err}
use open_hypervisor.Host.{Host, with_owned, from_owned}

abbrev pub reg_fpcr : ℕ
reg_fpcr = 32

abbrev pub reg_fpsr : ℕ
reg_fpsr = 33

abbrev pub reg_cpsr : ℕ
reg_cpsr = 34

-- Where the default case of the two switches finds register `n`.
unfoldable pub reg_offset : ℕ → ℕ
reg_offset n =
    if n == 29 then Rw.fp else if n == 30 then Rw.lr else if n == 31 then Rw.pc else Rw.x n

-- The level that a guest hypervisor is written down at: EL2t and EL2h become EL1t and EL1h.
unfoldable pub guest_pstate : Bool → ℕ → ℕ
guest_pstate vm_el2 value =
    let pstate = value % 2 ^ 32 in
    let mode = bit_and pstate 0xf in
    if vm_el2 && (mode == 0x8 || mode == 0x9)
    then bit_or (bit_and pstate 0xfffffff0) (mode - 4)
    else pstate

unfoldable pub read_reg : Ctx → ℕ → Result ℕ
read_reg c reg =
    if reg == reg_cpsr
    then ok (load32 c Rw.cpsr)
    else if reg == reg_fpcr
    then ok (load32 c Rw.fpcr)
    else if reg == reg_fpsr
    then ok (load32 c Rw.fpsr)
    else if ltb 31 reg
    then err hv_bad_argument
    else ok (load64 c (reg_offset reg))

unfoldable pub write_reg : Bool → Ctx → ℕ → ℕ → Ctx × ℕ
write_reg vm_el2 c reg value =
    if reg == reg_cpsr
    then (store32 c Rw.cpsr (guest_pstate vm_el2 value), hv_success)
    else if reg == reg_fpcr
    then (store32 c Rw.fpcr value, hv_success)
    else if reg == reg_fpsr
    then (store32 c Rw.fpsr value, hv_success)
    else if ltb 31 reg
    then (c, hv_bad_argument)
    else (store64 c (reg_offset reg) value, hv_success)

unfoldable pub hv_vcpu_get_reg : Host → ℕ → ℕ → Bool → Result ℕ
hv_vcpu_get_reg h id reg out = from_owned h id out (λ s. read_reg s.ctx reg)

unfoldable pub hv_vcpu_set_reg : Host → ℕ → ℕ → ℕ → Host × ℕ
hv_vcpu_set_reg h id reg value =
    with_owned h id
      (λ s. let (c, r) = write_reg h.vm_el2 s.ctx reg value in (record s { ctx = c }, r))

-- The sixteen bytes of a vector register, as its lower and its upper eight.
unfoldable pub hv_vcpu_get_simd_fp_reg : Host → ℕ → ℕ → Bool → Result (ℕ × ℕ)
hv_vcpu_get_simd_fp_reg h id reg out = from_owned h id out (λ s.
    if ltb 31 reg
    then err hv_bad_argument
    else ok (load64 s.ctx (Rw.neon_q reg), load64 s.ctx (Rw.neon_q reg + 8)))

unfoldable pub hv_vcpu_set_simd_fp_reg : Host → ℕ → ℕ → ℕ → ℕ → Host × ℕ
hv_vcpu_set_simd_fp_reg h id reg lo hi = with_owned h id (λ s.
    if ltb 31 reg then (s, hv_bad_argument) else (
      record s { ctx = store64 (store64 s.ctx (Rw.neon_q reg) lo) (Rw.neon_q reg + 8) hi },
      hv_success,
    ))
