-- ===== src/Vcpu/Registers/Laws.antt =====
-- What a register reads after a write, and the level that is written down for a guest hypervisor.
use open_hypervisor.Base.{
  ℕ, ◌+◌, ◌-◌, ◌*◌, ◌/◌, ◌%◌, ◌^◌, ◌<◌, ◌≡◌, ◌≢◌, Bool, true, ◌&&◌, ◌||◌, arith, bit_and, ltb, ◌==◌,
  if◌then◌else◌, Option-cases, inl, inr, Bool-cases,
}
use open_hypervisor.Base.Bits.{bit_and_low, bit_and_shifted, bit_or_disjoint}
use open_hypervisor.Context.{Ctx, load32, store32, load64, store64}
use open_hypervisor.Context.Rw
use open_hypervisor.Hv.{hv_success, ok}
use open_hypervisor.Host.{Host, owned_vcpu}
use open_hypervisor.Host.Laws.{owned_vcpu_found, owned_vcpu-put_slot}
use open_hypervisor.Vcpu.Registers.{
  reg_cpsr, reg_offset, guest_pstate, read_reg, write_reg, hv_vcpu_get_reg, hv_vcpu_set_reg,
  hv_vcpu_get_simd_fp_reg, hv_vcpu_set_simd_fp_reg,
}

-- The two bit operations subtract four from the level.
guest_pstate_lem :
    (vm_el2 : Bool) (value : ℕ)
    → guest_pstate vm_el2 value ≡ (
        if vm_el2 && (value % 16 == 8 || value % 16 == 9)
        then value % 2 ^ 32 - 4
        else value % 2 ^ 32)
unfolding guest_pstate
guest_pstate_lem vm_el2 value =
    let p = value % 2 ^ 32 in
    let high : bit_and p 0xfffffff0 ≡ p / 2 ^ 4 * 2 ^ 4 =
      omega (arith, bit_and_shifted 4 p 0xfffffff, bit_and_low 28 (p / 2 ^ 4)) in
    ground (arith, high, bit_and_low 4 p, bit_or_disjoint 4 (p / 2 ^ 4) (bit_and p 0xf - 4))

guest_pstate-lt : (vm_el2 : Bool) (value : ℕ) → guest_pstate vm_el2 value < 2 ^ 32
guest_pstate-lt vm_el2 value = ground (arith, guest_pstate_lem vm_el2 value)

-- What a register holds after `value` was written to it.
abbrev pub written : Bool → ℕ → ℕ → ℕ
written vm_el2 reg value =
    if reg == reg_cpsr
    then guest_pstate vm_el2 value
    else if ltb 31 reg
    then value % 2 ^ 32
    else value

read-write_reg :
    (vm_el2 : Bool) (c : Ctx) (reg reg' value : ℕ)
    → value < 2 ^ 64
    → read_reg (write_reg vm_el2 c reg value).0 reg' ≡ (
        if (write_reg vm_el2 c reg value).1 == hv_success && reg == reg'
        then ok (written vm_el2 reg value)
        else read_reg c reg')
unfolding read_reg write_reg reg_offset load32 store32 load64 store64
read-write_reg vm_el2 c reg reg' value lt = ground (arith, guest_pstate-lt vm_el2 value)

-- The registers of a vCPU are its own: a successful write is what that register of that vCPU reads
-- from then on (the flags and the floating point words cut to 32 bits, and the level lowered for a
-- guest hypervisor), and no write changes another register or another vCPU's, nor does one that is
-- refused change anything.
pub get_reg-set :
    (h : Host) (id id' reg reg' value : ℕ)
    → value < 2 ^ 64
    → let (h', r) = hv_vcpu_set_reg h id reg value in
      hv_vcpu_get_reg h' id' reg' true ≡ (
        if r == hv_success && (id == id' && reg == reg')
        then ok (written h.vm_el2 reg value)
        else hv_vcpu_get_reg h id' reg' true)
unfolding hv_vcpu_get_reg hv_vcpu_set_reg
get_reg-set h id id' reg reg' value lt = elim (Option-cases (owned_vcpu h id)) [
  | inl e ↦ ground arith
  | inr (s, e) ↦
      let c = (write_reg h.vm_el2 s.ctx reg value).0 in
      ground (
        arith,
        owned_vcpu_found h id s e,
        owned_vcpu-put_slot h id id' s (record s { ctx = c }) e,
        read-write_reg h.vm_el2 s.ctx reg reg' value lt,
      )
]

-- In a virtual machine with EL2, the flags that are written for the guest never say EL2, whatever
-- the caller asks for; all but the level is as the caller gave it.
pub set_reg-cpsr_level :
    (h : Host) (id value v : ℕ)
    → h.vm_el2 ≡ true
    → value < 2 ^ 64
    → (hv_vcpu_set_reg h id reg_cpsr value).1 ≡ hv_success
    → hv_vcpu_get_reg (hv_vcpu_set_reg h id reg_cpsr value).0 id reg_cpsr true ≡ ok v
    → (v % 16 ≢ 8) × (v % 16 ≢ 9) × (v / 16 ≡ value % 2 ^ 32 / 16)
set_reg-cpsr_level h id value v el2 lt done reads =
    ground (arith, get_reg-set h id id reg_cpsr reg_cpsr value lt, guest_pstate_lem h.vm_el2 value)

-- The vector registers are apart from each other and keep all sixteen bytes.
pub get_simd_fp_reg-set :
    (h : Host) (id id' reg reg' lo hi : ℕ)
    → lo < 2 ^ 64
    → hi < 2 ^ 64
    → let (h', r) = hv_vcpu_set_simd_fp_reg h id reg lo hi in
      hv_vcpu_get_simd_fp_reg h' id' reg' true ≡ (
        if r == hv_success && (id == id' && reg == reg')
        then ok (lo, hi)
        else hv_vcpu_get_simd_fp_reg h id' reg' true)
unfolding hv_vcpu_get_simd_fp_reg hv_vcpu_set_simd_fp_reg load64 store64
get_simd_fp_reg-set h id id' reg reg' lo hi llo lhi = elim (Option-cases (owned_vcpu h id)) [
  | inl e ↦ ground arith
  | inr (s, e) ↦
      let c = store64 (store64 s.ctx (Rw.neon_q reg) lo) (Rw.neon_q reg + 8) hi in
      elim (Bool-cases (ltb 31 reg)) [
        | inl big ↦ ground (arith, owned_vcpu_found h id s e, owned_vcpu-put_slot h id id' s s e)
        | inr small ↦ ground (
          arith,
          owned_vcpu_found h id s e,
          owned_vcpu-put_slot h id id' s (record s { ctx = c }) e,
        )
      ]
]
