-- ===== src/Vcpu/Sysreg/Laws/Loading.antt =====
-- Loading the identification registers of a vCPU.
use open_hypervisor.Base.{
  ℕ, zero, suc, ◌+◌, ◌≡◌, inl, inr, refl, ◌∙◌, true, false, arith, Bool-cases,
}
use open_hypervisor.Context.{Ctx, update}
use open_hypervisor.Host.{Host, owned_vcpu, find_vcpu}
use open_hypervisor.Vm.Kernel.{Trap}
use open_hypervisor.Vm.Lifecycle.{machine_ipa_bits}
use open_hypervisor.Vcpu.Slot.{VcpuSlot}
use open_hypervisor.Caps.Block.{Capabilities}
use open_hypervisor.Caps.Registers.{ohv_id_reg_for, ohv_caps_field}
use open_hypervisor.Vcpu.Sysreg.{load_loop, static_caps, load_id_regs}

-- Two hosts with the same vCPUs and the same bound one.
unfoldable pub SameVcpus : Host → Host → Type 0
SameVcpus h h' = (h'.vcpus ≡ h.vcpus) × (h'.current ≡ h.current)

pub owned_vcpu-SameVcpus :
    (h h' : Host) (id : ℕ) → SameVcpus h h' → owned_vcpu h' id ≡ owned_vcpu h id
unfolding SameVcpus owned_vcpu find_vcpu
owned_vcpu-SameVcpus h h' id (same, bound) = rw same (rw bound refl)

module _ {K : Type 0} (trap : Trap K) (block : K → Capabilities) (refresh : K → Ctx → Ctx) where
  machine_ipa_bits-SameVcpus : (h : Host) (k : K) → SameVcpus h (machine_ipa_bits trap h k).0
  unfolding machine_ipa_bits SameVcpus
  machine_ipa_bits-SameVcpus h k = ground arith

  id_reg_for-SameVcpus :
      (h : Host) (k : K) (c : Capabilities) (which : ℕ)
      → SameVcpus h (ohv_id_reg_for trap h k c which false).0
  unfolding ohv_id_reg_for SameVcpus
  id_reg_for-SameVcpus h k c which = ground (arith, machine_ipa_bits-SameVcpus h k)

  load_loop-SameVcpus :
      (left i : ℕ) (c : Capabilities) (h : Host) (k : K) (regs : ℕ → ℕ)
      → SameVcpus h (load_loop trap block refresh left i c h k regs).0
  unfolding load_loop SameVcpus
  load_loop-SameVcpus zero i c h k regs = (refl, refl)
  load_loop-SameVcpus (suc left) i c h k regs =
      let (h1, k1, v) = ohv_id_reg_for trap h k c i false in
      let here = id_reg_for-SameVcpus h k c i in
      let rest = load_loop-SameVcpus left (i + 1) c h1 k1 (update regs i v) in
      (rest.0 ∙ here.0, rest.1 ∙ here.1)

  static_caps-SameVcpus : (h : Host) (k : K) → SameVcpus h (static_caps trap block refresh h k).0
  unfolding static_caps SameVcpus
  static_caps-SameVcpus h k = ground arith

  pub load_id_regs-SameVcpus :
      (h : Host) (k : K) (s : VcpuSlot) → SameVcpus h (load_id_regs trap block refresh h k s).0
  unfolding load_id_regs SameVcpus ohv_caps_field
  load_id_regs-SameVcpus h k s =
      let (h1, k1, c) = static_caps trap block refresh h k in
      let first = static_caps-SameVcpus h k in
      let rest = load_loop-SameVcpus 18 0 c h1 k1 s.id_regs in
      elim (Bool-cases s.id_regs_loaded) [
        | inl e ↦ rw e (refl, refl)
        | inr e ↦ rw e (rest.0 ∙ first.0, rest.1 ∙ first.1)
      ]

  -- Loading the identification registers leaves the rest of the slot, and a second time nothing.
  pub load_id_regs-rest :
      (h : Host) (k : K) (s : VcpuSlot)
      → let (_, _, s1) = load_id_regs trap block refresh h k s in
        (record s1 { id_regs = s.id_regs; id_regs_loaded = s.id_regs_loaded } ≡ s)
        × (s1.id_regs_loaded ≡ true)
  unfolding load_id_regs
  load_id_regs-rest h k s = ground arith

  pub load_id_regs-loaded :
      (h : Host) (k : K) (s : VcpuSlot)
      → s.id_regs_loaded ≡ true
      → load_id_regs trap block refresh h k s ≡ (h, k, s)
  unfolding load_id_regs
  load_id_regs-loaded h k s loaded = ground arith
