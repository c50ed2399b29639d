-- ===== src/Caps/Queries.antt =====
-- The vCPU configuration and the calls that report what the machine has
-- (src/ohv_misc.cpp, `ohv_caps_cached` of src/ohv_caps_field.cpp).
pub mod Laws
use open_hypervisor.Base.{ℕ, Bool, true, false, not, Option, none, some, ltb, ◌==◌, if◌then◌else◌}
use open_hypervisor.Hv.{hv_success, hv_error, hv_bad_argument, Result, ok, err}
use open_hypervisor.Host.{Host}
use open_hypervisor.Vm.Kernel.{Trap, capabilities}
use open_hypervisor.Caps.Block.{Capabilities, zero_capabilities}
use open_hypervisor.Caps.Registers.{ohv_id_reg_for}

-- `hv_vcpu_config_s`, without the fields that nothing reads.
pub record VcpuConfig : Type 0 where
  pub fgt_enabled : Bool
  pub tlbi_workaround : Bool
  pub vmkey : ℕ

-- `allocated` is the answer of the object allocator, whose memory is zero.
unfoldable pub hv_vcpu_config_create : Bool → Option VcpuConfig
hv_vcpu_config_create allocated =
    if allocated
    then some (record { fgt_enabled = false; tlbi_workaround = false; vmkey = 0 })
    else none

unfoldable pub hv_vcpu_config_get_vmkey : Option VcpuConfig → Bool → Result ℕ
hv_vcpu_config_get_vmkey none out = err hv_bad_argument
hv_vcpu_config_get_vmkey (some c) out = if out then ok c.vmkey else err hv_bad_argument

unfoldable pub hv_vcpu_config_set_vmkey : Option VcpuConfig → ℕ → Option VcpuConfig × ℕ
hv_vcpu_config_set_vmkey none v = (none, hv_bad_argument)
hv_vcpu_config_set_vmkey (some c) v = (some (record c { vmkey = v }), hv_success)

unfoldable pub hv_vcpu_config_get_fgt_enabled : Option VcpuConfig → Bool → Result Bool
hv_vcpu_config_get_fgt_enabled none out = err hv_bad_argument
hv_vcpu_config_get_fgt_enabled (some c) out = if out then ok c.fgt_enabled else err hv_bad_argument

unfoldable pub hv_vcpu_config_set_fgt_enabled : Option VcpuConfig → Bool → Option VcpuConfig × ℕ
hv_vcpu_config_set_fgt_enabled none v = (none, hv_bad_argument)
hv_vcpu_config_set_fgt_enabled (some c) v = (some (record c { fgt_enabled = v }), hv_success)

unfoldable pub hv_vcpu_config_get_tlbi_workaround_enabled : Option VcpuConfig → Bool → Result Bool
hv_vcpu_config_get_tlbi_workaround_enabled none out = err hv_bad_argument
hv_vcpu_config_get_tlbi_workaround_enabled (some c) out =
    if out then ok c.tlbi_workaround else err hv_bad_argument

unfoldable pub hv_vcpu_config_set_tlbi_workaround_enabled :
    Option VcpuConfig → Bool → Option VcpuConfig × ℕ
hv_vcpu_config_set_tlbi_workaround_enabled none v = (none, hv_bad_argument)
hv_vcpu_config_set_tlbi_workaround_enabled (some c) v =
    (some (record c { tlbi_workaround = v }), hv_success)

abbrev pub cap_vcpumax : ℕ
cap_vcpumax = 0

abbrev pub cap_addrspacemax : ℕ
cap_addrspacemax = 1

abbrev pub cache_type_instruction : ℕ
cache_type_instruction = 1

-- `block` is what the kernel writes when it grants the request for the capabilities.
module _ {K : Type 0} (trap : Trap K) (block : K → Capabilities) where
  unfoldable pub ohv_caps_cached : Host → K → Host × K × Capabilities
  ohv_caps_cached h k = elim h.caps_cached [
    | some c ↦ (h, k, c)
    | none ↦
        let (r, k') = trap capabilities k in
        if r.code == hv_success
        then (record h { caps_cached = some (block k') }, k', block k')
        else (h, k', zero_capabilities)
  ]

  -- The cache is never the null pointer.
  unfoldable pub hv_vcpu_config_get_feature_reg :
      Host → K → Option VcpuConfig → ℕ → Bool → Host × K × Result ℕ
  hv_vcpu_config_get_feature_reg h k none reg out = (h, k, err hv_bad_argument)
  hv_vcpu_config_get_feature_reg h k (some config) reg out =
      let (h1, k1, c) = ohv_caps_cached h k in
      let (h2, k2, v) = ohv_id_reg_for trap h1 k1 c reg true in
      if not out
      then (h, k, err hv_bad_argument)
      else if ltb 17 reg
      then (h1, k1, err hv_bad_argument)
      else (h2, k2, ok v)

  -- The eight values, as a function of the index.
  unfoldable pub hv_vcpu_config_get_ccsidr_el1_sys_reg_values :
      K → Option VcpuConfig → ℕ → Bool → K × Result (ℕ → ℕ)
  hv_vcpu_config_get_ccsidr_el1_sys_reg_values k none t out = (k, err hv_bad_argument)
  hv_vcpu_config_get_ccsidr_el1_sys_reg_values k (some config) t out =
      let (r, k') = trap capabilities k in
      if not out
      then (k, err hv_bad_argument)
      else if not (r.code == hv_success)
      then (k', err hv_error)
      else (
        k',
        ok (
            if t == cache_type_instruction
            then (block k').ccsidr_el1_inst
            else (block k').ccsidr_el1_data_or_unified),
      )

  unfoldable pub hv_capability : K → ℕ → Bool → K × Result ℕ
  hv_capability k cap out =
      let (r, k') = trap capabilities k in
      let bits = (block k').ipa_bits_4k in
      if not out
      then (k, err hv_bad_argument)
      else if not (r.code == hv_success)
      then (k', err r.code)
      else if cap == cap_vcpumax
      then (k', ok 64)
      else if cap == cap_addrspacemax
      then (k', ok (if bits == 0 then 40 else bits))
      else (k', err hv_bad_argument)
