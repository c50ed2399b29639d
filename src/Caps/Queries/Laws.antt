-- ===== src/Caps/Queries/Laws.antt =====
-- The feature registers, asked twice and asked of a kernel that refuses.
use open_hypervisor.Base.{ℕ, ◌≡◌, ◌≢◌, ◌≤◌, true, some, none, arith}
use open_hypervisor.Hv.{hv_success, ok}
use open_hypervisor.Host.{Host}
use open_hypervisor.Vm.Kernel.{Trap, capabilities}
use open_hypervisor.Vm.Lifecycle.{machine_ipa_bits}
use open_hypervisor.Caps.Block.{Capabilities, zero_capabilities}
use open_hypervisor.Caps.Narrowing.{id_reg_value}
use open_hypervisor.Caps.Registers.{ohv_id_reg_for}
use open_hypervisor.Caps.Queries.{VcpuConfig, ohv_caps_cached, hv_vcpu_config_get_feature_reg}

module _ {K : Type 0} (trap : Trap K) (block : K → Capabilities) where
  machine_ipa_bits_again :
      (h : Host) (k k2 : K)
      → let (h1, _, bits) = machine_ipa_bits trap h k in
        machine_ipa_bits trap h1 k2 ≡ (h1, k2, bits)
  unfolding machine_ipa_bits
  machine_ipa_bits_again h k k2 = ground arith

  id_reg_for_again :
      (h : Host) (k k2 : K) (c : Capabilities) (which : ℕ)
      → let (h1, _, v) = ohv_id_reg_for trap h k c which true in
        ohv_id_reg_for trap h1 k2 c which true ≡ (h1, k2, v)
  unfolding ohv_id_reg_for
  id_reg_for_again h k k2 c which = ground (arith, machine_ipa_bits_again h k k2)

  id_reg_for-caps_cached :
      (h : Host) (k : K) (c : Capabilities) (which : ℕ)
      → (ohv_id_reg_for trap h k c which true).0.caps_cached ≡ h.caps_cached
  unfolding ohv_id_reg_for machine_ipa_bits
  id_reg_for-caps_cached h k c which = ground arith

  caps_cached_again :
      (h h' : Host) (k k2 : K) (c : Capabilities)
      → (ohv_caps_cached trap block h k).0.caps_cached ≡ some c
      → h'.caps_cached ≡ some c
      → ((ohv_caps_cached trap block h k).2 ≡ c) × (ohv_caps_cached trap block h' k2 ≡ (h', k2, c))
  unfolding ohv_caps_cached
  caps_cached_again h h' k k2 c cached cached' = ground arith

  -- A feature register, asked again after the capabilities were granted once (so that they are
  -- kept), is answered the same and without asking the kernel anything, whatever the kernel has
  -- become since.
  pub get_feature_reg_again :
      (h : Host) (k k2 : K) (config : VcpuConfig) (reg v : ℕ) (c : Capabilities)
      → (hv_vcpu_config_get_feature_reg trap block h k (some config) reg true).2 ≡ ok v
      → (hv_vcpu_config_get_feature_reg trap block h k (some config) reg true).0.caps_cached
        ≡ some c
      → let (h1, _, _) = hv_vcpu_config_get_feature_reg trap block h k (some config) reg true in
        hv_vcpu_config_get_feature_reg trap block h1 k2 (some config) reg true ≡ (h1, k2, ok v)
  unfolding hv_vcpu_config_get_feature_reg
  get_feature_reg_again h k k2 config reg v c answered cached =
      let (h1, k1, c1) = ohv_caps_cached trap block h k in
      let (h2, k3, v1) = ohv_id_reg_for trap h1 k1 c1 reg true in
      ground (
        arith,
        id_reg_for-caps_cached h1 k1 c1 reg,
        caps_cached_again h h2 k k2 c,
        id_reg_for_again h1 k1 k2 c1 reg,
      )

  -- A kernel that refuses to report the capabilities is not told apart: the feature register is
  -- answered with success, narrowed out of a block of zeros.
  pub get_feature_reg_refused :
      (h : Host) (k : K) (config : VcpuConfig) (reg : ℕ)
      → h.caps_cached ≡ none
      → (trap capabilities k).0.code ≢ hv_success
      → reg ≤ 17
      → reg ≢ 4
      → (hv_vcpu_config_get_feature_reg trap block h k (some config) reg true).2
        ≡ ok (id_reg_value zero_capabilities 0 reg true)
  unfolding hv_vcpu_config_get_feature_reg ohv_caps_cached ohv_id_reg_for
  get_feature_reg_refused h k config reg empty refused le ne = ground arith
