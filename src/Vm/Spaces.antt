-- ===== src/Vm/Spaces.antt =====
-- The address spaces that a caller manages by hand, and the two private calls on them
-- (`__hv_vm_space_create` and its neighbours, `ohv_monitor_data_abort`, src/ohv_misc.cpp).
pub mod Laws
use open_hypervisor.Base.{ℕ, ◌%◌, ◌^◌, Bool, not, Option, none, some, ◌==◌, if◌then◌else◌}
use open_hypervisor.Hv.{hv_success, hv_bad_argument, Result, ok, err}
use open_hypervisor.Host.{Host, require_vm, owned_vcpu}
use open_hypervisor.Vm.Kernel.{
  Trap, Request, vm_map, vm_unmap, vm_protect, address_space_create, vm_stage1_tlb_op,
  vm_monitor_data_abort,
}

-- `hv_vm_space_config_s`.
pub record SpaceConfig : Type 0 where
  pub ipa_base : ℕ
  pub ipa_size : ℕ
  pub ipa_granule : ℕ

abbrev pub hv_vm_space_config_create : SpaceConfig
hv_vm_space_config_create = record { ipa_base = 0; ipa_size = 0; ipa_granule = 0 }

abbrev set : Option SpaceConfig → (SpaceConfig → SpaceConfig) → Option SpaceConfig × ℕ
set none f = (none, hv_bad_argument)
set (some c) f = (some (f c), hv_success)

abbrev get : Option SpaceConfig → Bool → (SpaceConfig → ℕ) → Result ℕ
get none out f = err hv_bad_argument
get (some c) out f = if out then ok (f c) else err hv_bad_argument

unfoldable pub hv_vm_space_config_set_ipa_base : Option SpaceConfig → ℕ → Option SpaceConfig × ℕ
hv_vm_space_config_set_ipa_base c v = set c (λ d. record d { ipa_base = v })

unfoldable pub hv_vm_space_config_get_ipa_base : Option SpaceConfig → Bool → Result ℕ
hv_vm_space_config_get_ipa_base c out = get c out (λ d. d.ipa_base)

unfoldable pub hv_vm_space_config_set_ipa_size : Option SpaceConfig → ℕ → Option SpaceConfig × ℕ
hv_vm_space_config_set_ipa_size c v = set c (λ d. record d { ipa_size = v })

unfoldable pub hv_vm_space_config_get_ipa_size : Option SpaceConfig → Bool → Result ℕ
hv_vm_space_config_get_ipa_size c out = get c out (λ d. d.ipa_size)

unfoldable pub hv_vm_space_config_set_ipa_granule : Option SpaceConfig → ℕ → Option SpaceConfig × ℕ
hv_vm_space_config_set_ipa_granule c v = set c (λ d. record d { ipa_granule = v })

unfoldable pub hv_vm_space_config_get_ipa_granule : Option SpaceConfig → Bool → Result ℕ
hv_vm_space_config_get_ipa_granule c out = get c out (λ d. d.ipa_granule)

-- The kernel frees the spaces with the machine; nothing is asked of it.
abbrev pub hv_vm_space_destroy : ℕ → ℕ
hv_vm_space_destroy space = hv_success

module _ {K : Type 0} (trap : Trap K) where
  -- `r = require_vm(); if (r == HV_SUCCESS) r = ohv_raw_trap(request)`.
  unfoldable pub in_vm : Host → K → Request → K × ℕ
  unfolding require_vm
  in_vm h k request =
      let (r, k') = trap request k in
      if require_vm h == hv_success then (k', r.code) else (k, require_vm h)

  -- The granule is cut to 32 bits; `out` is whether the out-parameter is not null.
  unfoldable pub hv_vm_space_create : Host → K → Option SpaceConfig → Bool → K × Result ℕ
  unfolding require_vm
  hv_vm_space_create h k none out = (k, err hv_bad_argument)
  hv_vm_space_create h k (some c) out =
      let (r, k') =
        trap
          (address_space_create (record {
            min_ipa = c.ipa_base;
            ipa_size = c.ipa_size;
            granule = c.ipa_granule % 2 ^ 32;
          }))
          k in
      if not out
      then (k, err hv_bad_argument)
      else if not (require_vm h == hv_success)
      then (k, err (require_vm h))
      else if r.code == hv_success
      then (k', ok r.word)
      else (k', err r.code)

  unfoldable pub hv_vm_map_space : Host → K → ℕ → ℕ → ℕ → ℕ → ℕ → K × ℕ
  hv_vm_map_space h k space addr ipa size flags =
      in_vm h k
        (vm_map (record { uva = addr; ipa = ipa; size = size; flags = flags; asid = space }))

  unfoldable pub hv_vm_unmap_space : Host → K → ℕ → ℕ → ℕ → K × ℕ
  hv_vm_unmap_space h k space ipa size =
      in_vm h k (vm_unmap (record { uva = 0; ipa = ipa; size = size; flags = 0; asid = space }))

  unfoldable pub hv_vm_protect_space : Host → K → ℕ → ℕ → ℕ → ℕ → K × ℕ
  hv_vm_protect_space h k space ipa size flags =
      in_vm h k
        (vm_protect (record { uva = 0; ipa = ipa; size = size; flags = flags; asid = space }))

  -- The only one that asks the kernel whether there is a machine or not.
  unfoldable pub hv_vm_stage1_tlb_op : K → ℕ → ℕ → ℕ → K × ℕ
  hv_vm_stage1_tlb_op k space op param =
      let (r, k') = trap (vm_stage1_tlb_op space op param) k in (k', r.code)

  -- The access is `HV_MEMORY_WRITE`.
  unfoldable pub ohv_monitor_data_abort : Host → K → Bool → ℕ → ℕ → ℕ → ℕ → ℕ → K × ℕ
  ohv_monitor_data_abort h k add asid context base size port = in_vm h k (
      vm_monitor_data_abort (record {
        cmd = if add then 0 else 1;
        asid = asid;
        monitor = context;
        base_ipa = base;
        size = size;
        access_type = 2;
        port_name = port;
      }))

  -- `hv_vcpu_invalidate_tlb` of src/ohv_vcpu.cpp: the machine's own space, for a vCPU of the thread.
  unfoldable pub hv_vcpu_invalidate_tlb : Host → K → ℕ → ℕ → ℕ → K × ℕ
  hv_vcpu_invalidate_tlb h k id op param =
      let (r, k') = trap (vm_stage1_tlb_op 0 op param) k in
      elim (owned_vcpu h id) [ none ↦ (k, hv_bad_argument) | some s ↦ (k', r.code) ]
