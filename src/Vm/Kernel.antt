-- ===== src/Vm/Kernel.antt =====
-- The kernel as the calls see it: the traps they issue (`ohv_raw_trap`, src/ohv_trap.cpp) and
-- what comes back. The kernel itself is a parameter, a function on a state of its own.
use open_hypervisor.Base.{ℕ, ◌∷◌, List}

-- `ohv_vm_create_t`; `min_ipa` and `flags` are always zero.
pub record VmCreate : Type 0 where
  pub ipa_size : ℕ
  pub granule : ℕ
  pub isa : ℕ

-- `ohv_vm_map_item_t`.
pub record MapItem : Type 0 where
  pub uva : ℕ
  pub ipa : ℕ
  pub size : ℕ
  pub flags : ℕ
  pub asid : ℕ

-- `ohv_vm_addrspace_create_t`.
pub record SpaceCreate : Type 0 where
  pub min_ipa : ℕ
  pub ipa_size : ℕ
  pub granule : ℕ

-- `ohv_vm_monitor_data_abort_t`.
pub record MonitorDataAbort : Type 0 where
  pub cmd : ℕ
  pub asid : ℕ
  pub monitor : ℕ
  pub base_ipa : ℕ
  pub size : ℕ
  pub access_type : ℕ
  pub port_name : ℕ

pub data Request : Type 0 where
  capabilities : Request
  vm_create : VmCreate → Request
  vm_destroy : Request
  vm_map vm_unmap vm_protect : MapItem → Request
  address_space_create : SpaceCreate → Request
  vcpu_create : ℕ → Request
  vcpu_destroy : Request
  vcpu_set_address_space : ℕ → Request
  vcpu_run_cancel : ℕ → Request
  vcpu_run : Request
  vcpu_sysregs_sync : Request
  vcpu_set_svcr : ℕ → Request
  vcpu_amx_prepare : Request
  vm_stage1_tlb_op : ℕ → ℕ → ℕ → Request
  vm_monitor_data_abort : MonitorDataAbort → Request

-- The return code, and the word that the call reads out of its argument block afterwards:
-- `ipa_bits_4k` of the capabilities, the new address space, or where a new vCPU's pages are.
pub record Reply : Type 0 where
  pub code : ℕ
  pub word : ℕ

abbrev pub Trap : Type 0 → Type 0
Trap K = Request → K → Reply × K

-- A kernel that answers by a fixed rule and keeps the requests, the latest first.
abbrev pub recording : (Request → Reply) → Trap (List Request)
recording answer r log = (answer r, r ∷ log)
