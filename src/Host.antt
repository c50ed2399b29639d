-- ===== src/Host.antt =====
-- The process-wide state (src/ohv_state.cpp and the file statics of src/ohv_vm.cpp), and how a
-- vCPU id finds its slot. A call runs under the library's locks, so it is one step on this state.
pub mod Laws
use open_hypervisor.Base.{ℕ, Bool, false, not, Option, none, some, List, leb, ◌==◌, if◌then◌else◌}
use open_hypervisor.Context.{update}
use open_hypervisor.Hv.{hv_success, hv_no_device, hv_bad_argument, Result, err}
use open_hypervisor.Vcpu.Slot.{VcpuSlot}
use open_hypervisor.Gic.Model.{GicModel}
use open_hypervisor.Caps.Block.{Capabilities}

abbrev pub max_vcpu_ids : ℕ
max_vcpu_ids = 64

-- `MapRecord` of src/ohv_vm.cpp.
pub record MapRecord : Type 0 where
  pub uva : ℕ
  pub ipa : ℕ
  pub size : ℕ

-- `current` is the calling thread's `tl_current_vcpu`, as the index of the slot it points to.
-- `nested_asid` and `maps` are the used parts of their arrays; `ipa_bits` is the cache of
-- `machine_ipa_bits`; `id_caps` is the static of `sysreg_access`, and `caps_cached` is `g_caps` of
-- src/ohv_caps_field.cpp once the kernel has filled it.
pub record Host : Type 0 where
  pub vm_alive : Bool
  pub vm_isa : ℕ
  pub vm_el2 : Bool
  pub vm_vhe : Bool
  pub gic : Option GicModel
  pub vcpus : ℕ → VcpuSlot
  pub current : Option ℕ
  pub nested_asid : List ℕ
  pub maps : List MapRecord
  pub ipa_bits : Option ℕ
  pub id_caps : Option Capabilities
  pub caps_cached : Option Capabilities

unfoldable pub require_vm : Host → ℕ
require_vm h = if h.vm_alive then hv_success else hv_no_device

unfoldable pub find_vcpu : Host → ℕ → Option VcpuSlot
find_vcpu h id =
    if leb max_vcpu_ids id then none else if (h.vcpus id).used then some (h.vcpus id) else none

-- `tl_current_vcpu && tl_current_vcpu != s`.
abbrev pub bound_elsewhere : Option ℕ → ℕ → Bool
bound_elsewhere none id = false
bound_elsewhere (some t) id = not (t == id)

unfoldable pub owned_vcpu : Host → ℕ → Option VcpuSlot
unfolding find_vcpu
owned_vcpu h id = elim (find_vcpu h id) [
  | none ↦ none
  | some s ↦ if bound_elsewhere h.current id then none else some s
]

-- The slot written back to the table.
abbrev pub put_slot : Host → ℕ → VcpuSlot → Host
put_slot h id s = record h { vcpus = update h.vcpus id s }

-- `VcpuSlot *s = owned_vcpu(id); if (!s) return HV_BAD_ARGUMENT; ...`, for a call that changes the
-- slot, and for one that reads it through an out-parameter.
abbrev pub with_owned : Host → ℕ → (VcpuSlot → VcpuSlot × ℕ) → Host × ℕ
with_owned h id f = elim (owned_vcpu h id) [
  | none ↦ (h, hv_bad_argument)
  | some s ↦ (put_slot h id (f s).0, (f s).1)
]

abbrev pub from_owned {ℓ} : {A : Type ℓ} → Host → ℕ → Bool → (VcpuSlot → Result A) → Result A
from_owned h id out f = elim (owned_vcpu h id) [
  | none ↦ err hv_bad_argument
  | some s ↦ if out then f s else err hv_bad_argument
]
