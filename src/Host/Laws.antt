-- ===== src/Host/Laws.antt =====
-- Looking a vCPU up after its slot, or another's, was written.
use open_hypervisor.Base.{ℕ, ◌≡◌, ◌<◌, true, some, arith, ◌==◌, if◌then◌else◌}
use open_hypervisor.Context.{update}
use open_hypervisor.Host.{Host, find_vcpu, owned_vcpu, put_slot, max_vcpu_ids}
use open_hypervisor.Vcpu.Slot.{VcpuSlot}

-- The slot of a vCPU is in use and is its entry of the table.
pub find_vcpu_found :
    (h : Host) (id : ℕ) (s : VcpuSlot)
    → find_vcpu h id ≡ some s
    → (s ≡ h.vcpus id) × ((h.vcpus id).used ≡ true) × (id < max_vcpu_ids)
unfolding find_vcpu
find_vcpu_found h id s found = ground arith

pub owned_vcpu_found :
    (h : Host) (id : ℕ) (s : VcpuSlot)
    → owned_vcpu h id ≡ some s
    → (s ≡ h.vcpus id) × (s.used ≡ true) × (id < max_vcpu_ids)
unfolding owned_vcpu find_vcpu
owned_vcpu_found h id s found = ground arith

pub owned_vcpu-put_slot :
    (h : Host) (id id' : ℕ) (s s' : VcpuSlot)
    → owned_vcpu h id ≡ some s
    → s'.used ≡ true
    → owned_vcpu (put_slot h id s') id' ≡ (if id == id' then some s' else owned_vcpu h id')
unfolding owned_vcpu find_vcpu update
owned_vcpu-put_slot h id id' s s' found used = ground arith
