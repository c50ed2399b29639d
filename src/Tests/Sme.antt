-- ===== src/Tests/Sme.antt =====
-- Runs of the streaming vector registers and of the matrix state.
use open_hypervisor.Base.{◌+◌, ◌≡◌, refl, true, ◌==◌, ◌&&◌, if◌then◌else◌}
use open_hypervisor.Hv.{hv_success, ok}
use open_hypervisor.Host.{Host, owned_vcpu, find_vcpu}
use open_hypervisor.Tests.Fixtures.{slot, vm_host}
use open_hypervisor.Vcpu.Slot.{VcpuSlot}
use open_hypervisor.Vcpu.Sme.{Bytes, bytes_at, svl, hv_vcpu_get_sme_z_reg, hv_vcpu_set_sme_z_reg}
use open_hypervisor.Vcpu.Sme.Laws.{get_sme_z_reg-set}

-- A vCPU whose vectors of 64 bytes lie at 0x1000.
abbrev streaming : VcpuSlot
streaming = record slot { ctx = λ i. if i == 0x104c then 64 else if i == 0x104e then 0x1000 else 0 }

abbrev host : Host
host = record vm_host { vcpus = λ _. streaming }

abbrev memory : Bytes
memory a = 0

-- The bytes 1, 2, 3, ...
abbrev counting : Bytes
counting a = a + 1

get_sme_z_reg-set_example :
    let (h', m', r) = hv_vcpu_set_sme_z_reg host memory 0 3 64 true counting in
    hv_vcpu_get_sme_z_reg h' m' 0 3 64 true ≡ (
      if r == hv_success && 3 == 3
      then ok (bytes_at counting 0 (svl streaming))
      else hv_vcpu_get_sme_z_reg host memory 0 3 64 true)
unfolding owned_vcpu find_vcpu
get_sme_z_reg-set_example = get_sme_z_reg-set host memory counting 0 3 3 64 streaming refl

-- A vCPU whose matrix state is there.
abbrev matrices : Host
matrices = record vm_host { vcpus = λ _. record slot { ctx = λ i. 0x2000 } }
