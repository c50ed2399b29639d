-- ===== src/Wrapper/Run.antt =====
-- `Vcpu::run` over `hv_vcpu_run` (include/openhyp/openhyp.hpp).
pub mod Told
use open_hypervisor.Base.{ℕ, Option, none, some, ◌==◌, if◌then◌else◌}
use open_hypervisor.Context.{Ctx}
use open_hypervisor.Hv.{hv_success, Result, ok, err}
use open_hypervisor.Host.{Host}
use open_hypervisor.Vm.Kernel.{Trap}
use open_hypervisor.Vcpu.Slot.{VcpuSlot}
use open_hypervisor.Vcpu.Environment.{Environment}
use open_hypervisor.Vcpu.Run.{Round, Machine, hv_vcpu_run}

pub record ExitInfo : Type 0 where
  pub reason : ℕ
  pub syndrome : ℕ
  pub virtual_address : ℕ
  pub physical_address : ℕ

-- What `run` makes of the call's code and of `*exit_`.
unfoldable pub exit_info : VcpuSlot → ℕ → Result ExitInfo
exit_info s code =
    if code == hv_success
    then ok (record {
      reason = s.exit_reason;
      syndrome = s.exit_syndrome;
      virtual_address = s.exit_virtual_address;
      physical_address = s.exit_physical_address;
    })
    else err code

-- Everything that a call works on: the library, the kernel and the two shared variables.
pub record Session (K : Type 0) : Type 0 where
  pub host : Host
  pub kernel : K
  pub held : ℕ
  pub band : ℕ

-- `*exit_` is the record in the vCPU's slot.
abbrev pub answer :
    {K : Type 0} → ℕ → Option (Host × Machine K × ℕ) → Option (Session K × Result ExitInfo)
answer id none = none
answer id (some (h, m, code)) = some (
  record { host = h; kernel = m.kernel; held = m.held; band = m.band },
  exit_info (h.vcpus id) code,
)

unfoldable pub run :
    {K : Type 0}
    → Trap K
    → (K → Ctx → Ctx)
    → Environment
    → ℕ
    → (ℕ → Round)
    → ℕ
    → Session K
    → Option (Session K × Result ExitInfo)
run trap refresh e fuel rounds id c =
    answer id (hv_vcpu_run trap refresh e c.host fuel rounds c.kernel c.held c.band id)
