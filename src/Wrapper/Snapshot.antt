-- ===== src/Wrapper/Snapshot.antt =====
-- `Vcpu::snapshot` and `Vcpu::restore` (include/openhyp/openhyp.hpp).
pub mod Laws
pub mod Restored
use open_hypervisor.Base.{ℕ, zero, suc, true, List, [], ◌∷◌, ◌++◌, ◌==◌, if◌then◌else◌}
use open_hypervisor.Context.{Ctx}
use open_hypervisor.Hv.{hv_success, Result, ok, err}
use open_hypervisor.Host.{Host}
use open_hypervisor.Vm.Kernel.{Trap}
use open_hypervisor.Caps.Block.{Capabilities}
use open_hypervisor.Vcpu.Environment.{Environment}
use open_hypervisor.Vcpu.Registers.{reg_cpsr, reg_fpcr, reg_fpsr}
use open_hypervisor.Vcpu.Sysreg.{hv_vcpu_get_sys_reg, hv_vcpu_set_sys_reg}
use open_hypervisor.Wrapper.{and_then, reg, get_regs, set_regs}

-- `gpr`, `cpsr`, `fpcr` and `fpsr`.
pub record General : Type 0 where
  pub gpr : List ℕ
  pub cpsr : ℕ
  pub fpcr : ℕ
  pub fpsr : ℕ

pub record Snapshot : Type 0 where
  pub general : General
  pub sysregs : List (ℕ × ℕ)

-- The numbers of `n` registers from `i` on.
abbrev pub numbers : ℕ → ℕ → List ℕ
numbers i zero = []
numbers i (suc n) = i ∷ numbers (suc i) n

unfoldable pub read_general : Host → ℕ → Result General
read_general h id = and_then (get_regs h id (numbers 0 32)) (λ gpr.
    and_then (reg h id reg_cpsr) (λ cpsr. and_then (reg h id reg_fpcr) (λ fpcr.
      and_then (reg h id reg_fpsr)
        (λ fpsr. ok (record { gpr = gpr; cpsr = cpsr; fpcr = fpcr; fpsr = fpsr })))))

-- The rounds of the loop of `restore`: `i <= 31 && i < s.gpr.size()`.
unfoldable pub numbered : ℕ → ℕ → List ℕ → List (ℕ × ℕ)
numbered zero i vs = []
numbered (suc left) i [] = []
numbered (suc left) i (v ∷ vs) = (i, v) ∷ numbered left (suc i) vs

abbrev pub flags_of : General → List (ℕ × ℕ)
flags_of g = (reg_cpsr, g.cpsr) ∷ (reg_fpcr, g.fpcr) ∷ (reg_fpsr, g.fpsr) ∷ []

unfoldable pub restore_general : Host → ℕ → General → Host × Result {0} Unit
restore_general h id g = set_regs h id (numbered 32 0 g.gpr ++ flags_of g)

module _ {K : Type 0} (trap : Trap K) (block : K → Capabilities) (refresh : K → Ctx → Ctx)
    (e : Environment) where
  unfoldable pub read_sys : Host → K → ℕ → List ℕ → Host × K × Result (List (ℕ × ℕ))
  read_sys h k id [] = (h, k, ok [])
  read_sys h k id (sr ∷ srs) =
      let (h1, k1, v) = hv_vcpu_get_sys_reg trap block refresh e h k id sr true in
      let (h2, k2, rest) = read_sys h1 k1 id srs in
      elim v [ err r ↦ (h1, k1, err r) | ok x ↦ (h2, k2, and_then rest (λ xs. ok ((sr, x) ∷ xs))) ]

  -- `Vcpu::set_sys_regs`.
  unfoldable pub set_sys_regs : Host → K → ℕ → List (ℕ × ℕ) → Host × K × Result {0} Unit
  set_sys_regs h k id [] = (h, k, ok tt)
  set_sys_regs h k id ((sr, v) ∷ batch) =
      let (h1, k1, code) = hv_vcpu_set_sys_reg trap block refresh e h k id sr v in
      let rest = set_sys_regs h1 k1 id batch in
      if code == hv_success then rest else (h1, k1, err code)

  unfoldable pub snapshot : Host → K → ℕ → List ℕ → Host × K × Result Snapshot
  snapshot h k id interesting =
      let (h1, k1, sys) = read_sys h k id interesting in
      elim (read_general h id) [
        | err r ↦ (h, k, err r)
        | ok g ↦ (h1, k1, and_then sys (λ xs. ok (record { general = g; sysregs = xs })))
      ]

  unfoldable pub restore : Host → K → ℕ → Snapshot → Host × K × Result {0} Unit
  restore h k id s =
      let (h1, done) = restore_general h id s.general in
      let rest = set_sys_regs h1 k id s.sysregs in
      elim done [ err r ↦ (h1, k, err r) | ok _ ↦ rest ]
