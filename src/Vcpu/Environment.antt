-- ===== src/Vcpu/Environment.antt =====
-- The environment variables that steer the vCPU code (`ohv_env`), as the numbers that `strtoul`
-- and `strtoull` make of them. The variables that only switch a trace on are left out.
use open_hypervisor.Base.{ℕ, Bool, false, Option, none}

pub record Environment : Type 0 where
  pub timer_gate : Option ℕ
  pub timer_irq_vcpus : Option ℕ
  pub irq_ungated : Bool
  pub ipi_ungated : Bool
  pub allow_apsts_write : Bool
  pub hcr_nested_mask : Option ℕ
  pub no_twe : Bool
  pub hcr_tidcp : Option ℕ
  pub hcr_xmo : Option ℕ
  pub hacr_tactl0 : Bool
  pub trap_gxf : Bool
  pub cnthctl : Option ℕ
  pub try_14c8 : Option ℕ
  pub no_nested_space : Bool
  pub vmkey_mirror : Bool
  pub amxidr : Option ℕ
  pub survey_sysreg : Bool
  pub no_el2_injection : Bool
  pub no_hw_geret : Bool
  pub no_eret_emulation : Bool
  pub mirror_gl1 : Bool
  pub no_monitor_nv : Bool
  pub spin_wfi : Bool

-- With no variable set.
abbrev pub default_environment : Environment
default_environment = record {
  timer_gate = none;
  timer_irq_vcpus = none;
  irq_ungated = false;
  ipi_ungated = false;
  allow_apsts_write = false;
  hcr_nested_mask = none;
  no_twe = false;
  hcr_tidcp = none;
  hcr_xmo = none;
  hacr_tactl0 = false;
  trap_gxf = false;
  cnthctl = none;
  try_14c8 = none;
  no_nested_space = false;
  vmkey_mirror = false;
  amxidr = none;
  survey_sysreg = false;
  no_el2_injection = false;
  no_hw_geret = false;
  no_eret_emulation = false;
  mirror_gl1 = false;
  no_monitor_nv = false;
  spin_wfi = false;
}
