-- ===== src/Gic/Model.antt =====
-- The state of the interrupt controller model (`GicModel`, src/ohv_gic.cpp) and its geometry.
use open_hypervisor.Base.{ℕ, ◌/◌}

pub record GicConfig : Type 0 where
  pub distributor_base : ℕ
  pub redistributor_base : ℕ
  pub msi_region_base : ℕ
  pub msi_intid_base : ℕ
  pub msi_intid_count : ℕ

abbrev pub dist_size : ℕ
dist_size = 0x10000

abbrev pub redist_size : ℕ
redist_size = 0x20000

abbrev pub msi_region_size : ℕ
msi_region_size = 0x10000

abbrev pub dist_slots : ℕ
dist_slots = dist_size / 4

abbrev pub redist_slots : ℕ
redist_slots = redist_size / 4

abbrev pub msi_slots : ℕ
msi_slots = msi_region_size / 4

abbrev pub modelled_cpus : ℕ
modelled_cpus = 16

abbrev pub spi_base : ℕ
spi_base = 32

abbrev pub spi_count : ℕ
spi_count = 988

-- Arrays are functions of the index; the operations bound every index that they use.
pub record GicModel : Type 0 where
  pub cfg : GicConfig
  pub dist : ℕ → ℕ
  pub redist : ℕ → ℕ → ℕ
  pub icc : ℕ → ℕ → ℕ
  pub ich : ℕ → ℕ → ℕ
  pub icv : ℕ → ℕ → ℕ
  pub msi : ℕ → ℕ

abbrev pub gicd_ctlr_reset : ℕ
gicd_ctlr_reset = 0x50

abbrev pub gicd_typer_reset : ℕ
gicd_typer_reset = 0x0478001f

-- Byte offsets in the distributor frame.
abbrev pub gicd_ctlr : ℕ
gicd_ctlr = 0x0000

abbrev pub gicd_typer : ℕ
gicd_typer = 0x0004

abbrev pub gicd_isenabler0 : ℕ
gicd_isenabler0 = 0x0100

abbrev pub gicd_ispendr0 : ℕ
gicd_ispendr0 = 0x0200

abbrev pub gicd_ipriorityr0 : ℕ
gicd_ipriorityr0 = 0x0400
