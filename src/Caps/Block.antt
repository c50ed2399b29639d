-- ===== src/Caps/Block.antt =====
-- The capability block that the kernel fills (`ohv_capabilities_t`, include/openhyp/ohv_core.h):
-- the fields that the library reads.
use open_hypervisor.Base.{ℕ}

pub record Capabilities : Type 0 where
  pub ctr_el0 : ℕ
  pub dczid_el0 : ℕ
  pub clidr_el1 : ℕ
  pub ccsidr_el1_inst : ℕ → ℕ
  pub ccsidr_el1_data_or_unified : ℕ → ℕ
  pub id_aa64dfr0_el1 : ℕ
  pub id_aa64isar0_el1 : ℕ
  pub id_aa64isar1_el1 : ℕ
  pub id_aa64mmfr0_el1 : ℕ
  pub id_aa64mmfr1_el1 : ℕ
  pub id_aa64mmfr2_el1 : ℕ
  pub id_aa64pfr0_el1 : ℕ
  pub id_aa64pfr1_el1 : ℕ
  pub id_aa64smfr0_el1 : ℕ
  pub id_aa64zfr0_el1 : ℕ
  pub ipa_bits_4k : ℕ

-- `ohv_capabilities_t caps{}`.
abbrev pub zero_capabilities : Capabilities
zero_capabilities = record {
  ctr_el0 = 0;
  dczid_el0 = 0;
  clidr_el1 = 0;
  ccsidr_el1_inst = λ _. 0;
  ccsidr_el1_data_or_unified = λ _. 0;
  id_aa64dfr0_el1 = 0;
  id_aa64isar0_el1 = 0;
  id_aa64isar1_el1 = 0;
  id_aa64mmfr0_el1 = 0;
  id_aa64mmfr1_el1 = 0;
  id_aa64mmfr2_el1 = 0;
  id_aa64pfr0_el1 = 0;
  id_aa64pfr1_el1 = 0;
  id_aa64smfr0_el1 = 0;
  id_aa64zfr0_el1 = 0;
  ipa_bits_4k = 0;
}
