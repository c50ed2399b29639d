-- ===== src/Context/Ro.antt =====
-- The read-only page.
use open_hypervisor.Base.{ℕ}

abbrev pub ver : ℕ
ver = 0x4000

abbrev pub exit_reason : ℕ
exit_reason = 0x4008

abbrev pub exit_esr : ℕ
exit_esr = 0x4010

abbrev pub exit_far : ℕ
exit_far = 0x4020

abbrev pub exit_hpfar : ℕ
exit_hpfar = 0x4028

abbrev pub state_valid : ℕ
state_valid = 0x4108

abbrev pub ich_vtr : ℕ
ich_vtr = 0x4118

abbrev pub ich_misr : ℕ
ich_misr = 0x411c

abbrev pub ich_elrsr : ℕ
ich_elrsr = 0x4120

abbrev pub svcr : ℕ
svcr = 0x4128

abbrev pub svl_b : ℕ
svl_b = 0x4130

abbrev pub sme : ℕ
sme = 0x4138

abbrev pub amx : ℕ
amx = 0x4140
