-- ===== src/Context/Controls.antt =====
-- Fields of `ohv_controls_t`, from the start of the page.
use open_hypervisor.Base.{ℕ, ◌+◌, ◌*◌}

abbrev pub hcr_el2 : ℕ
hcr_el2 = 0x920

abbrev pub mdcr_el2 : ℕ
mdcr_el2 = 0x938

abbrev pub virtual_timer_offset : ℕ
virtual_timer_offset = 0x950

abbrev pub vmkeyhi_el2 : ℕ
vmkeyhi_el2 = 0x990

abbrev pub vmkeylo_el2 : ℕ
vmkeylo_el2 = 0x998

abbrev pub ich_hcr_el2 : ℕ
ich_hcr_el2 = 0x9a8

abbrev pub ich_lr_el2 : ℕ → ℕ
ich_lr_el2 n = 0x9b0 + n * 8

abbrev pub hacr_el2 : ℕ
hacr_el2 = 0x928

abbrev pub hfgrtr_el2 : ℕ
hfgrtr_el2 = 0x958

abbrev pub hfgwtr_el2 : ℕ
hfgwtr_el2 = 0x960

abbrev pub hfgitr_el2 : ℕ
hfgitr_el2 = 0x968

abbrev pub cnthctl_el2 : ℕ
cnthctl_el2 = 0x980
