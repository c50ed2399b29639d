-- ===== src/Sysreg/Lookup.antt =====
-- Finding the descriptor of an encoding (`sysreg_lookup_apple`, src/ohv_sysreg_apple.cpp;
-- `sysreg_lookup`, src/ohv_sysreg_table.cpp).
pub mod Laws
use open_hypervisor.Base.{
  ℕ, zero, suc, ◌+◌, ◌*◌, Option, none, some, List, [], ◌∷◌, ◌==◌, if◌then◌else◌, get_elem?,
}
use open_hypervisor.Sysreg.{SysRegDesc}
use open_hypervisor.Sysreg.Generated.{k_table, case_labels}
use open_hypervisor.Sysreg.Apple.{k_apple_table, k_el2_table}

-- One `for` loop over a table.
unfoldable pub scan : List SysRegDesc → ℕ → Option SysRegDesc
scan [] enc = none
scan (d ∷ ds) enc = let rest = scan ds enc in if d.encoding == enc then some d else rest

unfoldable pub sysreg_lookup_apple : ℕ → Option SysRegDesc
sysreg_lookup_apple enc = elim (scan k_apple_table enc) [
  | some d ↦ some d
  | none ↦ scan k_el2_table enc
]

-- The place of the case that `enc` selects, counted from `i`.
unfoldable pub select_case : List ℕ → ℕ → ℕ → Option ℕ
select_case [] i enc = none
select_case (l ∷ ls) i enc =
    let rest = select_case ls (i + 1) enc in if l == enc then some i else rest

unfoldable pub sysreg_lookup : ℕ → Option SysRegDesc
sysreg_lookup enc = elim (sysreg_lookup_apple enc) [
  | some d ↦ some d
  | none ↦ elim (select_case case_labels 0 enc) [ none ↦ none | some i ↦ get_elem? k_table i ]
]
