-- ===== src/Sysreg/Lookup/Laws.antt =====
-- What a lookup finds.
use open_hypervisor.Base.{
  ℕ, suc, ◌+◌, ◌-◌, ◌≡◌, ◌≤◌, refl, Bool, true, false, Option, none, some, List, [], ◌∷◌, ◌++◌,
  get_elem?, map, arith, all_from, all_from_at, inl, inr, ◌∙◌, Option-cases,
}
use open_hypervisor.Sysreg.{SysRegDesc}
use open_hypervisor.Sysreg.Generated.{k_table, hv_sys_regs}
use open_hypervisor.Sysreg.Apple.{k_apple_table, k_el2_table}
use open_hypervisor.Sysreg.Lookup.{scan, select_case, sysreg_lookup_apple, sysreg_lookup}

-- All rows, in the order in which they are asked.
abbrev pub all_rows : List SysRegDesc
all_rows = k_apple_table ++ (k_el2_table ++ k_table)

scan-append :
    (xs ys : List SysRegDesc) (enc : ℕ)
    → scan (xs ++ ys) enc ≡ elim (scan xs enc) [ some d ↦ some d | none ↦ scan ys enc ]
unfolding scan
scan-append [] ys enc = refl
scan-append (d ∷ xs) ys enc = ground (arith, scan-append xs ys enc)

select_case-ge : (ls : List ℕ) (i j enc : ℕ) → select_case ls i enc ≡ some j → i ≤ j
unfolding select_case
select_case-ge [] i j enc e = ground arith
select_case-ge (l ∷ ls) i j enc e = ground (arith, select_case-ge ls (i + 1) j enc)

-- A switch whose labels are the rows' own encodings answers as a search of the rows does.
select_case_lem :
    (xs : List SysRegDesc) (i enc : ℕ)
    → elim (select_case (map (λ (d : SysRegDesc). d.encoding) xs) i enc) [
      | none ↦ none
      | some j ↦ get_elem? xs (j - i)
    ]
      ≡ scan xs enc
unfolding select_case scan
select_case_lem [] i enc = refl
select_case_lem (d ∷ xs) i enc =
    let labels = map (λ (d : SysRegDesc). d.encoding) xs in
    let rest = select_case_lem xs (i + 1) enc in
    elim (Option-cases (select_case labels (i + 1) enc)) [
      | inl e ↦ ground (arith, rest)
      | inr (j, e) ↦
          let next : j - i ≡ suc (j - (i + 1)) =
            omega (arith, select_case-ge labels (i + 1) j enc e) in
          ground (arith, rest, next)
    ]

pub scan-encoding :
    (xs : List SysRegDesc) (enc : ℕ) (d : SysRegDesc) → scan xs enc ≡ some d → d.encoding ≡ enc
unfolding scan
scan-encoding [] enc d e = ground arith
scan-encoding (x ∷ xs) enc d e = ground (arith, scan-encoding xs enc d)

-- A test that every row passes holds of what a search finds.
pub scan-all :
    (p : SysRegDesc → Bool) (xs : List SysRegDesc) (i enc : ℕ) (d : SysRegDesc)
    → all_from (λ _ (x : SysRegDesc). p x) xs i ≡ true
    → scan xs enc ≡ some d
    → p d ≡ true
unfolding scan
scan-all p [] i enc d all e = ground arith
scan-all p (x ∷ xs) i enc d all e = ground (arith, scan-all p xs (suc i) enc d)

abbrev else_first : Option SysRegDesc → Option SysRegDesc → Option SysRegDesc
else_first o rest = elim o [ some d ↦ some d | none ↦ rest ]

abbrev row_at : List SysRegDesc → Option ℕ → Option SysRegDesc
row_at zs o = elim o [ none ↦ none | some i ↦ get_elem? zs i ]

three_tables :
    (xs ys zs : List SysRegDesc) (enc : ℕ)
    → else_first
        (else_first (scan xs enc) (scan ys enc))
        (row_at zs (select_case (map (λ (d : SysRegDesc). d.encoding) zs) 0 enc))
      ≡ scan (xs ++ (ys ++ zs)) enc
three_tables xs ys zs enc =
    ground (arith, select_case_lem zs 0 enc, scan-append xs (ys ++ zs) enc, scan-append ys zs enc)

-- Looking a register up, by Apple's table, the EL2 table and then the case labels of the generated
-- switch, answers the first row of the three tables that has the encoding, or nothing.
pub sysreg_lookup_lem : (enc : ℕ) → sysreg_lookup enc ≡ scan all_rows enc
unfolding sysreg_lookup sysreg_lookup_apple
sysreg_lookup_lem enc = three_tables k_apple_table k_el2_table k_table enc

abbrev finds : ℕ → Bool
finds enc = elim (scan all_rows enc) [ none ↦ false | some d ↦ true ]

all_found : all_from (λ _ (enc : ℕ). finds enc) hv_sys_regs 0 ≡ true
unfolding scan
all_found = refl

-- Every system register that the interface names has a descriptor, its own.
pub sysreg_lookup-named :
    (i enc : ℕ)
    → get_elem? hv_sys_regs i ≡ some enc
    → (d : SysRegDesc) × (sysreg_lookup enc ≡ some d) × (d.encoding ≡ enc)
sysreg_lookup-named i enc named = elim (Option-cases (scan all_rows enc)) [
  | inl e ↦
      ground (arith, all_from_at (λ _ (enc : ℕ). finds enc) hv_sys_regs 0 i enc all_found named)
  | inr (d, e) ↦ (d, sysreg_lookup_lem enc ∙ e, scan-encoding all_rows enc d e)
]
