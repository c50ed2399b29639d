-- ===== src/Caps/Narrowing/Fields.antt =====
-- Which fields of the machine's identification registers a guest is shown (`ohv_id_reg_for`,
-- src/ohv_misc.cpp).
use open_hypervisor.Base.{
  ℕ, zero, suc, ◌/◌, Bool, true, false, List, [], ◌∷◌, ◌==◌, if◌then◌else◌, ◌&&◌,
}
use open_hypervisor.Base.Bits.{bit_at}
use open_hypervisor.Caps.Block.{Capabilities}

-- The register of the machine that view `which` is made of.
abbrev pub host_reg : Capabilities → ℕ → ℕ
host_reg c which =
    if which == 0
    then c.id_aa64dfr0_el1
    else if which == 2
    then c.id_aa64isar0_el1
    else if which == 3
    then c.id_aa64isar1_el1
    else if which == 4
    then c.id_aa64mmfr0_el1
    else if which == 5
    then c.id_aa64mmfr1_el1
    else if which == 6
    then c.id_aa64mmfr2_el1
    else if which == 7
    then c.id_aa64pfr0_el1
    else if which == 8
    then c.id_aa64pfr1_el1
    else 0

unfoldable pub among : List ℕ → ℕ → Bool
among [] f = false
among (g ∷ gs) f = if f == g then true else among gs f

-- The four-bit fields of the machine's register that a guest is shown, by their numbers from the low
-- end: of the debug register the breakpoints, the watchpoints and the context breakpoints, of the
-- first instruction set register all but the transactional memory, and so on. Of the first processor
-- feature register the guest is not shown EL2 and EL3, the interrupt controller's interface, SVE,
-- secure EL2, MPAM, the activity monitors and the realms.
abbrev pub shown_fields : ℕ → Bool → List ℕ
shown_fields which for_config =
    if which == 0
    then 3 ∷ 5 ∷ 7 ∷ []
    else if which == 2
    then 1 ∷ 2 ∷ 3 ∷ 4 ∷ 5 ∷ 7 ∷ 8 ∷ 9 ∷ 10 ∷ 11 ∷ 12 ∷ 13 ∷ 14 ∷ 15 ∷ []
    else if which == 3
    then (if for_config
        then 0 ∷ 1 ∷ 2 ∷ 3 ∷ 4 ∷ 5 ∷ 6 ∷ 7 ∷ 8 ∷ 9 ∷ 10 ∷ 11 ∷ 13 ∷ []
        else 0 ∷ 1 ∷ 2 ∷ 3 ∷ 4 ∷ 5 ∷ 6 ∷ 7 ∷ 8 ∷ 9 ∷ 10 ∷ 11 ∷ [])
    else if which == 4
    then 1 ∷ 5 ∷ 6 ∷ 7 ∷ 11 ∷ []
    else if which == 5
    then 1 ∷ 3 ∷ 4 ∷ 5 ∷ 6 ∷ 7 ∷ 11 ∷ []
    else if which == 6
    then 0 ∷ 1 ∷ 3 ∷ 4 ∷ 6 ∷ 8 ∷ 9 ∷ 12 ∷ 13 ∷ 15 ∷ []
    else if which == 7
    then 0 ∷ 1 ∷ 4 ∷ 5 ∷ 7 ∷ 12 ∷ 14 ∷ 15 ∷ []
    else if which == 8
    then 0 ∷ 6 ∷ 8 ∷ []
    else []

-- What stands in field 0 of the two registers that are given a value of their own there: the version
-- of the debug architecture, and the address range.
abbrev pub own_field : ℕ → ℕ → ℕ
own_field parange which = if which == 0 then 6 else if which == 4 then parange else 0

-- Whether a mask is the one of these fields, below bit `n`.
agrees : ℕ → ℕ → List ℕ → Bool
agrees zero m fields = true
agrees (suc n) m fields = bit_at m n == (if among fields (n / 4) then 1 else 0) && agrees n m fields
