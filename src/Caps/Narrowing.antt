-- ===== src/Caps/Narrowing.antt =====
-- What is left of the host's identification registers (`parange_field`, `ohv_id_reg_for`,
-- src/ohv_misc.cpp).
pub mod Fields
pub mod Laws
use open_hypervisor.Base.{ℕ, ◌^◌, Bool, bit_and, bit_or, ltb, leb, ◌==◌, if◌then◌else◌}
use open_hypervisor.Caps.Block.{Capabilities}

-- PARange for an address size of `bits`.
unfoldable pub parange_field : ℕ → ℕ
parange_field bits =
    if leb 52 bits
    then 6
    else if leb 48 bits
    then 5
    else if leb 44 bits
    then 4
    else if leb 42 bits
    then 3
    else if leb 40 bits
    then 2
    else if leb 36 bits
    then 1
    else 0

unfoldable pub smfr0 : ℕ → ℕ
smfr0 raw =
    if ltb 0x0200000000000000 (bit_and raw 0x0f00000000000000)
    then bit_or (bit_and raw 0x90f1ffff70000000) (2 ^ 57)
    else bit_and raw 0x9ff1ffff70000000

unfoldable pub zfr0 : ℕ → ℕ
zfr0 raw =
    if leb (bit_and raw 0xf) 2
    then bit_and raw 0x0ff0ff0f0fff00ff
    else bit_or (bit_and raw 0x0ff0ff0f0fff00f0) 2

-- `ohv_id_reg_for`, with the answer of `parange_field`.
unfoldable pub id_reg_value : Capabilities → ℕ → ℕ → Bool → ℕ
id_reg_value c parange which for_config =
    if which == 3
    then bit_and c.id_aa64isar1_el1 (if for_config then 0x00f0ffffffffffff else 0x0000ffffffffffff)
    else if which == 0
    then bit_or (bit_and c.id_aa64dfr0_el1 0xf0f0f000) 6
    else if which == 2
    then bit_and c.id_aa64isar0_el1 0xfffffffff0fffff0
    else if which == 4
    then bit_or (bit_and c.id_aa64mmfr0_el1 0x0000f000fff000f0) parange
    else if which == 5
    then bit_and c.id_aa64mmfr1_el1 0x0000f000fffff0f0
    else if which == 6
    then bit_and c.id_aa64mmfr2_el1 0xf0ff00ff0f0ff0ff
    else if which == 7
    then bit_and c.id_aa64pfr0_el1 0xff0f0000f0ff00ff
    else if which == 8
    then bit_and c.id_aa64pfr1_el1 0x0000000f0f00000f
    else if which == 9
    then c.ctr_el0
    else if which == 10
    then c.clidr_el1
    else if which == 11
    then c.dczid_el0
    else if which == 12
    then smfr0 c.id_aa64smfr0_el1
    else if which == 13
    then zfr0 c.id_aa64zfr0_el1
    else 0
