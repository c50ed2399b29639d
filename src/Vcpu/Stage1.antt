-- ===== src/Vcpu/Stage1.antt =====
-- The walk of the guest's own translation tables (`ohv_translate_stage1`, src/ohv_vcpu.cpp). What
-- stands in host memory, where the tables are read, is a parameter.
pub mod Laws
pub mod Tables
pub mod Walk
use open_hypervisor.Base.{
  ℕ, zero, suc, ◌+◌, ◌-◌, ◌*◌, ◌/◌, ◌%◌, ◌^◌, Bool, true, false, not, ◌&&◌, ◌||◌, Option, none,
  some, List, bit_and, bit_or, ltb, leb, ◌==◌, if◌then◌else◌,
}
use open_hypervisor.Base.Bits.{not64}
use open_hypervisor.Context.{Ctx, load64}
use open_hypervisor.Context.Rw
use open_hypervisor.Host.{MapRecord}
use open_hypervisor.Vm.Maps.{guest_ptr}

abbrev pub par_fault : ℕ
par_fault = 1

-- A register of the banked block.
abbrev pub banked : ℕ → ℕ
banked n = Rw.banked_sysregs + n * 8

-- The granule that TCR_EL1 spells, for the lower and for the upper half.
unfoldable pub page_bits_of : Bool → ℕ → Option ℕ
page_bits_of upper tg =
    if upper
    then (if tg == 1
        then some 14
        else if tg == 2
        then some 12
        else if tg == 3
        then some 16
        else none)
    else if tg == 0
    then some 12
    else if tg == 1
    then some 16
    else if tg == 2
    then some 14
    else none

abbrev pub is_upper : ℕ → Bool
is_upper va = not (va / 2 ^ 63 == 0)

-- `va_bits`, out of `tsz`.
unfoldable pub va_bits_of : Ctx → ℕ → ℕ
va_bits_of c va =
    let tcr = load64 c (banked 2) in
    64 - (if is_upper va then bit_and (tcr / 2 ^ 16) 0x3f else bit_and tcr 0x3f)

unfoldable pub granule_of : Ctx → ℕ → Option ℕ
granule_of c va =
    let tcr = load64 c (banked 2) in
    page_bits_of (is_upper va)
      (if is_upper va then bit_and (tcr / 2 ^ 30) 3 else bit_and (tcr / 2 ^ 14) 3)

-- The table base register of the half that the address lies in.
unfoldable pub ttbr_of : Ctx → ℕ → ℕ
ttbr_of c va = if is_upper va then load64 c (banked 1) else load64 c (banked 0)

-- `while (level > 0 && resolved + level_bits < va_bits) { resolved += level_bits; level--; }`
unfoldable pub start_level : ℕ → ℕ → ℕ → ℕ → ℕ
start_level zero resolved level_bits va_bits = zero
start_level (suc level) resolved level_bits va_bits =
    let rest = start_level level (resolved + level_bits) level_bits va_bits in
    if ltb (resolved + level_bits) va_bits then rest else suc level

unfoldable pub shift_of : ℕ → ℕ → ℕ
shift_of page_bits level = page_bits + (3 - level) * (page_bits - 3)

-- `table + index * 8`, which stays below 2 ^ 64 as a table's address does below 2 ^ 48.
unfoldable pub entry_address : ℕ → ℕ → ℕ → ℕ → ℕ → ℕ
entry_address page_bits va_bits va level table =
    let level_bits = page_bits - 3 in
    let shift = shift_of page_bits level in
    let bits = if ltb va_bits (shift + level_bits) then va_bits - shift else level_bits in
    table + bit_and (va / 2 ^ shift) (2 ^ bits - 1) * 8

abbrev pub address_field : ℕ → ℕ
address_field desc = bit_and desc 0x0000fffffffff000

-- The answer of a block or a page.
unfoldable pub leaf_address : ℕ → ℕ → ℕ → ℕ
leaf_address shift desc va =
    let mask = 2 ^ shift - 1 in
    bit_or (bit_and (address_field desc) (not64 mask))
      (bit_and (bit_and va mask) 0x0000fffffffff000)

-- `x & ~((1ull << page_bits) - 1)`.
abbrev pub page_aligned : ℕ → ℕ → ℕ
page_aligned page_bits x = bit_and x (not64 (2 ^ page_bits - 1))

module _ (memory : ℕ → ℕ) (maps : List MapRecord) where
  -- The eight bytes of a table entry, if the guest's memory holds it: `if (!entry)`.
  unfoldable pub entry_word : ℕ → Option ℕ
  entry_word address = elim (guest_ptr maps address 8) [
    | none ↦ none
    | some p ↦ if p == 0 then none else some (memory p)
  ]

  -- `for (;;)`, with `fuel` rounds; `none` is a loop that is still going.
  unfoldable pub walk : ℕ → ℕ → ℕ → ℕ → ℕ → ℕ → Option ℕ
  walk zero page_bits va_bits va level table = none
  walk (suc fuel) page_bits va_bits va level table =
      elim (entry_word (entry_address page_bits va_bits va level table)) [
        | none ↦ some par_fault
        | some desc ↦
            let rest =
              walk fuel page_bits va_bits va (level + 1)
                (page_aligned page_bits (address_field desc)) in
            if bit_and desc 1 == 0
            then some par_fault
            else if bit_and desc 3 == 1 || level == 3
            then some (leaf_address (shift_of page_bits level) desc va)
            else if ltb 3 (level + 1)
            then some par_fault
            else rest
      ]

  -- From the start of the walk on, with the granule found.
  unfoldable pub walk_from : ℕ → ℕ → ℕ → ℕ → ℕ → Option ℕ
  walk_from fuel page_bits va_bits va ttbr =
      if ltb va_bits page_bits || ltb 52 va_bits
      then some par_fault
      else walk fuel page_bits va_bits va (start_level 3 page_bits (page_bits - 3) va_bits)
          (page_aligned page_bits (bit_and ttbr 0x0000fffffffffffe))

  unfoldable pub ohv_translate_stage1 : ℕ → Ctx → ℕ → Option ℕ
  ohv_translate_stage1 fuel c va =
      if bit_and (load64 c (banked 12)) 1 == 0
      then some (bit_and va 0x0000fffffffff000)
      else elim (granule_of c va) [
        | none ↦ some par_fault
        | some page_bits ↦ walk_from fuel page_bits (va_bits_of c va) va (ttbr_of c va)
      ]
