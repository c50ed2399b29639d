-- ===== src/Vcpu/Stage1/Tables.antt =====
-- What a walk means: the translation that the tables define, in plain arithmetic, and what the
-- code's shifts and masks come to.
use open_hypervisor.Base.{
  ℕ, ◌+◌, ◌-◌, ◌*◌, ◌/◌, ◌%◌, ◌^◌, ◌≡◌, ◌≤◌, ◌<◌, ◌⊎◌, ap, ◌∙◌, some, List, bit_and, bit_or, ltb,
  leb, arith, if◌then◌else◌, Bool, true, false, inl, inr, refl,
}
use open_hypervisor.Base.Bits.{
  bit_and_low, bit_and_shifted, bit_and_high, bit_or_disjoint, div_rounded, not64,
}
use Prim.Native.Nat.{min}
use native.Mathlib.Nat.{mod-lt, one-le-pow, pow-le-pow_right}
use open_hypervisor.Host.{MapRecord}
use open_hypervisor.Context.{Ctx, load64}
use open_hypervisor.Vcpu.Stage1.{
  banked, is_upper, page_bits_of, granule_of, va_bits_of, ttbr_of, start_level, page_aligned,
  shift_of, entry_address, leaf_address, address_field, entry_word,
}

-- What TCR_EL1 and the two base registers say of an address: its half, the granule that the field of
-- that half spells, the size of the addresses and the table to start from.
abbrev pub in_upper_half : ℕ → Bool
in_upper_half va = leb (2 ^ 63) va

abbrev pub granule_field : Ctx → ℕ → ℕ
granule_field c va =
    if in_upper_half va then load64 c (banked 2) / 2 ^ 30 % 4 else load64 c (banked 2) / 2 ^ 14 % 4

abbrev pub address_size : Ctx → ℕ → ℕ
address_size c va =
    64 - (if in_upper_half va then load64 c (banked 2) / 2 ^ 16 % 64 else load64 c (banked 2) % 64)

-- `Granule upper field bits`: the encodings of TG0 and TG1, each half with its own.
pub data Granule : Bool → ℕ → ℕ → Type 0 where
  lower_4k : Granule false 0 12
  lower_64k : Granule false 1 16
  lower_16k : Granule false 2 14
  upper_16k : Granule true 1 14
  upper_4k : Granule true 2 12
  upper_64k : Granule true 3 16

-- The bits of an address that levels below `level` and the page take.
abbrev pub low_bits : ℕ → ℕ → ℕ
low_bits pb level = pb + (3 - level) * (pb - 3)

-- Addresses of `vb` bits need `(vb - 4) / (pb - 3)` levels, which is the ceiling of
-- `(vb - pb) / (pb - 3)`; at least one and at most four are walked, the last of them level 3.
abbrev pub root_level : ℕ → ℕ → ℕ
root_level pb vb = min 3 (4 - (vb - 4) / (pb - 3))

-- The bits of the address that pick an entry at a level, and the entry's place.
abbrev pub index_bits : ℕ → ℕ → ℕ → ℕ
index_bits pb vb level =
    if ltb vb (low_bits pb level + (pb - 3)) then vb - low_bits pb level else pb - 3

abbrev pub entry_at : ℕ → ℕ → ℕ → ℕ → ℕ → ℕ
entry_at pb vb va level table = table + va / 2 ^ low_bits pb level % 2 ^ index_bits pb vb level * 8

-- The address in a descriptor, rounded down to a multiple of `2 ^ shift`.
abbrev pub base_of : ℕ → ℕ → ℕ
base_of shift desc = desc % 2 ^ 48 / 2 ^ shift * 2 ^ shift

-- TTBR1_EL1 for the upper half and TTBR0_EL1 for the lower, without the ASID and the bits below the
-- granule.
abbrev pub root_table : Ctx → ℕ → ℕ → ℕ
root_table c va pb = base_of pb (load64 c (banked (if in_upper_half va then 1 else 0)))

-- `Translates level table pa`: from the table of that level, `va` is at the page `pa`. A leaf is a
-- block, or any valid entry of the last level; the others that are valid lead to the next table.
pub data Translates (memory : ℕ → ℕ) (maps : List MapRecord) (pb vb va : ℕ)
    : ℕ → ℕ → ℕ → Type 0 where
  leaf :
      (level table desc : ℕ)
      → entry_word memory maps (entry_at pb vb va level table) ≡ some desc
      → desc % 2 ≡ 1
      → (desc % 4 ≡ 1) ⊎ (level ≡ 3)
      → Translates memory maps pb vb va level table
          (base_of (low_bits pb level) desc + va % 2 ^ low_bits pb level / 4096 * 4096)
  next :
      (level table desc pa : ℕ)
      → entry_word memory maps (entry_at pb vb va level table) ≡ some desc
      → desc % 4 ≡ 3
      → level < 3
      → Translates memory maps pb vb va (level + 1) (base_of pb desc) pa
      → Translates memory maps pb vb va level table pa

pub entry_address_lem :
    (pb vb va level table : ℕ) → entry_address pb vb va level table ≡ entry_at pb vb va level table
unfolding entry_address shift_of
entry_address_lem pb vb va level table =
    omega (arith, bit_and_low (index_bits pb vb level) (va / 2 ^ low_bits pb level))

field_lem : (desc : ℕ) → address_field desc ≡ desc % 2 ^ 48 / 4096 * 4096
field_lem desc = omega (arith, bit_and_shifted 12 desc 0xfffffffff, bit_and_low 36 (desc / 2 ^ 12))

-- The address field, rounded down by a mask.
pub rounded_lem :
    (k desc : ℕ)
    → 12 ≤ k
    → k ≤ 48
    → bit_and (address_field desc) (not64 (2 ^ k - 1)) ≡ base_of k desc
rounded_lem k desc ge le =
    let field : address_field desc ≡ desc % 2 ^ 48 / 2 ^ 12 * 2 ^ 12 = field_lem desc in
    bit_and_high k 64 (address_field desc) (omega arith) (omega (arith, field))
    ∙ ap (λ (t : ℕ). t * 2 ^ k)
        (ap (λ (t : ℕ). t / 2 ^ k) field ∙ div_rounded 12 k (desc % 2 ^ 48) ge)

pub leaf_address_lem :
    (shift desc va : ℕ)
    → 12 ≤ shift
    → shift ≤ 48
    → leaf_address shift desc va ≡ base_of shift desc + va % 2 ^ shift / 4096 * 4096
unfolding leaf_address
leaf_address_lem shift desc va ge le =
    let low = va % 2 ^ shift in
    let low_lt : low < 2 ^ shift = mod-lt va (one-le-pow shift 2 (omega arith)) in
    let small : 2 ^ shift ≤ 2 ^ 48 = pow-le-pow_right (omega arith) le in
    let page : bit_and low 0x0000fffffffff000 ≡ low / 4096 * 4096 = omega (arith, field_lem low) in
    let offset : bit_and (bit_and va (2 ^ shift - 1)) 0x0000fffffffff000 ≡ low / 4096 * 4096 =
      ap (λ (t : ℕ). bit_and t 0x0000fffffffff000) (bit_and_low shift va) ∙ page in
    ap (λ (t : ℕ). bit_or t (bit_and (bit_and va (2 ^ shift - 1)) 0x0000fffffffff000))
      (rounded_lem shift desc ge le)
    ∙ (ap (bit_or (base_of shift desc)) offset
        ∙ bit_or_disjoint shift (desc % 2 ^ 48 / 2 ^ shift) (low / 4096 * 4096) (omega arith))

-- The code's fields are those of the registers.
page_bits_of-Granule :
    (upper : Bool) (field pb : ℕ)
    → Granule upper field pb
    → (page_bits_of upper field ≡ some pb) × ((pb ≡ 12) ⊎ ((pb ≡ 14) ⊎ (pb ≡ 16)))
unfolding page_bits_of
page_bits_of-Granule _ _ _ lower_4k = (refl, inl refl)
page_bits_of-Granule _ _ _ lower_64k = (refl, inr (inr refl))
page_bits_of-Granule _ _ _ lower_16k = (refl, inr (inl refl))
page_bits_of-Granule _ _ _ upper_16k = (refl, inr (inl refl))
page_bits_of-Granule _ _ _ upper_4k = (refl, inl refl)
page_bits_of-Granule _ _ _ upper_64k = (refl, inr (inr refl))

is_upper_lem : (va : ℕ) → is_upper va ≡ in_upper_half va
is_upper_lem va = ground arith

pub granule_of-Granule :
    (c : Ctx) (va pb : ℕ)
    → Granule (in_upper_half va) (granule_field c va) pb
    → (granule_of c va ≡ some pb) × ((pb ≡ 12) ⊎ ((pb ≡ 14) ⊎ (pb ≡ 16)))
unfolding granule_of
granule_of-Granule c va pb g =
    let tcr = load64 c (banked 2) in
    ground (
      arith,
      page_bits_of-Granule (in_upper_half va) (granule_field c va) pb g,
      is_upper_lem va,
      bit_and_low 2 (tcr / 2 ^ 30),
      bit_and_low 2 (tcr / 2 ^ 14),
    )

pub va_bits_of_lem : (c : Ctx) (va : ℕ) → va_bits_of c va ≡ address_size c va
unfolding va_bits_of
va_bits_of_lem c va =
    let tcr = load64 c (banked 2) in
    ground (arith, is_upper_lem va, bit_and_low 6 (tcr / 2 ^ 16), bit_and_low 6 tcr)

pub start_level_lem :
    (pb vb : ℕ)
    → (pb ≡ 12) ⊎ ((pb ≡ 14) ⊎ (pb ≡ 16))
    → pb ≤ vb
    → vb ≤ 52
    → (start_level 3 pb (pb - 3) vb ≡ root_level pb vb)
      × (root_level pb vb ≤ 3)
      × (low_bits pb (root_level pb vb) ≤ 48)
unfolding start_level
start_level_lem pb vb granule le lt = ground arith

base_register :
    (c : Ctx) (va : ℕ) → ttbr_of c va ≡ load64 c (banked (if in_upper_half va then 1 else 0))
unfolding ttbr_of
base_register c va = ground (arith, is_upper_lem va)

root_aligned :
    (pb ttbr : ℕ)
    → 12 ≤ pb
    → pb ≤ 16
    → page_aligned pb (bit_and ttbr 0x0000fffffffffffe) ≡ base_of pb ttbr
root_aligned pb ttbr ge le =
    let field : bit_and ttbr 0x0000fffffffffffe ≡ ttbr % 2 ^ 48 / 2 ^ 1 * 2 ^ 1 =
      omega (arith, bit_and_shifted 1 ttbr 0x00007fffffffffff, bit_and_low 47 (ttbr / 2 ^ 1)) in
    bit_and_high pb 64 (bit_and ttbr 0x0000fffffffffffe) (omega arith) (omega (arith, field))
    ∙ ap (λ (t : ℕ). t * 2 ^ pb)
        (ap (λ (t : ℕ). t / 2 ^ pb) field ∙ div_rounded 1 pb (ttbr % 2 ^ 48) (omega arith))

pub root_table_lem :
    (c : Ctx) (va pb : ℕ)
    → 12 ≤ pb
    → pb ≤ 16
    → page_aligned pb (bit_and (ttbr_of c va) 0x0000fffffffffffe) ≡ root_table c va pb
root_table_lem c va pb ge le =
    root_aligned pb (ttbr_of c va) ge le ∙ ap (base_of pb) (base_register c va)
