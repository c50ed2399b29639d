-- ===== src/Vcpu/Stage1/Walk.antt =====
-- The code's walk finds the translation that the tables define, and finds it whenever there is one.
use open_hypervisor.Base.{
  ℕ, zero, suc, ◌+◌, ◌-◌, ◌*◌, ◌/◌, ◌%◌, ◌^◌, ◌≡◌, ◌≢◌, ◌≤◌, ◌<◌, ◌⊎◌, inl, inr, sym, ap, ◌∙◌, ◌||◌,
  Option, none, some, List, arith, ◌==◌, if◌then◌else◌, Option-cases, Bool-cases,
}
use open_hypervisor.Base.Bits.{bit_and_low}
use open_hypervisor.Context.{Ctx, load64}
use native.Mathlib.Nat.{mul-le-mul_right}
use open_hypervisor.Host.{MapRecord}
use open_hypervisor.Vcpu.Stage1.{
  par_fault, shift_of, entry_word, walk, walk_from, ohv_translate_stage1, banked,
}
use open_hypervisor.Vcpu.Stage1.Tables.{
  low_bits, in_upper_half, granule_field, address_size, Granule, root_level, root_table,
  granule_of-Granule, va_bits_of_lem, start_level_lem, root_table_lem, entry_at, base_of,
  Translates, leaf, next, entry_address_lem, rounded_lem, leaf_address_lem,
}

-- One round, in the terms of the tables.
abbrev decide : (ℕ → ℕ → Option ℕ) → (pb va level : ℕ) → Option ℕ → Option ℕ
decide rest pb va level none = some par_fault
decide rest pb va level (some desc) =
    if desc % 2 == 0
    then some par_fault
    else if desc % 4 == 1 || level == 3
    then some (base_of (low_bits pb level) desc + va % 2 ^ low_bits pb level / 4096 * 4096)
    else rest (level + 1) (base_of pb desc)

shift-ge : (pb level : ℕ) → 12 ≤ pb → 12 ≤ low_bits pb level
shift-ge pb level ge = omega arith

shift-next : (pb level : ℕ) → low_bits pb (level + 1) ≤ low_bits pb level
shift-next pb level =
    let fewer : 3 - (level + 1) ≤ 3 - level = omega arith in
    omega (arith, mul-le-mul_right (pb - 3) fewer)

module _ (memory : ℕ → ℕ) (maps : List MapRecord) (pb vb va : ℕ) (ge : 12 ≤ pb)
    (pages : pb ≤ 16) where
  walk_round :
      (fuel level table : ℕ)
      → level ≤ 3
      → low_bits pb level ≤ 48
      → walk memory maps (suc fuel) pb vb va level table
        ≡ decide
            (λ l t. walk memory maps fuel pb vb va l t)
            pb
            va
            level
            (entry_word memory maps (entry_at pb vb va level table))
  unfolding walk shift_of
  walk_round fuel level table le fits =
      let at = ap (entry_word memory maps) (entry_address_lem pb vb va level table) in
      elim (Option-cases (entry_word memory maps (entry_at pb vb va level table))) [
        | inl e ↦ ground (arith, at)
        | inr (desc, e) ↦ ground (
          arith,
          at,
          bit_and_low 1 desc,
          bit_and_low 2 desc,
          leaf_address_lem (low_bits pb level) desc va (shift-ge pb level ge) fits,
          ap (λ (t : ℕ). walk memory maps fuel pb vb va (level + 1) t)
              (rounded_lem pb desc ge (omega arith)),
        )
      ]

  -- An answer that is no fault is the page that the tables give.
  walk_sound :
      (fuel level table pa : ℕ)
      → level ≤ 3
      → low_bits pb level ≤ 48
      → walk memory maps fuel pb vb va level table ≡ some pa
      → pa ≢ par_fault
      → Translates memory maps pb vb va level table pa
  unfolding walk
  walk_sound zero level table pa le fits e ok = absurd (ground (arith, e))
  walk_sound (suc fuel) level table pa le fits e ok =
      let e' = sym (walk_round fuel level table le fits) ∙ e in
      elim (Option-cases (entry_word memory maps (entry_at pb vb va level table))) [
        | inl none_there ↦ absurd (ok (ground (arith, e', none_there)))
        | inr (desc, there) ↦
            let step = decide (λ l t. walk memory maps fuel pb vb va l t) pb va level in
            let here : step (some desc) ≡ some pa = sym (ap step there) ∙ e' in
            elim (Bool-cases (desc % 4 == 1 || level == 3)) [
              | inl last ↦
                  let odd : desc % 2 ≡ 1 = ground (arith, here) in
                  let kind : (desc % 4 ≡ 1) ⊎ (level ≡ 3) = ground arith in
                  let page : base_of (low_bits pb level) desc
                        + va % 2 ^ low_bits pb level / 4096 * 4096
                      ≡ pa =
                    ground (arith, here) in
                  rw (← page) (leaf level table desc there odd kind)
              | inr inner ↦
                  let table_entry : desc % 4 ≡ 3 = ground (arith, here) in
                  let below : level < 3 = ground arith in
                  let onward : walk memory maps fuel pb vb va (level + 1) (base_of pb desc)
                      ≡ some pa =
                    ground (arith, here) in
                  next level table desc pa there table_entry below (
                    walk_sound fuel (level + 1) (base_of pb desc) pa (omega arith)
                      (omega (arith, shift-next pb level)) onward ok)
            ]
      ]

  -- A page that the tables give is the answer, with a round left for each level.
  walk_complete :
      (fuel level table pa : ℕ)
      → level ≤ 3
      → 4 ≤ fuel + level
      → low_bits pb level ≤ 48
      → Translates memory maps pb vb va level table pa
      → walk memory maps fuel pb vb va level table ≡ some pa
  walk_complete zero level table pa le enough fits t = absurd (omega arith)
  walk_complete (suc fuel) _ _ _ le enough fits (leaf level table desc there odd kind) =
      ground (arith, walk_round fuel level table le fits, there)
  walk_complete (suc fuel) _ _ _ le enough fits
        (next level table desc pa there table_entry below rest) =
      ground (
        arith,
        walk_round fuel level table le fits,
        there,
        walk_complete fuel (level + 1) (base_of pb desc) pa (omega arith) (omega arith)
            (omega (arith, shift-next pb level)) rest,
      )

module _ (memory : ℕ → ℕ) (maps : List MapRecord) where
  -- With translation on, an address size of `vb` bits and a granule of `pb` bits, the code's walk from
  -- the code's root is one from the root that the registers define.
  rooted :
      (fuel : ℕ) (c : Ctx) (va pb : ℕ)
      → load64 c (banked 12) % 2 ≡ 1
      → Granule (in_upper_half va) (granule_field c va) pb
      → pb ≤ address_size c va
      → address_size c va ≤ 52
      → let vb = address_size c va in
        ohv_translate_stage1 memory maps fuel c va
        ≡ walk memory maps fuel pb vb va (root_level pb vb) (root_table c va pb)
  unfolding ohv_translate_stage1 walk_from
  rooted fuel c va pb on granule le lt =
      let vb = address_size c va in
      let (found, sizes) = granule_of-Granule c va pb granule in
      let on' = bit_and_low 1 (load64 c (banked 12)) in
      let start = start_level_lem pb vb sizes le lt in
      let table = root_table_lem c va pb (ground arith) (ground arith) in
      rw (found, va_bits_of_lem c va, table, start.0) (ground (arith, on'))

  -- A walk of other sizes faults.
  in_range :
      (fuel : ℕ) (c : Ctx) (va pb pa : ℕ)
      → load64 c (banked 12) % 2 ≡ 1
      → Granule (in_upper_half va) (granule_field c va) pb
      → ohv_translate_stage1 memory maps fuel c va ≡ some pa
      → pa ≢ par_fault
      → (pb ≤ address_size c va) × (address_size c va ≤ 52)
  unfolding ohv_translate_stage1 walk_from
  in_range fuel c va pb pa on granule e ok = ground (
    arith,
    granule_of-Granule c va pb granule,
    va_bits_of_lem c va,
    bit_and_low 1 (load64 c (banked 12)),
  )

  -- With translation on and a granule that TCR_EL1 spells for the address's half, an answer other than
  -- a fault is the page that the tables give for the address: the code follows table entries down to
  -- a block or a page, from the base register of that half and from the level that the size of the
  -- addresses calls for.
  pub translate_stage1_sound :
      (c : Ctx) (va pb pa : ℕ)
      → load64 c (banked 12) % 2 ≡ 1
      → Granule (in_upper_half va) (granule_field c va) pb
      → ohv_translate_stage1 memory maps 4 c va ≡ some pa
      → pa ≢ par_fault
      → let vb = address_size c va in
        Translates memory maps pb vb va (root_level pb vb) (root_table c va pb) pa
  translate_stage1_sound c va pb pa on granule e ok =
      let vb = address_size c va in
      let (le, lt) = in_range 4 c va pb pa on granule e ok in
      let (_, sizes) = granule_of-Granule c va pb granule in
      let (_, top, small) = start_level_lem pb vb sizes le lt in
      walk_sound memory maps pb vb va (ground arith) (ground arith) 4 (root_level pb vb)
        (root_table c va pb) pa top small (sym (rooted 4 c va pb on granule le lt) ∙ e) ok

  -- The other way around: where the tables give a page for the address, with translation on, a
  -- granule that TCR_EL1 spells for the address's half and an address size from one page to 52 bits,
  -- that page is the answer.
  pub translate_stage1_complete :
      (c : Ctx) (va pb pa : ℕ)
      → load64 c (banked 12) % 2 ≡ 1
      → Granule (in_upper_half va) (granule_field c va) pb
      → pb ≤ address_size c va
      → address_size c va ≤ 52
      → let vb = address_size c va in
        Translates memory maps pb vb va (root_level pb vb) (root_table c va pb) pa
        → ohv_translate_stage1 memory maps 4 c va ≡ some pa
  translate_stage1_complete c va pb pa on granule le lt t =
      let vb = address_size c va in
      let (_, sizes) = granule_of-Granule c va pb granule in
      let (_, top, small) = start_level_lem pb vb sizes le lt in
      rooted 4 c va pb on granule le lt
      ∙ walk_complete memory maps pb vb va (ground arith) (ground arith) 4 (root_level pb vb)
          (root_table c va pb) pa top (omega arith) small t
