-- ===== src/Vcpu/Stage1/Laws.antt =====
-- The walk ends, and what it answers is a fault or a page of the address space.
use open_hypervisor.Base.{
  ℕ, zero, suc, ◌+◌, ◌-◌, ◌≡◌, ◌≢◌, ◌≤◌, inl, inr, sym, ◌∙◌, none, some, List, bit_and, arith,
  Option-cases,
}
use open_hypervisor.Context.{Ctx}
use open_hypervisor.Host.{MapRecord}
use open_hypervisor.Vcpu.Stage1.{
  start_level, entry_address, address_field, page_aligned, entry_word, walk, ohv_translate_stage1,
  walk_from, granule_of, va_bits_of, ttbr_of,
}

start_level-le : (level r lb vb : ℕ) → start_level level r lb vb ≤ level
unfolding start_level
start_level-le zero r lb vb = omega arith
start_level-le (suc level) r lb vb = ground (arith, start_level-le level (r + lb) lb vb)

module _ (memory : ℕ → ℕ) (maps : List MapRecord) where
  -- From level `level` on, `4 - level` rounds are enough, and more change nothing.
  walk_enough :
      (fuel fuel' pb vb va level table : ℕ)
      → level ≤ 3
      → 4 ≤ fuel + level
      → 4 ≤ fuel' + level
      → (walk memory maps fuel pb vb va level table ≢ none)
        × (walk memory maps fuel pb vb va level table ≡ walk memory maps fuel' pb vb va level table)
  unfolding walk
  walk_enough zero fuel' pb vb va level table le enough enough' = absurd (omega arith)
  walk_enough (suc fuel) zero pb vb va level table le enough enough' = absurd (omega arith)
  walk_enough (suc fuel) (suc fuel') pb vb va level table le enough enough' =
      elim (Option-cases (entry_word memory maps (entry_address pb vb va level table))) [
        | inl e ↦ ground arith
        | inr (desc, e) ↦
            let next = page_aligned pb (address_field desc) in
            ground (arith, walk_enough fuel fuel' pb vb va (level + 1) next)
      ]

  walk_from_enough :
      (fuel fuel' pb vb va ttbr : ℕ)
      → 4 ≤ fuel
      → 4 ≤ fuel'
      → (walk_from memory maps fuel pb vb va ttbr ≢ none)
        × (walk_from memory maps fuel pb vb va ttbr ≡ walk_from memory maps fuel' pb vb va ttbr)
  unfolding walk_from
  walk_from_enough fuel fuel' pb vb va ttbr enough enough' =
      let level = start_level 3 pb (pb - 3) vb in
      let table = page_aligned pb (bit_and ttbr 0x0000fffffffffffe) in
      ground (
        arith,
        walk_enough fuel fuel' pb vb va level table (start_level-le 3 pb (pb - 3) vb) (omega arith)
            (omega arith),
      )

  translate_enough :
      (fuel fuel' : ℕ) (c : Ctx) (va : ℕ)
      → 4 ≤ fuel
      → 4 ≤ fuel'
      → (ohv_translate_stage1 memory maps fuel c va ≢ none)
        × (ohv_translate_stage1 memory maps fuel c va ≡ ohv_translate_stage1 memory maps fuel' c va)
  unfolding ohv_translate_stage1
  translate_enough fuel fuel' c va enough enough' = elim (Option-cases (granule_of c va)) [
    | inl e ↦ ground arith
    | inr (pb, e) ↦
        ground
          (arith, walk_from_enough fuel fuel' pb (va_bits_of c va) va (ttbr_of c va) enough enough')
  ]

  -- The walk of the guest's tables ends within four rounds, one for each level, whatever the tables
  -- hold; with any more rounds the answer is the same.
  pub translate_stage1-terminates :
      (fuel : ℕ) (c : Ctx) (va : ℕ)
      → 4 ≤ fuel
      → (r : ℕ) × (ohv_translate_stage1 memory maps fuel c va ≡ some r)
        × (ohv_translate_stage1 memory maps 4 c va ≡ some r)
  translate_stage1-terminates fuel c va enough =
      let (ends, same) = translate_enough fuel 4 c va enough (omega arith) in
      elim (Option-cases (ohv_translate_stage1 memory maps fuel c va)) [
        | inl e ↦ absurd (ends e)
        | inr (r, e) ↦ (r, e, sym same ∙ e)
      ]
