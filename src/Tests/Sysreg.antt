-- ===== src/Tests/Sysreg.antt =====
-- Runs of the system register calls and of the walk of the guest's tables.
use open_hypervisor.Base.{
  ℕ, ◌+◌, ◌≤◌, ◌≡◌, inl, inr, refl, ap, Bool-cases, true, false, some, List, [], ◌∷◌, arith, ◌==◌,
  if◌then◌else◌,
}
use open_hypervisor.Base.Bits.{bit_at, bit_at_zero}
use open_hypervisor.Context.{Ctx, load64}
use open_hypervisor.Context.Rw
use open_hypervisor.Context.State
use open_hypervisor.Context.Laws.{Apart}
use open_hypervisor.Hv.{hv_success, ok}
use open_hypervisor.Host.{owned_vcpu, find_vcpu}
use open_hypervisor.Tests.Fixtures.{blank-IsCtx, slot, running, granting, one_map}
use open_hypervisor.Vm.Kernel.{Request, Trap, recording}
use open_hypervisor.Vm.Maps.{guest_ptr}
use open_hypervisor.Vcpu.Environment.{default_environment}
use open_hypervisor.Sysreg.{SysRegDesc, desc}
use open_hypervisor.Sysreg.Lookup.{scan, sysreg_lookup, sysreg_lookup_apple, select_case}
use open_hypervisor.Sysreg.Lookup.Laws.{all_rows, sysreg_lookup_lem}
use open_hypervisor.Caps.Block.{Capabilities, zero_capabilities}
use open_hypervisor.Caps.Queries.{VcpuConfig}
use open_hypervisor.Vcpu.Sysreg.{
  place_of, wants_sync, needed_state, sysreg_access, access_slot, sync_slot, hv_vcpu_get_sys_reg,
  hv_vcpu_set_sys_reg,
}
use open_hypervisor.Vcpu.Sysreg.Words.{words-Apart}
use open_hypervisor.Vcpu.Sysreg.Laws.Places.{IsCurrent}
use open_hypervisor.Vcpu.Sysreg.Laws.Access.{get_sys_reg-set, get_sys_reg-set_other}
use open_hypervisor.Vcpu.Sysreg.Laws.Dirty.{set_sys_reg-dirty}
use open_hypervisor.Vcpu.Stage1.{
  ohv_translate_stage1, granule_of, page_bits_of, va_bits_of, ttbr_of, walk_from, walk, entry_word,
  entry_address, leaf_address, shift_of, start_level,
}
use open_hypervisor.Vcpu.Stage1.Tables.{Translates, leaf, lower_4k}
use open_hypervisor.Vcpu.Stage1.Laws.{translate_stage1-terminates}
use open_hypervisor.Vcpu.Stage1.Walk.{translate_stage1_sound, translate_stage1_complete}

abbrev block : List Request → Capabilities
block _ = zero_capabilities

abbrev refresh : List Request → Ctx → Ctx
refresh _ c = c

abbrev vbar_row : SysRegDesc
vbar_row = desc 0xc600 1 8 State.sysregs true

abbrev tcr_row : SysRegDesc
tcr_row = desc 0xc102 1 2 State.sysregs true

sysreg_lookup_lem_example : sysreg_lookup 0xc600 ≡ scan all_rows 0xc600
sysreg_lookup_lem_example = sysreg_lookup_lem 0xc600

words-Apart_example : Apart 0x3f8 0x3c8 × (0x3f8 + 8 ≤ 0x4000) × Apart Rw.state_dirty 0x3f8
unfolding sysreg_lookup sysreg_lookup_apple scan select_case place_of
words-Apart_example =
    words-Apart 0xc600 0xc102 0x3f8 0x3c8 vbar_row tcr_row refl refl refl refl (omega arith)

-- A kernel that fills the pages with what the machine holds, all zero here, unless something waits to
-- be carried into it.
abbrev filling : List Request → Ctx → Ctx
filling _ c = if load64 c Rw.state_dirty == 0 then (λ _. 0) else c

filling-zero : (c : Ctx) (off : ℕ) → load64 c off ≡ 0 → load64 (filling [] c) off ≡ 0
unfolding load64
filling-zero c off zero_there = ground arith

filling-kept :
    (c : Ctx) (off : ℕ)
    → ((j : ℕ) → bit_at State.controls j ≤ bit_at (load64 c Rw.state_dirty) j)
    → load64 (filling [] c) off ≡ load64 c off
unfolding bit_at
filling-kept c off dirty = elim (Bool-cases (load64 c Rw.state_dirty == 0)) [
  | inl e ↦
      let none_set : load64 c Rw.state_dirty ≡ 0 = ground arith in
      absurd (omega (arith, dirty 2, ap (λ (w : ℕ). bit_at w 2) none_set, bit_at_zero 2))
  | inr e ↦ rw e refl
]

get_sys_reg-set_example :
    let (h1, k1, r) =
      hv_vcpu_set_sys_reg granting block filling default_environment running [] 0 0xe08a 1 in
    (r ≡ hv_success)
    × ((hv_vcpu_get_sys_reg granting block filling default_environment h1 k1 0 0xe08a true).2
        ≡ ok 0x300001)
unfolding sysreg_lookup sysreg_lookup_apple scan select_case place_of owned_vcpu find_vcpu
get_sys_reg-set_example =
    get_sys_reg-set granting block filling (λ k. refl) default_environment running [] 0 0xe08a 1
      (desc 0xe08a 6 294 State.controls false) slot (λ k c h i. ground (arith, h i))
      (λ k c off _ dirty. filling-kept c off dirty) (omega arith) (omega arith) refl refl
      blank-IsCtx refl refl refl

get_sys_reg-set_other_example :
    let (h1, k1, _) =
      hv_vcpu_set_sys_reg granting block filling default_environment running [] 0 0xc600 7 in
    (hv_vcpu_get_sys_reg granting block filling default_environment h1 k1 0 0xc102 true).2
    ≡ (hv_vcpu_get_sys_reg granting block filling default_environment running [] 0 0xc102 true).2
unfolding sysreg_lookup sysreg_lookup_apple scan select_case place_of owned_vcpu find_vcpu IsCurrent
    load64
get_sys_reg-set_other_example =
    get_sys_reg-set_other granting block filling (λ k. refl) default_environment running [] 0 0
      0xc600 0xc102 7 vbar_row tcr_row slot slot (omega arith) (omega arith) (omega arith) refl refl
      refl refl refl refl refl (λ k c same. filling-zero c 0x3c8 same) (inr (omega arith))

set_sys_reg-dirty_example :
    let (h1, _, _) =
      hv_vcpu_set_sys_reg granting block refresh default_environment running [] 0 0xc600 7 in
    bit_at State.sysregs 0 ≤ bit_at (load64 (h1.vcpus 0).ctx Rw.state_dirty) 0
unfolding sysreg_lookup sysreg_lookup_apple scan select_case place_of owned_vcpu find_vcpu
    hv_vcpu_set_sys_reg sysreg_access access_slot sync_slot wants_sync needed_state
set_sys_reg-dirty_example =
    set_sys_reg-dirty granting block refresh (λ k c h. h) default_environment running [] 0 0xc600 7
      0x3f8 0 vbar_row slot refl (omega arith) refl refl blank-IsCtx refl refl refl

-- A kernel that refuses everything.
abbrev refusing : Trap (List Request)
refusing = recording (λ _. record { code = 5; word = 0 })

abbrev some_caps : Capabilities
some_caps = record zero_capabilities { id_aa64pfr0_el1 = 0x1101; id_aa64mmfr0_el1 = 0x0f100032 }

abbrev vcpu_config : VcpuConfig
vcpu_config = record { fgt_enabled = false; tlbi_workaround = false; vmkey = 0 }

-- A guest with translation on, 4 KiB pages and addresses of 21 bits, whose one table has the page at
-- 0x8000 for its second entry.
abbrev translating : Ctx
translating i = if i == 262 then 1 else if i == 242 then 43 else if i == 238 then 0x4000 else 0

abbrev host_memory : ℕ → ℕ
host_memory a = if a == 0x10008 then 0x8003 else 0

translate_stage1-terminates_example :
    (r : ℕ) × (ohv_translate_stage1 host_memory (one_map ∷ []) 9 translating 0x1234 ≡ some r)
    × (ohv_translate_stage1 host_memory (one_map ∷ []) 4 translating 0x1234 ≡ some r)
translate_stage1-terminates_example =
    translate_stage1-terminates host_memory (one_map ∷ []) 9 translating 0x1234 (omega arith)

translate_stage1_sound_example : Translates host_memory (one_map ∷ []) 12 21 0x1234 3 0x4000 0x8000
unfolding ohv_translate_stage1 granule_of page_bits_of va_bits_of ttbr_of walk_from walk entry_word
    entry_address leaf_address shift_of start_level guest_ptr load64
translate_stage1_sound_example =
    translate_stage1_sound host_memory (one_map ∷ []) translating 0x1234 12 0x8000 refl lower_4k
      refl (omega arith)

translate_stage1_complete_example :
    ohv_translate_stage1 host_memory (one_map ∷ []) 4 translating 0x1234 ≡ some 0x8000
unfolding entry_word guest_ptr load64
translate_stage1_complete_example =
    translate_stage1_complete host_memory (one_map ∷ []) translating 0x1234 12 0x8000 refl lower_4k
      (omega arith) (omega arith) (leaf 3 0x4000 0x8003 refl refl (inr refl))
