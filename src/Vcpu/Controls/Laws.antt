-- ===== src/Vcpu/Controls/Laws.antt =====
-- What a control word reads after a write.
use native.Mathlib.Nat.{one-le-pow}
use open_hypervisor.Base.{
  ℕ, suc, ◌+◌, ◌-◌, ◌%◌, ◌^◌, ◌≤◌, ◌<◌, ◌≡◌, ◌⊎◌, refl, Bool, true, false, not, ◌&&◌, ◌||◌, arith,
  bit_and, some, ltb, ◌==◌, if◌then◌else◌, Option-cases, inl, inr, get_elem?, all_from, all_from_at,
  List, [], ◌∷◌,
}
use open_hypervisor.Base.Bits.{
  not64, bit_at, bit_at-and, bit_at-or, bit_at-complement, bit_at-le-one, bit_and-one_hot,
  bit_or-lt, bit_and-lt,
}
use open_hypervisor.Context.{IsCtx, load64, store64}
use open_hypervisor.Context.Laws.{
  Apart, load64-store64, load64-store64-Apart, load64-mark_dirty, load64-lt,
}
use open_hypervisor.Context.Rw
use open_hypervisor.Context.Controls
use open_hypervisor.Context.State
use open_hypervisor.Hv.{hv_success, ok}
use open_hypervisor.Host.{Host, owned_vcpu}
use open_hypervisor.Host.Laws.{owned_vcpu_found, owned_vcpu-put_slot}
use open_hypervisor.Vcpu.Slot.{VcpuSlot, mark_slot_dirty}
use open_hypervisor.Vcpu.Environment.{Environment}
use open_hypervisor.Vcpu.Controls.{
  control_field_offset, control_field_none, control_field, store_control, get_control_field,
  set_control_field, with_mask, get_control_flag, set_control_flag, debug_reg_mask,
  hv_vcpu_get_trap_debug_exceptions, hv_vcpu_set_trap_debug_exceptions,
  hv_vcpu_get_trap_debug_reg_accesses, hv_vcpu_set_trap_debug_reg_accesses,
}

-- The number of the field at an offset.
abbrev pub field_number : ℕ → List ℕ → ℕ → ℕ
field_number off [] i = i
field_number off (x ∷ xs) i = if x == off then i else field_number off xs (suc i)

-- What the table promises of entry `f`: an aligned word of the block, that no other entry names.
fits : ℕ → ℕ → Bool
fits f off =
    off == control_field_none
    || (off % 8 == 0 && (ltb off 0xd8 && field_number off control_field_offset 0 == f))

table_fits : all_from fits control_field_offset 0 ≡ true
unfolding fits
table_fits = refl

-- A named field is an aligned word of the controls block.
pub control_field_bounds :
    (f off : ℕ)
    → control_field f ≡ some off
    → (Rw.controls ≤ off)
      × (off + 8 ≤ Rw.state_dirty)
      × (off % 8 ≡ 0)
      × (field_number (off - Rw.controls) control_field_offset 0 ≡ f)
unfolding control_field fits
control_field_bounds f off found = elim (Option-cases (get_elem? control_field_offset f)) [
  | inl e ↦ ground arith
  | inr (x, e) ↦ ground (arith, all_from_at fits control_field_offset 0 f x table_fits e)
]

load64-store_control :
    (s : VcpuSlot) (off off' v : ℕ)
    → v < 2 ^ 64
    → off % 4 ≡ 0
    → off' % 4 ≡ 0
    → Apart Rw.state_dirty off'
    → (off ≡ off') ⊎ Apart off off'
    → load64 (store_control s off v).ctx off' ≡ (if off == off' then v else load64 s.ctx off')
unfolding store_control mark_slot_dirty
load64-store_control s off off' v lt al al' away which = ground (
  arith,
  load64-mark_dirty (store64 s.ctx off v) State.controls off' away,
  load64-store64 s.ctx off v lt,
  load64-store64-Apart s.ctx off off' v,
)

store_control-used : (s : VcpuSlot) (off v : ℕ) → (store_control s off v).used ≡ s.used
unfolding store_control mark_slot_dirty
store_control-used s off v = ground arith

field-store_control :
    (s : VcpuSlot) (f f' off off' v : ℕ)
    → v < 2 ^ 64
    → control_field f ≡ some off
    → control_field f' ≡ some off'
    → load64 (store_control s off v).ctx off' ≡ (if f == f' then v else load64 s.ctx off')
field-store_control s f f' off off' v lt field field' = ground (
  arith,
  load64-store_control s off off' v lt,
  control_field_bounds f off field,
  control_field_bounds f' off' field',
)

-- The numbered fields are apart from each other: a successful write is what that field of that
-- vCPU reads from then on, and no write changes another field or another vCPU's. The one exception
-- is field 9, the guarded level: a write to it succeeds and changes nothing, unless the environment
-- allows it.
pub get_control_field-set :
    (e : Environment) (h : Host) (id id' f f' v : ℕ)
    → v < 2 ^ 64
    → let (h', r) = set_control_field e h id f v in
      get_control_field h' id' f' true ≡ (
        if r == hv_success && (id == id' && (f == f' && not (f == 9 && not e.allow_apsts_write)))
        then ok v
        else get_control_field h id' f' true)
unfolding get_control_field set_control_field
get_control_field-set e h id id' f f' v lt = elim (Option-cases (owned_vcpu h id)) [
  | inl none_owned ↦ ground arith
  | inr (s, owned) ↦ elim (Option-cases (control_field f)) [
    | inl no_field ↦
        ground (arith, owned_vcpu_found h id s owned, owned_vcpu-put_slot h id id' s s owned)
    | inr (off, field) ↦ elim (Option-cases (control_field f')) [
      | inl no_field' ↦ ground (
        arith,
        owned_vcpu_found h id s owned,
        owned_vcpu-put_slot h id id' s s owned,
        owned_vcpu-put_slot h id id' s (store_control s off v) owned,
        store_control-used s off v,
      )
      | inr (off', field') ↦ ground (
        arith,
        owned_vcpu_found h id s owned,
        owned_vcpu-put_slot h id id' s s owned,
        owned_vcpu-put_slot h id id' s (store_control s off v) owned,
        store_control-used s off v,
        field-store_control s f f' off off' v lt field field',
      )
    ]
  ]
]

-- A mask that is a single bit, as the getters test it.
flag_lem : (w k : ℕ) → not (bit_and w (2 ^ k) == 0) ≡ (bit_at w k == 1)
flag_lem w k = ground (arith, bit_and-one_hot k w, bit_at-le-one k w, one-le-pow k 2)

-- Setting or clearing the bits of a mask.
with_mask-bit :
    (w mask : ℕ) (on : Bool) (k : ℕ)
    → mask < 2 ^ 64
    → k < 64
    → bit_at (with_mask w mask on) k
      ≡ (if bit_at mask k == 1 then (if on then 1 else 0) else bit_at w k)
with_mask-bit w mask on k lm lk = ground (
  arith,
  bit_at-or k w mask,
  bit_at-and k w (not64 mask),
  bit_at-complement 64 k mask lk lm,
  bit_at-le-one k w,
  bit_at-le-one k mask,
)

with_mask-lt : (w mask : ℕ) (on : Bool) → w < 2 ^ 64 → mask < 2 ^ 64 → with_mask w mask on < 2 ^ 64
with_mask-lt w mask true lw lm = bit_or-lt 64 w mask lw lm
with_mask-lt w mask false lw lm = bit_and-lt 64 w (not64 mask) lw

get_control_flag-set :
    (h : Host) (id off mask : ℕ) (on : Bool) (k : ℕ) (s : VcpuSlot)
    → owned_vcpu h id ≡ some s
    → IsCtx s.ctx
    → off % 4 ≡ 0
    → Apart Rw.state_dirty off
    → mask < 2 ^ 64
    → k < 64
    → get_control_flag (set_control_flag h id off mask on).0 id off (2 ^ k) true
      ≡ (if bit_at mask k == 1 then ok on else get_control_flag h id off (2 ^ k) true)
unfolding get_control_flag set_control_flag
get_control_flag-set h id off mask on k s owned isctx al away lm lk =
    let w = load64 s.ctx off in
    let new = with_mask w mask on in
    ground (
      arith,
      owned_vcpu_found h id s owned,
      owned_vcpu-put_slot h id id s (store_control s off new) owned,
      store_control-used s off new,
      load64-store_control s off off new (with_mask-lt w mask on (load64-lt s.ctx off isctx) lm) al
          al away (inl refl),
      flag_lem w k,
      flag_lem new k,
      with_mask-bit w mask on k lm lk,
    )

-- The two debug traps of a vCPU that the calling thread may use share a word and do not disturb
-- each other: each reads back as it was set, and setting one leaves the other as it was.
pub trap_debug-independent :
    (h : Host) (id : ℕ) (on : Bool) (s : VcpuSlot)
    → owned_vcpu h id ≡ some s
    → IsCtx s.ctx
    → let h1 = (hv_vcpu_set_trap_debug_exceptions h id on).0 in
      let h2 = (hv_vcpu_set_trap_debug_reg_accesses h id on).0 in
      (hv_vcpu_get_trap_debug_exceptions h1 id true ≡ ok on)
      × (hv_vcpu_get_trap_debug_reg_accesses h1 id true
          ≡ hv_vcpu_get_trap_debug_reg_accesses h id true)
      × (hv_vcpu_get_trap_debug_reg_accesses h2 id true ≡ ok on)
      × (hv_vcpu_get_trap_debug_exceptions h2 id true ≡ hv_vcpu_get_trap_debug_exceptions h id true)
unfolding hv_vcpu_get_trap_debug_exceptions hv_vcpu_set_trap_debug_exceptions
    hv_vcpu_get_trap_debug_reg_accesses hv_vcpu_set_trap_debug_reg_accesses bit_at
trap_debug-independent h id on s owned isctx = (
  get_control_flag-set h id Controls.mdcr_el2 (2 ^ 14) on 14 s owned isctx refl (omega arith)
      (omega arith) (omega arith),
  get_control_flag-set h id Controls.mdcr_el2 (2 ^ 14) on 9 s owned isctx refl (omega arith)
      (omega arith) (omega arith),
  get_control_flag-set h id Controls.mdcr_el2 debug_reg_mask on 9 s owned isctx refl (omega arith)
      (omega arith) (omega arith),
  get_control_flag-set h id Controls.mdcr_el2 debug_reg_mask on 14 s owned isctx refl (omega arith)
      (omega arith) (omega arith),
)
