-- ===== src/Gic/Spi/ListRegisters.antt =====
-- The eight list registers of a context, and the loops of `hv_gic_set_spi` over them.
pub mod Laws
pub mod Single
use open_hypervisor.Base.{
  ℕ, zero, suc, ◌+◌, ◌-◌, ◌*◌, ◌^◌, Bool, true, false, not, ◌&&◌, Option, none, some, bit_and,
  bit_or, ◌==◌, if◌then◌else◌,
}
use open_hypervisor.Context.{Ctx, load64, store64, mark_dirty}
use open_hypervisor.Context.Controls
use open_hypervisor.Context.State

abbrev pub lr_count : ℕ
lr_count = 8

abbrev pub lr_state_pending : ℕ
lr_state_pending = 1 * 2 ^ 62

abbrev pub lr_state_mask : ℕ
lr_state_mask = 3 * 2 ^ 62

abbrev pub lr_group1 : ℕ
lr_group1 = 2 ^ 60

abbrev pub lr_vintid_mask : ℕ
lr_vintid_mask = 2 ^ 32 - 1

-- `OHV_ICH_LR_DIRTY`.
abbrev pub lr_dirty : ℕ
lr_dirty = 1 * 2 ^ 32

abbrev pub lr_at : Ctx → ℕ → ℕ
lr_at c i = load64 c (Controls.ich_lr_el2 i)

-- `(lr & LR_STATE_MASK) != 0`, and the two tests on an entry that name an interrupt.
unfoldable pub is_busy : ℕ → Bool
is_busy lr = not (bit_and lr lr_state_mask == 0)

unfoldable pub queues : ℕ → ℕ → Bool
unfolding is_busy
queues intid lr = is_busy lr && bit_and lr lr_vintid_mask == intid

unfoldable pub pends : ℕ → ℕ → Bool
pends intid lr = bit_and lr lr_state_mask == lr_state_pending && bit_and lr lr_vintid_mask == intid

-- Loops over `left` list registers from `i` on.
unfoldable pub any_queues : ℕ → Ctx → ℕ → ℕ → Bool
any_queues intid c zero i = false
any_queues intid c (suc left) i =
    let rest = any_queues intid c left (i + 1) in if queues intid (lr_at c i) then true else rest

unfoldable pub first_free : Ctx → ℕ → ℕ → Option ℕ
first_free c zero i = none
first_free c (suc left) i =
    let rest = first_free c left (i + 1) in if is_busy (lr_at c i) then rest else some i

-- The entry that is put into a list register.
unfoldable pub lr_entry : ℕ → ℕ → ℕ
lr_entry intid priority =
    bit_or (bit_or (bit_or (bit_or lr_state_pending lr_group1) (priority * 2 ^ 48)) intid) lr_dirty

abbrev pub gic_dirty : ℕ
gic_dirty = bit_or State.gic State.controls

unfoldable pub inject : ℕ → ℕ → Ctx → Ctx
inject intid priority c =
    if any_queues intid c lr_count 0 then c else elim (first_free c lr_count 0) [
      | none ↦ c
      | some i ↦ mark_dirty (store64 c (Controls.ich_lr_el2 i) (lr_entry intid priority)) gic_dirty
    ]

unfoldable pub retire_loop : ℕ → ℕ → ℕ → Ctx → Ctx
retire_loop intid zero i c = c
retire_loop intid (suc left) i c = retire_loop intid left (i + 1) (
    if pends intid (lr_at c i)
    then mark_dirty (store64 c (Controls.ich_lr_el2 i) lr_dirty) gic_dirty
    else c)

unfoldable pub retire : ℕ → Ctx → Ctx
retire intid c = retire_loop intid lr_count 0 c
