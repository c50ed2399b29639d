-- ===== src/Gic/Spi/ListRegisters/Laws.antt =====
-- What the loops over the list registers find and change.
use open_hypervisor.Base.{
  ℕ, zero, suc, ◌+◌, ◌*◌, ◌/◌, ◌%◌, ◌^◌, ◌≤◌, ◌<◌, ◌≡◌, refl, true, false, ◌&&◌, some, none, arith,
  bit_and, ◌==◌, if◌then◌else◌, Option-cases, Bool-cases, inl, inr, leb, ltb,
}
use open_hypervisor.Base.Bits.{bit_and_low, bit_and_shifted, bit_or_disjoint, bit_or_shifted}
use open_hypervisor.Context.{Ctx, store64, mark_dirty}
use open_hypervisor.Context.Laws.{load64-store64, load64-store64-Apart, load64-mark_dirty}
use open_hypervisor.Context.Controls
use open_hypervisor.Gic.Spi.ListRegisters.{
  lr_count, lr_state_mask, lr_vintid_mask, lr_dirty, lr_at, is_busy, queues, pends, any_queues,
  first_free, lr_entry, gic_dirty, inject, retire_loop, retire,
}

-- The two fields of an entry that the loops test, as arithmetic.
state_field : (x : ℕ) → x < 2 ^ 64 → bit_and x lr_state_mask ≡ x / 2 ^ 62 * 2 ^ 62
state_field x h = omega (arith, bit_and_shifted 62 x 3, bit_and_low 2 (x / 2 ^ 62))

vintid_field : (x : ℕ) → bit_and x lr_vintid_mask ≡ x % 2 ^ 32
vintid_field x = bit_and_low 32 x

-- An entry is pending and in group 1, and carries its priority, the dirty flag and its number.
pub lr_entry_lem :
    (intid priority : ℕ)
    → intid < 2 ^ 32
    → priority < 2 ^ 8
    → lr_entry intid priority ≡ 5 * 2 ^ 60 + priority * 2 ^ 48 + 2 ^ 32 + intid
unfolding lr_entry
lr_entry_lem intid priority hi hp =
    let top = 5 * 2 ^ 12 + priority in
    ground (
      arith,
      bit_or_disjoint 60 5 (priority * 2 ^ 48),
      bit_or_disjoint 48 top intid,
      bit_or_shifted 32 (top * 2 ^ 16) intid 1,
      bit_or_disjoint 16 top 1,
    )

pub entry-queues :
    (intid priority : ℕ)
    → intid < 2 ^ 32
    → priority < 2 ^ 8
    → queues intid (lr_entry intid priority) ≡ true
unfolding queues
entry-queues intid priority hi hp = ground (
  arith,
  lr_entry_lem intid priority hi hp,
  state_field (lr_entry intid priority),
  vintid_field (lr_entry intid priority),
)

lr_at-store :
    (c : Ctx) (i j v d : ℕ)
    → v < 2 ^ 64
    → i < lr_count
    → j < lr_count
    → lr_at (mark_dirty (store64 c (Controls.ich_lr_el2 i) v) d) j
      ≡ (if i == j then v else lr_at c j)
lr_at-store c i j v d lt hi hj = ground (
  arith,
  load64-mark_dirty (store64 c (Controls.ich_lr_el2 i) v) d (Controls.ich_lr_el2 j),
  load64-store64 c (Controls.ich_lr_el2 i) v lt,
  load64-store64-Apart c (Controls.ich_lr_el2 i) (Controls.ich_lr_el2 j) v,
)

pub any_queues-false :
    (intid : ℕ) (c : Ctx) (left i j : ℕ)
    → any_queues intid c left i ≡ false
    → i ≤ j
    → j < i + left
    → queues intid (lr_at c j) ≡ false
unfolding any_queues
any_queues-false intid c zero i j h lo hi = absurd (omega arith)
any_queues-false intid c (suc left) i j h lo hi = elim (Bool-cases (i == j)) [
  | inl e ↦ ground arith
  | inr e ↦ any_queues-false intid c left (i + 1) j (ground arith) (ground arith) (omega arith)
]

pub any_queues-true :
    (intid : ℕ) (c : Ctx) (left i : ℕ)
    → any_queues intid c left i ≡ true
    → (j : ℕ) × (j < i + left) × (queues intid (lr_at c j) ≡ true)
unfolding any_queues
any_queues-true intid c zero i h = cc
any_queues-true intid c (suc left) i h = elim (Bool-cases (queues intid (lr_at c i))) [
  | inl e ↦ (i, omega arith, e)
  | inr e ↦
      let (j, lt, found) = any_queues-true intid c left (i + 1) (ground arith) in
      (j, omega arith, found)
]

pub first_free-some :
    (c : Ctx) (left i j : ℕ)
    → first_free c left i ≡ some j
    → (j < i + left) × (is_busy (lr_at c j) ≡ false)
unfolding first_free
first_free-some c zero i j h = absurd (ground arith)
first_free-some c (suc left) i j h = elim (Bool-cases (is_busy (lr_at c i))) [
  | inl e ↦ ground (arith, first_free-some c left (i + 1) j)
  | inr e ↦ ground arith
]

-- Every list register after an injection: the first free one takes the entry, unless the interrupt
-- is queued already.
pub lr_at-inject :
    (intid priority : ℕ) (c : Ctx) (j : ℕ)
    → intid < 2 ^ 32
    → priority < 2 ^ 8
    → j < lr_count
    → lr_at (inject intid priority c) j ≡ (
        if any_queues intid c lr_count 0 then lr_at c j else elim (first_free c lr_count 0) [
          | none ↦ lr_at c j
          | some i ↦ if i == j then lr_entry intid priority else lr_at c j
        ])
unfolding inject
lr_at-inject intid priority c j hi hp hj = elim (Bool-cases (any_queues intid c lr_count 0)) [
  | inl e ↦ rw (e, inject) refl
  | inr e ↦ elim (Option-cases (first_free c lr_count 0)) [
    | inl n ↦ rw (e, inject) (rw n refl)
    | inr (i, n) ↦
        rw (e, inject)
          (rw n (
            lr_at-store c i j (lr_entry intid priority) gic_dirty
              (omega (arith, lr_entry_lem intid priority hi hp))
              (first_free-some c lr_count 0 i n).0 hj))
  ]
]

-- Every list register after a retirement: those that hold the interrupt as pending alone are made
-- inactive, and flagged for the kernel.
lr_at-retire_loop :
    (intid left i : ℕ) (c : Ctx) (j : ℕ)
    → i + left ≤ lr_count
    → j < lr_count
    → lr_at (retire_loop intid left i c) j
      ≡ (if leb i j && ltb j (i + left) && pends intid (lr_at c j) then lr_dirty else lr_at c j)
unfolding retire_loop
lr_at-retire_loop intid zero i c j hi hj = ground arith
lr_at-retire_loop intid (suc left) i c j hi hj = elim (Bool-cases (pends intid (lr_at c i))) [
  | inl e ↦
      let c' = mark_dirty (store64 c (Controls.ich_lr_el2 i) lr_dirty) gic_dirty in
      rw e (
        ground (
          arith,
          lr_at-retire_loop intid left (i + 1) c' j (omega arith) hj,
          lr_at-store c i j lr_dirty gic_dirty (omega arith) (omega arith) hj,
        ))
  | inr e ↦ rw e (ground (arith, lr_at-retire_loop intid left (i + 1) c j (omega arith) hj))
]

pub lr_at-retire :
    (intid : ℕ) (c : Ctx) (j : ℕ)
    → j < lr_count
    → lr_at (retire intid c) j ≡ (if pends intid (lr_at c j) then lr_dirty else lr_at c j)
unfolding retire
lr_at-retire intid c j hj = ground (arith, lr_at-retire_loop intid lr_count 0 c j (omega arith) hj)

-- The search finds a free list register where there is one.
pub first_free_found :
    (c : Ctx) (left i j : ℕ)
    → i ≤ j
    → j < i + left
    → is_busy (lr_at c j) ≡ false
    → (k : ℕ) × (first_free c left i ≡ some k)
unfolding first_free
first_free_found c zero i j lo hi free = absurd (omega arith)
first_free_found c (suc left) i j lo hi free = elim (Bool-cases (is_busy (lr_at c i))) [
  | inl e ↦ rw e (first_free_found c left (i + 1) j (ground arith) (omega arith) free)
  | inr e ↦ (i, rw e)
]
