-- ===== src/Gic/Spi/ListRegisters/Single.antt =====
-- No interrupt is queued twice: the injection and the retirement keep that, and an injection that
-- finds room queues its interrupt.
use open_hypervisor.Base.{ℕ, ◌^◌, ◌<◌, ◌≡◌, true, false, arith, Option-cases, Bool-cases, inl, inr}
use open_hypervisor.Context.{Ctx}
use open_hypervisor.Gic.Spi.ListRegisters.{
  lr_count, lr_dirty, lr_at, is_busy, queues, any_queues, first_free, lr_entry, inject, retire,
}
use open_hypervisor.Gic.Spi.ListRegisters.Laws.{
  entry-queues, any_queues-false, any_queues-true, first_free-some, first_free_found, lr_at-inject,
  lr_at-retire,
}

-- No interrupt stands in two list registers.
abbrev pub Single : Ctx → Type 0
Single c =
    (a i j : ℕ)
    → i < lr_count
    → j < lr_count
    → queues a (lr_at c i) ≡ true
    → queues a (lr_at c j) ≡ true
    → i ≡ j

idle_entry : (a : ℕ) (lr : ℕ) → is_busy lr ≡ false → queues a lr ≡ false
unfolding queues
idle_entry a lr e = ground arith

-- An entry queues one interrupt at most, and the entry of `intid` queues that one.
queues_unique : (a b lr : ℕ) → queues a lr ≡ true → queues b lr ≡ true → a ≡ b
unfolding queues
queues_unique a b lr p q = ground arith

dirty-idle : (a : ℕ) → queues a lr_dirty ≡ false
unfolding queues
dirty-idle a = ground arith

pub inject-Single :
    (intid priority : ℕ) (c : Ctx)
    → intid < 2 ^ 32
    → priority < 2 ^ 8
    → Single c
    → Single (inject intid priority c)
inject-Single intid priority c hi hp single a i j li lj qi qj =
    elim (Bool-cases (any_queues intid c lr_count 0)) [
      | inl e ↦ ground (
        arith,
        single a i j li lj,
        lr_at-inject intid priority c i hi hp li,
        lr_at-inject intid priority c j hi hp lj,
      )
      | inr e ↦ elim (Option-cases (first_free c lr_count 0)) [
        | inl n ↦ ground (
          arith,
          single a i j li lj,
          lr_at-inject intid priority c i hi hp li,
          lr_at-inject intid priority c j hi hp lj,
        )
        | inr (f, n) ↦ ground (
          arith,
          single a i j li lj,
          lr_at-inject intid priority c i hi hp li,
          lr_at-inject intid priority c j hi hp lj,
          entry-queues intid priority hi hp,
          queues_unique a intid (lr_entry intid priority),
          any_queues-false intid c lr_count 0 i e (omega arith) (omega arith),
          any_queues-false intid c lr_count 0 j e (omega arith) (omega arith),
        )
      ]
    ]

pub retire-Single : (intid : ℕ) (c : Ctx) → Single c → Single (retire intid c)
retire-Single intid c single a i j li lj qi qj =
    ground (
      arith,
      single a i j li lj,
      lr_at-retire intid c i li,
      lr_at-retire intid c j lj,
      dirty-idle a,
    )

-- Where a list register is free, or the interrupt is queued already, it stands queued in one.
pub inject-queues :
    (intid priority : ℕ) (c : Ctx)
    → intid < 2 ^ 32
    → priority < 2 ^ 8
    → ((j : ℕ) × (j < lr_count) × (is_busy (lr_at c j) ≡ false))
    → (j : ℕ) × (j < lr_count) × (queues intid (lr_at (inject intid priority c) j) ≡ true)
inject-queues intid priority c hi hp (f, lf, free) =
    elim (Bool-cases (any_queues intid c lr_count 0)) [
      | inl e ↦
          let (j, lj, found) = any_queues-true intid c lr_count 0 e in
          (j, omega arith, ground (arith, lr_at-inject intid priority c j hi hp (omega arith)))
      | inr e ↦
          let (k, n) = first_free_found c lr_count 0 f (omega arith) (omega arith) free in
          let lk : k < lr_count = omega (arith, first_free-some c lr_count 0 k n) in
          (
            k,
            lk,
            ground (
              arith,
              lr_at-inject intid priority c k hi hp lk,
              entry-queues intid priority hi hp,
            ),
          )
    ]
