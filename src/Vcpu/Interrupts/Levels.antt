-- ===== src/Vcpu/Interrupts/Levels.antt =====
-- One level in HCR_EL2: what setting it does to the word and to the rest of the context.
use native.Mathlib.Nat.{one-le-pow}
use open_hypervisor.Base.{
  zero, suc, ℕ, ◌*◌, ◌^◌, ◌≤◌, ◌<◌, ◌≡◌, ◌⊎◌, refl, Bool, not, arith, bit_and, bit_or, ◌==◌,
  if◌then◌else◌, inl, inr,
}
use open_hypervisor.Base.Bits.{
  not64, bit_at, bit_at-and, bit_at-or, bit_at-complement, bit_at-le-one, bit_at-one_hot,
  bit_and-one_hot, bit_or-lt, bit_and-lt, bit_at_zero,
}
use open_hypervisor.Context.{Ctx, IsCtx, load32, load64, store64, mark_dirty}
use open_hypervisor.Context.Laws.{
  load64-store64, load64-mark_dirty, load64-lt, mark_dirty-IsCtx, store64-IsCtx,
}
use open_hypervisor.Context.Rw
use open_hypervisor.Context.Controls
use open_hypervisor.Context.State
use open_hypervisor.Vcpu.Interrupts.{set_level}

one_or_none :
    (b p : ℕ) (on : Bool)
    → b ≤ 1
    → 1 ≤ p
    → b * p ≡ (if on then p else 0)
    → b ≡ (if on then 1 else 0)
one_or_none zero p on lb lp same = ground arith
one_or_none (suc zero) p on lb lp same = ground arith
one_or_none (suc (suc b)) p on lb lp same = absurd (omega arith)

-- The bits of HCR_EL2 after a level was set: the one bit follows, no other moves.
pub set_level-hcr :
    (c : Ctx) (j : ℕ) (on : Bool) (k : ℕ)
    → IsCtx c
    → j < 64
    → 2 ^ j < 2 ^ 64
    → k < 64
    → bit_at (load64 (set_level c (2 ^ j) on) Controls.hcr_el2) k
      ≡ (if j == k then (if on then 1 else 0) else bit_at (load64 c Controls.hcr_el2) k)
unfolding set_level
set_level-hcr c j on k isctx lj lp lk =
    let hcr = load64 c Controls.hcr_el2 in
    let want = if on then 2 ^ j else 0 in
    let new = bit_or (bit_and hcr (not64 (2 ^ j))) want in
    let small : new < 2 ^ 64 =
      bit_or-lt 64 (bit_and hcr (not64 (2 ^ j))) want
        (bit_and-lt 64 hcr (not64 (2 ^ j)) (load64-lt c Controls.hcr_el2 isctx)) (ground arith) in
    ground (
      arith,
      load64-mark_dirty (store64 c Controls.hcr_el2 new) State.controls Controls.hcr_el2
          (omega arith),
      load64-store64 c Controls.hcr_el2 new small,
      bit_at-or k (bit_and hcr (not64 (2 ^ j))) want,
      bit_at-and k hcr (not64 (2 ^ j)),
      bit_at-complement 64 k (2 ^ j) lk lp,
      bit_at-one_hot j k,
      bit_at_zero k,
      bit_and-one_hot j hcr,
      one_or_none (bit_at hcr j) (2 ^ j) on (bit_at-le-one j hcr) (one-le-pow j 2 (omega arith)),
      bit_at-le-one k hcr,
    )

bit_cases : (b : ℕ) → b ≤ 1 → (b ≡ 0) ⊎ (b ≡ 1)
bit_cases zero h = inl refl
bit_cases (suc zero) h = inr refl
bit_cases (suc (suc b)) h = absurd (omega arith)

-- Bit `i` of HCR_EL2, as a test.
unfoldable pub is_up : Ctx → ℕ → Bool
is_up c i = not (bit_and (load64 c Controls.hcr_el2) (2 ^ i) == 0)

is_up_iff : (c : Ctx) (i : ℕ) → is_up c i ≡ (bit_at (load64 c Controls.hcr_el2) i == 1)
unfolding is_up
is_up_iff c i =
    let hcr = load64 c Controls.hcr_el2 in
    elim (bit_cases (bit_at hcr i) (bit_at-le-one i hcr)) [
      | inl e ↦ ground (arith, bit_and-one_hot i hcr)
      | inr e ↦ ground (arith, bit_and-one_hot i hcr, one-le-pow i 2)
    ]

-- Setting one level leaves the other as it is.
pub is_up-set_level :
    (c : Ctx) (j : ℕ) (on : Bool) (i : ℕ)
    → IsCtx c
    → j < 64
    → 2 ^ j < 2 ^ 64
    → i < 64
    → is_up (set_level c (2 ^ j) on) i ≡ (if j == i then on else is_up c i)
is_up-set_level c j on i isctx lj lp li = ground (
  arith,
  is_up_iff (set_level c (2 ^ j) on) i,
  is_up_iff c i,
  set_level-hcr c j on i isctx lj lp li,
)

-- A level lives in HCR_EL2; the program counter and the flags stay.
pub set_level-pc :
    (c : Ctx) (bit : ℕ) (on : Bool) → load64 (set_level c bit on) Rw.pc ≡ load64 c Rw.pc
unfolding set_level mark_dirty load64 store64
set_level-pc c bit on = ground arith

pub set_level-cpsr :
    (c : Ctx) (bit : ℕ) (on : Bool) → load32 (set_level c bit on) Rw.cpsr ≡ load32 c Rw.cpsr
unfolding set_level mark_dirty load64 store64 load32
set_level-cpsr c bit on = ground arith

pub set_level-IsCtx : (c : Ctx) (bit : ℕ) (on : Bool) → IsCtx c → IsCtx (set_level c bit on)
unfolding set_level
set_level-IsCtx c bit on h i = ground (
  arith,
  h i,
  mark_dirty-IsCtx
      (store64 c Controls.hcr_el2
        (bit_or (bit_and (load64 c Controls.hcr_el2) (not64 bit)) (if on then bit else 0)))
      State.controls
      (store64-IsCtx c Controls.hcr_el2
        (bit_or (bit_and (load64 c Controls.hcr_el2) (not64 bit)) (if on then bit else 0)) h)
      i,
)
