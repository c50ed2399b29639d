-- ===== src/Context/Laws.antt =====
-- Loads and stores of the context, and what `mark_dirty` leaves.
use open_hypervisor.Base.{ℕ, ◌+◌, ◌/◌, ◌^◌, ◌≤◌, ◌<◌, ◌≡◌, ◌⊎◌, arith, bit_or}
use open_hypervisor.Base.Bits.{bit_or-lt}
use open_hypervisor.Context.{Ctx, IsCtx, load32, store32, load64, store64, mark_dirty}
use open_hypervisor.Context.Rw

-- Two 64-bit words at multiples of 4 that do not overlap.
abbrev pub Apart : ℕ → ℕ → Type 0
Apart a b = (a / 4 + 2 ≤ b / 4) ⊎ (b / 4 + 2 ≤ a / 4)

pub load64-lt : (c : Ctx) (off : ℕ) → IsCtx c → load64 c off < 2 ^ 64
unfolding load64
load64-lt c off h = omega (arith, h (off / 4), h (off / 4 + 1))

pub load32-lt : (c : Ctx) (off : ℕ) → IsCtx c → load32 c off < 2 ^ 32
unfolding load32
load32-lt c off h = h (off / 4)

pub load64-store64 : (c : Ctx) (off v : ℕ) → v < 2 ^ 64 → load64 (store64 c off v) off ≡ v
unfolding load64 store64
load64-store64 c off v h = ground arith

pub load64-store64-Apart : (c : Ctx) (a b v : ℕ) → Apart a b → load64 (store64 c a v) b ≡ load64 c b
unfolding load64 store64
load64-store64-Apart c a b v h = ground arith

pub load32-store64_apart :
    (c : Ctx) (a b v : ℕ)
    → (b / 4 + 1 ≤ a / 4) ⊎ (a / 4 + 2 ≤ b / 4)
    → load32 (store64 c a v) b ≡ load32 c b
unfolding load32 store64
load32-store64_apart c a b v h = ground arith

pub load32-store32 : (c : Ctx) (off v : ℕ) → v < 2 ^ 32 → load32 (store32 c off v) off ≡ v
unfolding load32 store32
load32-store32 c off v h = ground arith

pub load64-store32_apart :
    (c : Ctx) (a b v : ℕ)
    → (a / 4 + 1 ≤ b / 4) ⊎ (b / 4 + 2 ≤ a / 4)
    → load64 (store32 c a v) b ≡ load64 c b
unfolding load64 store32
load64-store32_apart c a b v h = ground arith

pub load32-store32_apart :
    (c : Ctx) (a b v : ℕ)
    → (a / 4 + 1 ≤ b / 4) ⊎ (b / 4 + 1 ≤ a / 4)
    → load32 (store32 c a v) b ≡ load32 c b
unfolding load32 store32
load32-store32_apart c a b v h = ground arith

pub store64-IsCtx : (c : Ctx) (off v : ℕ) → IsCtx c → IsCtx (store64 c off v)
unfolding store64
store64-IsCtx c off v h i = ground (arith, h i)

pub store32-IsCtx : (c : Ctx) (off v : ℕ) → IsCtx c → IsCtx (store32 c off v)
unfolding store32
store32-IsCtx c off v h i = ground (arith, h i)

-- `mark_dirty` touches the dirty word alone.
pub load64-mark_dirty :
    (c : Ctx) (bit b : ℕ) → Apart Rw.state_dirty b → load64 (mark_dirty c bit) b ≡ load64 c b
unfolding mark_dirty
load64-mark_dirty c bit b h = load64-store64-Apart c Rw.state_dirty b _ h

pub load32-mark_dirty :
    (c : Ctx) (bit b : ℕ)
    → (b / 4 + 1 ≤ Rw.state_dirty / 4) ⊎ (Rw.state_dirty / 4 + 2 ≤ b / 4)
    → load32 (mark_dirty c bit) b ≡ load32 c b
unfolding mark_dirty
load32-mark_dirty c bit b h = load32-store64_apart c Rw.state_dirty b _ h

pub mark_dirty-IsCtx : (c : Ctx) (bit : ℕ) → IsCtx c → IsCtx (mark_dirty c bit)
unfolding mark_dirty
mark_dirty-IsCtx c bit h = store64-IsCtx c Rw.state_dirty _ h

-- The dirty word after `mark_dirty` is its old value with the bits of `bit` set.
pub mark_dirty_lem :
    (c : Ctx) (bit : ℕ)
    → IsCtx c
    → bit < 2 ^ 64
    → load64 (mark_dirty c bit) Rw.state_dirty ≡ bit_or (load64 c Rw.state_dirty) bit
unfolding mark_dirty
mark_dirty_lem c bit h lt =
    load64-store64 c Rw.state_dirty _
      (bit_or-lt 64 (load64 c Rw.state_dirty) bit (load64-lt c Rw.state_dirty h) lt)
