-- ===== src/Context.antt =====
-- The vCPU context: the two pages that the kernel maps for each vCPU
-- (include/openhyp/ohv_context.h). A context is a store of 32-bit cells; byte offset `o` of the
-- pages is cell `o / 4`. Every access of the source is a 32- or 64-bit one at a multiple of 4.
pub mod Rw
pub mod Ro
pub mod Controls
pub mod State
pub mod Laws
use Rw
use open_hypervisor.Base.{ℕ, ◌+◌, ◌*◌, ◌/◌, ◌%◌, ◌^◌, ◌<◌, bit_or, Bool, ◌==◌, if◌then◌else◌}

abbrev pub Ctx : Type 0
Ctx = ℕ → ℕ

-- Every cell holds 32 bits.
abbrev pub IsCtx : Ctx → Type 0
IsCtx c = (i : ℕ) → c i < 2 ^ 32

unfoldable pub update {ℓ} : {A : Type ℓ} → (ℕ → A) → ℕ → A → ℕ → A
update f k v j = if j == k then v else f j

-- `ohv_rw_u32`, `ohv_ro_u32`.
unfoldable pub load32 : Ctx → ℕ → ℕ
load32 c off = c (off / 4)

unfoldable pub store32 : Ctx → ℕ → ℕ → Ctx
unfolding update
store32 c off v = update c (off / 4) (v % 2 ^ 32)

-- `ohv_rw_u64`, `ohv_ro_u64`, little endian.
unfoldable pub load64 : Ctx → ℕ → ℕ
load64 c off = c (off / 4) + 2 ^ 32 * c (off / 4 + 1)

unfoldable pub store64 : Ctx → ℕ → ℕ → Ctx
unfolding update
store64 c off v = update (update c (off / 4) (v % 2 ^ 32)) (off / 4 + 1) (v / 2 ^ 32 % 2 ^ 32)

-- `mark_dirty`; its null test is made where the slot may have no context.
unfoldable pub mark_dirty : Ctx → ℕ → Ctx
mark_dirty c bit = store64 c Rw.state_dirty (bit_or (load64 c Rw.state_dirty) bit)
