-- ===== src/Vcpu/Sme/Laws.antt =====
-- What a streaming vector register reads after a write, and what ZT0 shares with Z0.
use open_hypervisor.Base.{
  ℕ, zero, suc, ◌+◌, ◌-◌, ◌*◌, ◌≡◌, ◌≢◌, ◌≤◌, ◌<◌, ◌⊎◌, inl, inr, refl, sym, ap, ◌∙◌, true, false,
  ◌&&◌, some, List, ◌++◌, arith, ltb, ◌==◌, if◌then◌else◌, Bool-cases,
}
use open_hypervisor.Context.Ro
use open_hypervisor.Context.State
use open_hypervisor.Context.Laws.{load64-mark_dirty, load32-mark_dirty}
use open_hypervisor.Hv.{hv_success, ok}
use open_hypervisor.Host.{Host, owned_vcpu}
use open_hypervisor.Host.Laws.{owned_vcpu_found, owned_vcpu-put_slot}
use open_hypervisor.Vcpu.Slot.{VcpuSlot, mark_slot_dirty}
use open_hypervisor.Vcpu.Sme.{
  Bytes, bytes_at, copied, region, svl, bad_z, read_sme, write_sme, hv_vcpu_get_sme_z_reg,
  hv_vcpu_set_sme_z_reg, hv_vcpu_set_sme_zt0_reg,
}

pub bytes_at-copied :
    (m v : Bytes) (to n i k : ℕ)
    → i + k ≤ n
    → bytes_at (copied m to n v) (to + i) k ≡ bytes_at v i k
unfolding bytes_at copied
bytes_at-copied m v to n i zero le = refl
bytes_at-copied m v to n i (suc k) le =
    let here : to + i - to ≡ i = omega arith in
    let rest = bytes_at-copied m v to n (suc i) k (omega arith) in ground (arith, here, rest)

pub bytes_at-copied_apart :
    (m v : Bytes) (to n from k : ℕ)
    → (from + k ≤ to) ⊎ (to + n ≤ from)
    → bytes_at (copied m to n v) from k ≡ bytes_at m from k
unfolding bytes_at copied
bytes_at-copied_apart m v to n from zero apart = refl
bytes_at-copied_apart m v to n from (suc k) apart =
    let rest = bytes_at-copied_apart m v to n (suc from) k (ground arith) in ground (arith, rest)

bytes_at-split :
    (m : Bytes) (from n k : ℕ)
    → bytes_at m from (n + k) ≡ bytes_at m from n ++ bytes_at m (from + n) k
unfolding bytes_at
bytes_at-split m from zero k =
    let here : from ≡ from + 0 = omega arith in
    let same : k ≡ 0 + k = omega arith in
    ap (λ (j : ℕ). bytes_at m from j) (sym same) ∙ ap (λ (a : ℕ). bytes_at m a k) here
bytes_at-split m from (suc n) k =
    let rest = bytes_at-split m (suc from) n k in
    let next : suc from + n ≡ from + suc n = omega arith in
    let sum : suc n + k ≡ suc (n + k) = omega arith in ground (arith, rest, next, sum)

-- Marking leaves where the registers are.
region-marked : (s : VcpuSlot) → region (mark_slot_dirty s State.sme_context) ≡ region s
unfolding mark_slot_dirty
region-marked s = ground (arith, load64-mark_dirty s.ctx State.sme_context Ro.sme)

svl-marked : (s : VcpuSlot) → svl (mark_slot_dirty s State.sme_context) ≡ svl s
unfolding mark_slot_dirty
svl-marked s = ground (arith, load32-mark_dirty s.ctx State.sme_context Ro.svl_b)

used-marked : (s : VcpuSlot) → (mark_slot_dirty s State.sme_context).used ≡ s.used
unfolding mark_slot_dirty
used-marked s = ground arith

product_step : (a b n : ℕ) → a < b → a * n + n ≤ b * n
product_step a zero n lt = ground arith
product_step a (suc b) n lt = elim (Bool-cases (ltb a b)) [
  | inl low ↦ omega (arith, product_step a b n (ground arith))
  | inr high ↦ let same : a ≡ b = ground arith in omega (arith, ap (λ (c : ℕ). c * n) same)
]

rows_apart :
    (a b n base : ℕ) → a ≢ b → (base + b * n + n ≤ base + a * n) ⊎ (base + a * n + n ≤ base + b * n)
rows_apart a b n base other = elim (Bool-cases (ltb a b)) [
  | inl low ↦ inr (omega (arith, product_step a b n (ground arith)))
  | inr high ↦ inl (omega (arith, product_step b a n (ground arith)))
]

-- Reading a vCPU whose slot was marked.
read-marked :
    (m : Bytes) (s : VcpuSlot) (reg len : ℕ)
    → let t = mark_slot_dirty s State.sme_context in
      read_sme m t (bad_z t reg len) (reg * svl t) (svl t)
      ≡ read_sme m s (bad_z s reg len) (reg * svl s) (svl s)
unfolding read_sme
read-marked m s reg len = rw (region-marked s, svl-marked s) refl

read_same :
    (m v : Bytes) (s : VcpuSlot) (reg len : ℕ)
    → (region s == 0) ≡ false
    → bad_z s reg len ≡ false
    → read_sme
        (copied m (region s + reg * svl s) (svl s) v)
        s
        (bad_z s reg len)
        (reg * svl s)
        (svl s)
      ≡ ok (bytes_at v 0 (svl s))
unfolding read_sme
read_same m v s reg len there good =
    let at = region s + reg * svl s in
    let read : bytes_at (copied m at (svl s) v) at (svl s) ≡ bytes_at v 0 (svl s) =
      ap (λ (a : ℕ). bytes_at (copied m at (svl s) v) a (svl s)) (omega arith)
      ∙ bytes_at-copied m v at (svl s) 0 (svl s) (omega arith) in
    rw (there, good) (ap ok read)

read_other :
    (m v : Bytes) (s : VcpuSlot) (reg reg' len : ℕ)
    → reg ≢ reg'
    → read_sme
        (copied m (region s + reg * svl s) (svl s) v)
        s
        (bad_z s reg' len)
        (reg' * svl s)
        (svl s)
      ≡ read_sme m s (bad_z s reg' len) (reg' * svl s) (svl s)
unfolding read_sme
read_other m v s reg reg' len other =
    let same =
      bytes_at-copied_apart m v (region s + reg * svl s) (svl s) (region s + reg' * svl s) (svl s)
        (rows_apart reg reg' (svl s) (region s) other) in
    rw (same) refl

-- A streaming vector register reads what was last written to it, all its bytes, and a write of one
-- register leaves the others; a refused write leaves them all.
pub get_sme_z_reg-set :
    (h : Host) (m v : Bytes) (id reg reg' len : ℕ) (s : VcpuSlot)
    → owned_vcpu h id ≡ some s
    → let (h', m', r) = hv_vcpu_set_sme_z_reg h m id reg len true v in
      hv_vcpu_get_sme_z_reg h' m' id reg' len true ≡ (
        if r == hv_success && reg == reg'
        then ok (bytes_at v 0 (svl s))
        else hv_vcpu_get_sme_z_reg h m id reg' len true)
unfolding hv_vcpu_set_sme_z_reg hv_vcpu_get_sme_z_reg write_sme
get_sme_z_reg-set h m v id reg reg' len s e =
    let t = mark_slot_dirty s State.sme_context in
    let m' = copied m (region s + reg * svl s) (svl s) v in
    ground (
      arith,
      owned_vcpu_found h id s e,
      owned_vcpu-put_slot h id id s t e,
      used-marked s,
      read-marked m' s reg' len,
      read_other m v s reg reg' len,
      read_same m v s reg len,
    )

-- The head of the region is overlaid, what is past it stays.
overlaid :
    (m v : Bytes) (base n : ℕ)
    → 64 ≤ n
    → bytes_at (copied m (base + 0) 64 v) (base + 0) n
      ≡ bytes_at v 0 64 ++ bytes_at m (base + 64) (n - 64)
overlaid m v base n wide =
    let m' = copied m (base + 0) 64 v in
    let whole : n ≡ 64 + (n - 64) = omega arith in
    let head : bytes_at m' (base + 0) 64 ≡ bytes_at v 0 64 =
      ap (λ (a : ℕ). bytes_at m' a 64) (omega arith)
      ∙ bytes_at-copied m v (base + 0) 64 0 64 (omega arith) in
    let tail : bytes_at m' (base + 0 + 64) (n - 64) ≡ bytes_at m (base + 64) (n - 64) =
      bytes_at-copied_apart m v (base + 0) 64 (base + 0 + 64) (n - 64) (inr (omega arith))
      ∙ ap (λ (a : ℕ). bytes_at m a (n - 64)) (omega arith) in
    ap (λ (j : ℕ). bytes_at m' (base + 0) j) whole
    ∙ bytes_at-split m' (base + 0) 64 (n - 64)
    ∙ ap (λ (l : List ℕ). l ++ bytes_at m' (base + 0 + 64) (n - 64)) head
    ∙ ap (λ (l : List ℕ). bytes_at v 0 64 ++ l) tail

-- A write of ZT0 takes the first 64 bytes of the region, which Z0 reads: after it Z0 holds the bytes
-- of ZT0 and keeps only those past them. The vectors are at least as long as ZT0, the region is
-- there, and the buffer is long enough.
pub get_sme_z_reg-zt0 :
    (h : Host) (m v : Bytes) (id len : ℕ) (s : VcpuSlot)
    → owned_vcpu h id ≡ some s
    → (region s == 0) ≡ false
    → 64 ≤ svl s
    → svl s ≤ len
    → let (h', m', _) = hv_vcpu_set_sme_zt0_reg h m id true v in
      hv_vcpu_get_sme_z_reg h' m' id 0 len true
      ≡ ok (bytes_at v 0 64 ++ bytes_at m (region s + 64) (svl s - 64))
unfolding hv_vcpu_set_sme_zt0_reg hv_vcpu_get_sme_z_reg write_sme read_sme
get_sme_z_reg-zt0 h m v id len s e there wide fits =
    let t = mark_slot_dirty s State.sme_context in
    let m' = copied m (region s + 0) 64 v in
    ground (
      arith,
      owned_vcpu_found h id s e,
      owned_vcpu-put_slot h id id s t e,
      used-marked s,
      region-marked s,
      svl-marked s,
      overlaid m v (region s) (svl s) wide,
    )
