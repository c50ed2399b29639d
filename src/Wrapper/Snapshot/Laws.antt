-- ===== src/Wrapper/Snapshot/Laws.antt =====
-- A snapshot that is restored brings every general register back (include/openhyp/openhyp.hpp).
use open_hypervisor.Base.{
  ℕ, zero, suc, ◌+◌, ◌^◌, ◌≤◌, ◌<◌, ◌≡◌, inl, inr, refl, ap, ◌∙◌, Bool, true, ◌&&◌, Option, none,
  some, List, [], ◌∷◌, ◌++◌, arith, ltb, leb, ◌==◌, if◌then◌else◌, Bool-cases,
}
use open_hypervisor.Context.{Ctx, IsCtx}
use open_hypervisor.Context.Rw
use open_hypervisor.Context.Laws.{load64-lt, load32-lt}
use open_hypervisor.Hv.{hv_success, ok}
use open_hypervisor.Host.{Host, owned_vcpu, put_slot}
use open_hypervisor.Host.Laws.{owned_vcpu_found, owned_vcpu-put_slot}
use open_hypervisor.Vcpu.Slot.{VcpuSlot}
use open_hypervisor.Vcpu.Registers.{
  reg_offset, write_reg, read_reg, hv_vcpu_get_reg, hv_vcpu_set_reg,
}
use open_hypervisor.Vcpu.Registers.Laws.{written, get_reg-set}
use open_hypervisor.Wrapper.{reg, get_regs, set_regs}
use open_hypervisor.Wrapper.Snapshot.{numbers, numbered}

-- The last value that a batch writes to a register, if it does.
unfoldable pub latest : ℕ → List (ℕ × ℕ) → Option ℕ
latest r [] = none
latest r ((q, v) ∷ batch) = elim (latest r batch) [
  | some w ↦ some w
  | none ↦ if q == r then some v else none
]

-- All registers exist, and all values have 64 bits.
abbrev pub is_batch : List (ℕ × ℕ) → Bool
is_batch [] = true
is_batch ((q, v) ∷ batch) = (leb q 34 && ltb v (2 ^ 64)) && is_batch batch

write_reg_success : (el2 : Bool) (c : Ctx) (r v : ℕ) → r ≤ 34 → (write_reg el2 c r v).1 ≡ hv_success
unfolding write_reg
write_reg_success el2 c r v le = ground arith

set_reg_some :
    (h : Host) (id r v : ℕ) (s : VcpuSlot)
    → owned_vcpu h id ≡ some s
    → hv_vcpu_set_reg h id r v ≡ (
      put_slot h id (record s { ctx = (write_reg h.vm_el2 s.ctx r v).0 }),
      (write_reg h.vm_el2 s.ctx r v).1,
    )
unfolding hv_vcpu_set_reg
set_reg_some h id r v s owned = ground arith

set_reg-owned :
    (h : Host) (id r v : ℕ) (s : VcpuSlot)
    → owned_vcpu h id ≡ some s
    → r ≤ 34
    → let (h', code) = hv_vcpu_set_reg h id r v in
      (code ≡ hv_success) × (h'.vm_el2 ≡ h.vm_el2) × (t : VcpuSlot) × (owned_vcpu h' id ≡ some t)
set_reg-owned h id r v s owned le =
    let (c, code) = write_reg h.vm_el2 s.ctx r v in
    let t : VcpuSlot = record s { ctx = c } in
    let done = set_reg_some h id r v s owned in
    let used = (owned_vcpu_found h id s owned).1 in
    (
      ap (λ (x : Host × ℕ). x.1) done ∙ write_reg_success h.vm_el2 s.ctx r v le,
      ap (λ (x : Host × ℕ). x.0.vm_el2) done,
      t,
      ap (λ (x : Host × ℕ). owned_vcpu x.0 id) done
          ∙ ground (arith, owned_vcpu-put_slot h id id s t owned used),
    )

-- What a register reads after a batch.
pub get_reg-set_regs :
    (h : Host) (id r : ℕ) (batch : List (ℕ × ℕ)) (s : VcpuSlot)
    → owned_vcpu h id ≡ some s
    → is_batch batch ≡ true
    → let (h', done) = set_regs h id batch in
      (done ≡ ok tt)
      × (hv_vcpu_get_reg h' id r true ≡ elim (latest r batch) [
        | none ↦ hv_vcpu_get_reg h id r true
        | some v ↦ ok (written h.vm_el2 r v)
      ])
unfolding set_regs latest
get_reg-set_regs h id r [] s owned fine = (refl, refl)
get_reg-set_regs h id r ((q, v) ∷ batch) s owned fine =
    let (h1, code) = hv_vcpu_set_reg h id q v in
    let (c, el2, t, still) = set_reg-owned h id q v s owned (ground arith) in
    let (d, reads) = get_reg-set_regs h1 id r batch t still (ground arith) in
    let set = get_reg-set h id id q r v (ground arith) in ground (arith, c, el2, d, reads, set)

-- A batch before another: what the second writes stands.
pub latest-append :
    (r w : ℕ) (batch rest : List (ℕ × ℕ))
    → latest r rest ≡ some w
    → latest r (batch ++ rest) ≡ some w
unfolding latest
latest-append r w [] rest found = found
latest-append r w ((q, v) ∷ batch) rest found = ground (arith, latest-append r w batch rest found)

-- No register below those of the loop.
latest_below :
    (r left i : ℕ) (vs : List ℕ) (rest : List (ℕ × ℕ))
    → r < i
    → latest r rest ≡ none
    → latest r (numbered left i vs ++ rest) ≡ none
unfolding latest numbered
latest_below r zero i vs rest lt n = n
latest_below r (suc left) i [] rest lt n = n
latest_below r (suc left) i (v ∷ vs) rest lt n =
    ground (arith, latest_below r left (suc i) vs rest (omega arith) n)

pub get_regs_cons :
    (h : Host) (id r v : ℕ) (rs vs : List ℕ)
    → get_regs h id (r ∷ rs) ≡ ok (v ∷ vs)
    → (reg h id r ≡ ok v) × (get_regs h id rs ≡ ok vs)
unfolding get_regs
get_regs_cons h id r v rs vs read = ground arith

pub get_regs_nil : (h : Host) (id r : ℕ) (rs : List ℕ) → get_regs h id (r ∷ rs) ≡ ok [] → ⊥
unfolding get_regs
get_regs_nil h id r rs read = ground arith

-- The registers that the loop writes are those that were read.
pub latest_read :
    (h : Host) (id r v left i : ℕ) (vs : List ℕ) (rest : List (ℕ × ℕ))
    → get_regs h id (numbers i left) ≡ ok vs
    → i ≤ r
    → r < i + left
    → latest r rest ≡ none
    → reg h id r ≡ ok v
    → latest r (numbered left i vs ++ rest) ≡ some v
unfolding latest numbered
latest_read h id r v zero i vs rest read le lt n is = absurd (omega arith)
latest_read h id r v (suc left) i [] rest read le lt n is =
    absurd (get_regs_nil h id i (numbers (suc i) left) read)
latest_read h id r v (suc left) i (w ∷ vs) rest read le lt n is =
    let (first, more) = get_regs_cons h id i w (numbers (suc i) left) vs read in
    elim (Bool-cases (i == r)) [
      | inl here ↦
          let same : i ≡ r = ground arith in
          let below = latest_below r left (suc i) vs rest (omega arith) n in
          ground (arith, below, first, ap (reg h id) same)
      | inr later ↦
          let found =
            latest_read h id r v left (suc i) vs rest more (ground arith) (omega arith) n is in
          ground (arith, found)
    ]

-- What is read has 64 bits, and the flags and floating point words have 32.
pub read_reg-lt : (c : Ctx) (r v : ℕ) → IsCtx c → read_reg c r ≡ ok v → v < 2 ^ 64
unfolding read_reg
read_reg-lt c r v is read = ground (
  arith,
  load32-lt c Rw.cpsr is,
  load32-lt c Rw.fpcr is,
  load32-lt c Rw.fpsr is,
  load64-lt c (reg_offset r) is,
)

pub read_reg-lt_flags : (c : Ctx) (r v : ℕ) → IsCtx c → read_reg c r ≡ ok v → 31 < r → v < 2 ^ 32
unfolding read_reg
read_reg-lt_flags c r v is read flag =
    ground (arith, load32-lt c Rw.cpsr is, load32-lt c Rw.fpcr is, load32-lt c Rw.fpsr is)
