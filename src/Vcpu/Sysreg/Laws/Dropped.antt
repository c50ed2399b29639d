-- ===== src/Vcpu/Sysreg/Laws/Dropped.antt =====
-- Accesses that keep nothing: the breakpoint registers, and a sync that the kernel refuses.
use open_hypervisor.Base.{
  ℕ, zero, suc, ◌+◌, ◌*◌, ◌/◌, ◌%◌, ◌^◌, ◌≡◌, ◌≢◌, ◌<◌, refl, sym, ap, ◌∙◌, Bool, true, false, ◌&&◌,
  none, some, arith, ◌==◌, Option-cases, Bool-cases, inl, inr,
}
use open_hypervisor.Context.{Ctx}
use open_hypervisor.Hv.{hv_success, ok, err}
use open_hypervisor.Host.{Host, owned_vcpu, put_slot}
use open_hypervisor.Vm.Kernel.{Trap, vcpu_sysregs_sync}
use open_hypervisor.Vcpu.Slot.{VcpuSlot}
use open_hypervisor.Vcpu.Environment.{Environment}
use open_hypervisor.Sysreg.{SysRegDesc}
use open_hypervisor.Sysreg.Lookup.{scan, sysreg_lookup}
use open_hypervisor.Sysreg.Lookup.Laws.{all_rows, sysreg_lookup_lem}
use open_hypervisor.Caps.Block.{Capabilities}
use open_hypervisor.Caps.Registers.{ohv_id_slot, find_which}
use open_hypervisor.Vcpu.Sysreg.{
  word, no_id_reg, place_of, Access, wants_sync, sync_slot, access_slot, sysreg_access,
  hv_vcpu_get_sys_reg, hv_vcpu_set_sys_reg,
}

-- The encoding of DBGBVR, DBGBCR, DBGWVR and DBGWCR (`j` from 0 to 3) of breakpoint `i`.
abbrev pub debug_reg : ℕ → ℕ → ℕ
debug_reg i j = 0x8004 + i * 8 + j

abbrev is_dropped : ℕ → Bool
is_dropped enc = elim (scan all_rows enc) [
  | none ↦ false
  | some d ↦ elim (place_of d) [ no_id_reg ↦ true | _ ↦ false ]
]

-- A test of the numbers below `n`.
abbrev below : (ℕ → Bool) → ℕ → Bool
below p zero = true
below p (suc n) = p n && below p n

below_at : (p : ℕ → Bool) (n i : ℕ) → below p n ≡ true → i < n → p i ≡ true
below_at p zero i all lt = absurd (omega arith)
below_at p (suc n) i all lt = elim (Bool-cases (i == n)) [
  | inl same ↦ let e : i ≡ n = ground arith in rw e (ground (arith, all))
  | inr other ↦ below_at p n i (ground (arith, all)) (ground arith)
]

all_dropped : below (λ n. is_dropped (debug_reg (n / 4) (n % 4))) 64 ≡ true
unfolding scan place_of ohv_id_slot find_which
all_dropped = refl

debug_reg_row :
    (i j : ℕ)
    → i < 16
    → j < 4
    → (d : SysRegDesc) × (sysreg_lookup (debug_reg i j) ≡ some d) × (place_of d ≡ no_id_reg)
debug_reg_row i j lt le =
    let n = i * 4 + j in
    let here =
      below_at (λ n. is_dropped (debug_reg (n / 4) (n % 4))) 64 n all_dropped (omega arith) in
    let same : debug_reg (n / 4) (n % 4) ≡ debug_reg i j = omega arith in
    let dropped : is_dropped (debug_reg i j) ≡ true = sym (ap is_dropped same) ∙ here in
    elim (Option-cases (scan all_rows (debug_reg i j))) [
      | inl e ↦ ground (arith, dropped)
      | inr (d, e) ↦ (d, sysreg_lookup_lem (debug_reg i j) ∙ e, ground (arith, dropped))
    ]

module _ {K : Type 0} (trap : Trap K) (block : K → Capabilities) (refresh : K → Ctx → Ctx) where
  -- A write of a breakpoint or watchpoint register, of the first or any other of the sixteen, is
  -- answered with success and dropped: the host is as before, and a read of the register then
  -- answers zero.
  pub debug_reg-dropped :
      (e : Environment) (h : Host) (k : K) (id i j v : ℕ) (s : VcpuSlot)
      → i < 16
      → j < 4
      → owned_vcpu h id ≡ some s
      → (hv_vcpu_set_sys_reg trap block refresh e h k id (debug_reg i j) v
          ≡ (put_slot h id s, k, hv_success))
        × ((hv_vcpu_get_sys_reg trap block refresh e h k id (debug_reg i j) true).2 ≡ ok 0)
  unfolding hv_vcpu_set_sys_reg hv_vcpu_get_sys_reg sysreg_access access_slot
  debug_reg-dropped e h k id i j v s lt le owned =
      let (d, found, at) = debug_reg_row i j lt le in
      let fits : debug_reg i j % 2 ^ 16 ≡ debug_reg i j = omega arith in rw fits (ground arith)

  -- Where an access to a word of the context needs a sync and the kernel refuses it, the kernel's
  -- code is the answer, and of the vCPU nothing is changed past what the kernel itself put into the
  -- pages.
  pub sysreg_access-refused :
      (e : Environment) (h : Host) (k : K) (id enc off : ℕ) (a : Access) (d : SysRegDesc)
      (s : VcpuSlot)
      → owned_vcpu h id ≡ some s
      → sysreg_lookup enc ≡ some d
      → place_of d ≡ word off
      → wants_sync s.ctx d ≡ true
      → (trap vcpu_sysregs_sync k).0.code ≢ hv_success
      → let (r, k') = trap vcpu_sysregs_sync k in
        sysreg_access trap block refresh e h k id enc true a
        ≡ (put_slot h id (record s { ctx = refresh k' s.ctx }), k', err r.code)
  unfolding sysreg_access access_slot sync_slot
  sysreg_access-refused e h k id enc off a d s owned found at wants refused = ground arith
