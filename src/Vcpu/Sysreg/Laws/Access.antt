-- ===== src/Vcpu/Sysreg/Laws/Access.antt =====
-- A write and the reads after it, with a kernel that grants every sync.
use open_hypervisor.Base.{
  ℕ, ◌^◌, ◌≡◌, ◌≢◌, ◌≤◌, ◌<◌, ◌⊎◌, inl, inr, refl, sym, ap, ◌∙◌, Bool, true, not, Option, some,
  arith, ◌==◌, if◌then◌else◌, Bool-cases,
}
use open_hypervisor.Base.Bits.{bit_at}
use open_hypervisor.Context.{Ctx, IsCtx, load64}
use open_hypervisor.Context.Rw
use mathlib.Core.Path.{subst}
use open_hypervisor.Hv.{hv_success, ok}
use open_hypervisor.Host.{Host, owned_vcpu, put_slot}
use open_hypervisor.Host.Laws.{owned_vcpu_found, owned_vcpu-put_slot}
use open_hypervisor.Vm.Kernel.{Trap, vcpu_sysregs_sync}
use open_hypervisor.Vcpu.Slot.{VcpuSlot}
use open_hypervisor.Vcpu.Environment.{Environment}
use open_hypervisor.Sysreg.{SysRegDesc}
use open_hypervisor.Sysreg.Lookup.{sysreg_lookup}
use open_hypervisor.Caps.Block.{Capabilities}
use open_hypervisor.Vcpu.Sysreg.{
  Place, word, shadow, id_reg, no_id_reg, nowhere, place_of, written, write, write_word, sync_slot,
  access_slot, sysreg_access, hv_vcpu_get_sys_reg, hv_vcpu_set_sys_reg,
}
use open_hypervisor.Vcpu.Sysreg.Words.{is_stored}
use open_hypervisor.Vcpu.Sysreg.Laws.Loading.{owned_vcpu-SameVcpus}
use open_hypervisor.Vcpu.Sysreg.Laws.Dirty.{write_word-dirty, sync_slot-whole, dirty_bit-lt}
use open_hypervisor.Vcpu.Sysreg.Laws.Places.{
  held, is_ready, IsSettled, IsCurrent, IsSettled-current, sync_slot-rest, access_read,
  access_write, access_write-other,
}

-- Every state bit of a row stands in the dirty word.
abbrev pub IsDirty : SysRegDesc → Ctx → Type 0
IsDirty d c = (j : ℕ) → bit_at d.dirty_bit j ≤ bit_at (load64 c Rw.state_dirty) j

-- The row is one whose writes are marked, where it lives in the pages.
abbrev pub is_marked : Place → SysRegDesc → Bool
is_marked (word off) d = not (d.dirty_bit == 0)
is_marked _ d = true

module _ {K : Type 0} (trap : Trap K) (block : K → Capabilities) (refresh : K → Ctx → Ctx)
    (granted : (k : K) → (trap vcpu_sysregs_sync k).0.code ≡ hv_success) where
  -- A read of a register that a sync leaves as it is.
  get_ready :
      (e : Environment) (h : Host) (k : K) (id enc : ℕ) (d : SysRegDesc) (s : VcpuSlot)
      → enc < 2 ^ 16
      → owned_vcpu h id ≡ some s
      → sysreg_lookup enc ≡ some d
      → is_stored (place_of d) ≡ true
      → is_ready (place_of d) s ≡ true
      → IsSettled trap block refresh granted (place_of d) s
      → (hv_vcpu_get_sys_reg trap block refresh e h k id enc true).2 ≡ ok (held (place_of d) s)
  unfolding hv_vcpu_get_sys_reg sysreg_access
  get_ready e h k id enc d s small owned found stored ready settled = ground (
    arith,
    access_read trap block refresh granted e h k enc d s (place_of d) refl stored ready settled,
  )

  -- The host and the code after a write that finds its register.
  set_found :
      (e : Environment) (h : Host) (k : K) (id enc v : ℕ) (d : SysRegDesc) (s : VcpuSlot)
      → enc < 2 ^ 16
      → v < 2 ^ 64
      → owned_vcpu h id ≡ some s
      → sysreg_lookup enc ≡ some d
      → is_stored (place_of d) ≡ true
      → let (h1, k1, s1, _) = access_slot trap block refresh e h k enc d (write v) s in
        hv_vcpu_set_sys_reg trap block refresh e h k id enc v ≡ (put_slot h1 id s1, k1, hv_success)
  unfolding hv_vcpu_set_sys_reg sysreg_access
  set_found e h k id enc v d s small lt owned found stored = ground (
    arith,
    access_write trap block refresh granted e h k enc v d s (place_of d) found lt refl stored,
  )

  owned_after :
      (e : Environment) (h : Host) (k : K) (id id' enc v : ℕ) (d : SysRegDesc) (s : VcpuSlot)
      → v < 2 ^ 64
      → owned_vcpu h id ≡ some s
      → sysreg_lookup enc ≡ some d
      → is_stored (place_of d) ≡ true
      → let (h1, _, s1, _) = access_slot trap block refresh e h k enc d (write v) s in
        owned_vcpu (put_slot h1 id s1) id' ≡ (if id == id' then some s1 else owned_vcpu h id')
  owned_after e h k id id' enc v d s lt owned found stored =
      let (h1, _, s1, _) = access_slot trap block refresh e h k enc d (write v) s in
      let (_, _, _, used, same) =
        access_write trap block refresh granted e h k enc v d s (place_of d) found lt refl stored in
      let owned1 = owned_vcpu-SameVcpus h h1 id same ∙ owned in
      let in_use = used ∙ (owned_vcpu_found h id s owned).1 in
      owned_vcpu-put_slot h1 id id' s s1 owned1 in_use
      ∙ ap (λ (o : Option VcpuSlot). if id == id' then some s1 else o)
          (owned_vcpu-SameVcpus h h1 id' same)

  IsSettled-dirty :
      (e : Environment) (h : Host) (k : K) (enc v : ℕ) (d : SysRegDesc) (s : VcpuSlot) (p : Place)
      → ((k : K) (c : Ctx) → IsCtx c → IsCtx (refresh k c))
      → ((k : K) (c : Ctx) (off : ℕ)
          → place_of d ≡ word off
          → IsDirty d c
          → load64 (refresh k c) off ≡ load64 c off)
      → s.mapped ≡ true
      → IsCtx s.ctx
      → sysreg_lookup enc ≡ some d
      → place_of d ≡ p
      → is_marked p d ≡ true
      → IsSettled trap block refresh granted p
          (access_slot trap block refresh e h k enc d (write v) s).2
  unfolding access_slot IsSettled
  IsSettled-dirty e h k enc v d s (word off) whole kept mapped cells found at marked = λ k'.
      let (_, s1, r) = sync_slot trap block refresh d k s in
      let (mapped1, cells1) = sync_slot-whole trap block refresh whole d k s cells in
      let t = (access_slot trap block refresh e h k enc d (write v) s).2 in
      let wrote : t ≡ write_word e d off enc v s1 =
        ground (arith, at, sync_slot-rest trap block refresh granted d k s) in
      let dirty : IsDirty d t.ctx = λ j. rw wrote (
        write_word-dirty e d off enc v j s1 (mapped1 ∙ mapped) cells1 (dirty_bit-lt enc d found)) in
      kept k' t.ctx off at dirty
  IsSettled-dirty e h k enc v d s (shadow i) whole kept mapped cells found at marked = tt
  IsSettled-dirty e h k enc v d s (id_reg i) whole kept mapped cells found at marked = tt
  IsSettled-dirty e h k enc v d s no_id_reg whole kept mapped cells found at marked = tt
  IsSettled-dirty e h k enc v d s nowhere whole kept mapped cells found at marked = tt

  -- A system register that the library keeps reads back what was written, on a vCPU of the calling
  -- thread, with the bits added that the hypervisor needs in CPTR_EL2; both calls succeed. The kernel
  -- grants every sync, which may bring anything into the pages but for a register whose state bits
  -- are in the dirty word, as they are until the next entry carries it into the machine: that one it
  -- leaves. A register in the pages is one whose row has such bits; the slot is mapped and the pages
  -- hold 32-bit cells before and after a sync.
  pub get_sys_reg-set :
      (e : Environment) (h : Host) (k : K) (id enc v : ℕ) (d : SysRegDesc) (s : VcpuSlot)
      → ((k : K) (c : Ctx) → IsCtx c → IsCtx (refresh k c))
      → ((k : K) (c : Ctx) (off : ℕ)
          → place_of d ≡ word off
          → IsDirty d c
          → load64 (refresh k c) off ≡ load64 c off)
      → enc < 2 ^ 16
      → v < 2 ^ 64
      → owned_vcpu h id ≡ some s
      → s.mapped ≡ true
      → IsCtx s.ctx
      → sysreg_lookup enc ≡ some d
      → is_stored (place_of d) ≡ true
      → is_marked (place_of d) d ≡ true
      → let (h1, k1, r) = hv_vcpu_set_sys_reg trap block refresh e h k id enc v in
        (r ≡ hv_success)
        × ((hv_vcpu_get_sys_reg trap block refresh e h1 k1 id enc true).2 ≡ ok (written enc v))
  get_sys_reg-set e h k id enc v d s whole kept small lt owned mapped cells found stored marked =
      let (h1, k1, s1, _) = access_slot trap block refresh e h k enc d (write v) s in
      let put = set_found e h k id enc v d s small lt owned found stored in
      let there = owned_after e h k id id enc v d s lt owned found stored in
      let (_, holds, ready, _, _) =
        access_write trap block refresh granted e h k enc v d s (place_of d) found lt refl stored in
      let there' : owned_vcpu (put_slot h1 id s1) id ≡ some s1 = ground (arith, there) in
      let settled =
        IsSettled-dirty e h k enc v d s (place_of d) whole kept mapped cells found refl marked in
      rw put (
        refl,
        get_ready e (put_slot h1 id s1) k1 id enc d s1 small there' found stored ready settled
            ∙ ap ok holds,
      )

  -- No write of a register changes what another register of that vCPU, or any register of another,
  -- reads, where the kernel grants every sync and the pages' copy of the register that is read is
  -- current, so that a sync brings in the same value for it, whatever it brings in elsewhere;
  -- identification registers are meant once they are loaded.
  pub get_sys_reg-set_other :
      (e : Environment) (h : Host) (k : K) (id id' enc enc' v : ℕ) (d d' : SysRegDesc)
      (s s' : VcpuSlot)
      → enc < 2 ^ 16
      → enc' < 2 ^ 16
      → v < 2 ^ 64
      → owned_vcpu h id ≡ some s
      → owned_vcpu h id' ≡ some s'
      → sysreg_lookup enc ≡ some d
      → sysreg_lookup enc' ≡ some d'
      → is_stored (place_of d) ≡ true
      → is_stored (place_of d') ≡ true
      → is_ready (place_of d') s' ≡ true
      → IsCurrent trap block refresh granted (place_of d') s'
      → (id ≢ id') ⊎ (enc ≢ enc')
      → let (h1, k1, _) = hv_vcpu_set_sys_reg trap block refresh e h k id enc v in
        (hv_vcpu_get_sys_reg trap block refresh e h1 k1 id' enc' true).2
        ≡ (hv_vcpu_get_sys_reg trap block refresh e h k id' enc' true).2
  get_sys_reg-set_other e h k id id' enc enc' v d d' s s' small small' lt owned owned' found found'
        stored stored' ready cur apart =
      let (h1, k1, s1, _) = access_slot trap block refresh e h k enc d (write v) s in
      let put = set_found e h k id enc v d s small lt owned found stored in
      let there = owned_after e h k id id' enc v d s lt owned found stored in
      let before =
        get_ready e h k id' enc' d' s' small' owned' found' stored' ready
          (IsSettled-current trap block refresh granted (place_of d') s' s' cur refl) in
      rw put (elim (Bool-cases (id == id')) [
        | inl here ↦
            let one : s' ≡ s = ground (arith, owned, owned') in
            let ne : enc ≢ enc' = ground arith in
            let ready' : is_ready (place_of d') s ≡ true = rw (← one) ready in
            let cur' =
              subst (λ (t : VcpuSlot). IsCurrent trap block refresh granted (place_of d') t) one
                cur in
            let (same, ready1) =
              access_write-other trap block refresh granted e h k enc enc' v d d' s (place_of d)
                (place_of d') found found' refl refl ne stored' ready' cur' in
            let settled =
              IsSettled-current trap block refresh granted (place_of d') s s1 cur' same in
            let there' : owned_vcpu (put_slot h1 id s1) id' ≡ some s1 = ground (arith, there) in
            get_ready e (put_slot h1 id s1) k1 id' enc' d' s1 small' there' found' stored' ready1
              settled
            ∙ (ap ok (same ∙ ap (held (place_of d')) (sym one)) ∙ sym before)
        | inr away ↦
            let there' : owned_vcpu (put_slot h1 id s1) id' ≡ some s' = ground (arith, there) in
            get_ready e (put_slot h1 id s1) k1 id' enc' d' s' small' there' found' stored' ready
              (IsSettled-current trap block refresh granted (place_of d') s' s' cur refl)
            ∙ sym before
      ])
