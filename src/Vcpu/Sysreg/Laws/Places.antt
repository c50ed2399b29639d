-- ===== src/Vcpu/Sysreg/Laws/Places.antt =====
-- One access, by the place that it goes to, with a kernel that grants every sync.
use open_hypervisor.Base.{ℕ, ◌^◌, ◌≡◌, ◌≢◌, ◌<◌, refl, sym, ap, ◌∙◌, Bool, true, some, arith}
use open_hypervisor.Context.{Ctx, update, load64}
use open_hypervisor.Context.Laws.{load64-store64, load64-store64-Apart}
use open_hypervisor.Hv.{hv_success, ok}
use open_hypervisor.Host.{Host}
use open_hypervisor.Vm.Kernel.{Trap, vcpu_sysregs_sync}
use open_hypervisor.Vcpu.Slot.{VcpuSlot}
use open_hypervisor.Vcpu.Environment.{Environment}
use open_hypervisor.Sysreg.{SysRegDesc}
use open_hypervisor.Sysreg.Lookup.{sysreg_lookup}
use open_hypervisor.Caps.Block.{Capabilities}
use open_hypervisor.Vcpu.Sysreg.{
  Place, word, id_reg, no_id_reg, shadow, nowhere, place_of, written, read, write, sync_slot,
  access_slot,
}
use open_hypervisor.Vcpu.Sysreg.Words.{
  is_stored, word_fits_found, words-Apart, place_of-injective, written_elsewhere,
}
use open_hypervisor.Vcpu.Sysreg.Laws.{written-lt, load64-write_word, write_word-rest}
use open_hypervisor.Vcpu.Sysreg.Laws.Loading.{
  SameVcpus, load_id_regs-SameVcpus, load_id_regs-rest, load_id_regs-loaded,
}

-- What a place of a slot holds.
abbrev pub held : Place → VcpuSlot → ℕ
held (word off) s = load64 s.ctx off
held (shadow i) s = s.el2_shadow i
held (id_reg i) s = s.id_regs i
held _ s = 0

-- Whether the place can be read without asking the kernel for the identification registers.
abbrev pub is_ready : Place → VcpuSlot → Bool
is_ready (id_reg i) s = s.id_regs_loaded
is_ready _ s = true

module _ {K : Type 0} (trap : Trap K) (block : K → Capabilities) (refresh : K → Ctx → Ctx)
    (granted : (k : K) → (trap vcpu_sysregs_sync k).0.code ≡ hv_success) where
  -- A sync, as the pages are, leaves what the place holds.
  unfoldable pub IsSettled : Place → VcpuSlot → Type 0
  IsSettled (word off) s = (k : K) → load64 (refresh k s.ctx) off ≡ load64 s.ctx off
  IsSettled _ s = Unit

  -- The pages' copy of the place is the machine's: whatever else a sync brings in, and whatever else
  -- stands in the pages, it brings in the same value there.
  unfoldable pub IsCurrent : Place → VcpuSlot → Type 0
  IsCurrent (word off) s =
      (k : K) (c : Ctx)
      → load64 c off ≡ load64 s.ctx off
      → load64 (refresh k c) off ≡ load64 s.ctx off
  IsCurrent _ s = Unit

  pub IsSettled-current :
      (p : Place) (s s1 : VcpuSlot) → IsCurrent p s → held p s1 ≡ held p s → IsSettled p s1
  unfolding IsSettled IsCurrent
  IsSettled-current (word off) s s1 cur same = λ k. cur k s1.ctx same ∙ sym same
  IsSettled-current (shadow i) s s1 cur same = tt
  IsSettled-current (id_reg i) s s1 cur same = tt
  IsSettled-current no_id_reg s s1 cur same = tt
  IsSettled-current nowhere s s1 cur same = tt

  pub sync_slot-rest :
      (d : SysRegDesc) (k : K) (s : VcpuSlot)
      → let (_, s1, r) = sync_slot trap block refresh d k s in
        (record s1 { ctx = s.ctx } ≡ s) × (r ≡ hv_success)
  unfolding sync_slot
  sync_slot-rest d k s = ground (arith, granted k)

  sync_slot-settled :
      (d : SysRegDesc) (k : K) (s : VcpuSlot) (off : ℕ)
      → IsSettled (word off) s
      → load64 (sync_slot trap block refresh d k s).1.ctx off ≡ load64 s.ctx off
  unfolding sync_slot IsSettled
  sync_slot-settled d k s off settled = ground (arith, settled (trap vcpu_sysregs_sync k).1)

  pub access_read :
      (e : Environment) (h : Host) (k : K) (enc : ℕ) (d : SysRegDesc) (s : VcpuSlot) (p : Place)
      → place_of d ≡ p
      → is_stored p ≡ true
      → is_ready p s ≡ true
      → IsSettled p s
      → (access_slot trap block refresh e h k enc d read s).3 ≡ ok (held p s)
  unfolding access_slot
  access_read e h k enc d s (word off) at stored ready settled =
      ground (arith, sync_slot-rest d k s, sync_slot-settled d k s off settled)
  access_read e h k enc d s (shadow i) at stored ready settled = ground arith
  access_read e h k enc d s (id_reg i) at stored ready settled =
      ground (arith, load_id_regs-loaded trap block refresh h k s ready)
  access_read e h k enc d s no_id_reg at stored ready settled = ground arith
  access_read e h k enc d s nowhere at stored ready settled = ground arith

  -- A write puts the value at its place, finds the host's other state in place and stays readable.
  pub access_write :
      (e : Environment) (h : Host) (k : K) (enc v : ℕ) (d : SysRegDesc) (s : VcpuSlot) (p : Place)
      → sysreg_lookup enc ≡ some d
      → v < 2 ^ 64
      → place_of d ≡ p
      → is_stored p ≡ true
      → let (h1, _, s1, r) = access_slot trap block refresh e h k enc d (write v) s in
        (r ≡ ok v)
        × (held p s1 ≡ written enc v)
        × (is_ready p s1 ≡ true)
        × (s1.used ≡ s.used)
        × SameVcpus h h1
  unfolding access_slot SameVcpus update
  access_write e h k enc v d s (word off) found lt at stored =
      let fits = word_fits_found enc off d found at in
      let s0 = (sync_slot trap block refresh d k s).1 in
      let stored_there = load64-write_word e d off enc v off s0 (omega (arith, fits)) in
      let back = load64-store64 s0.ctx off (written enc v) (written-lt enc v lt) in
      let (rest, ok_there) = sync_slot-rest d k s in
      ground (
        arith,
        ok_there,
        stored_there,
        back,
        ap (λ (t : VcpuSlot). t.used) (write_word-rest e d off enc v s0),
        ap (λ (t : VcpuSlot). t.used) rest,
      )
  access_write e h k enc v d s (shadow i) found lt at stored =
      ground (arith, written_elsewhere enc v d (shadow i) found at refl)
  access_write e h k enc v d s (id_reg i) found lt at stored = ground (
    arith,
    written_elsewhere enc v d (id_reg i) found at refl,
    load_id_regs-rest trap block refresh h k s,
    load_id_regs-SameVcpus trap block refresh h k s,
  )
  access_write e h k enc v d s no_id_reg found lt at stored = ground arith
  access_write e h k enc v d s nowhere found lt at stored = ground arith

  -- A write leaves what the other places hold.
  pub access_write-other :
      (e : Environment) (h : Host) (k : K) (enc enc' v : ℕ) (d d' : SysRegDesc) (s : VcpuSlot)
      (p p' : Place)
      → sysreg_lookup enc ≡ some d
      → sysreg_lookup enc' ≡ some d'
      → place_of d ≡ p
      → place_of d' ≡ p'
      → enc ≢ enc'
      → is_stored p' ≡ true
      → is_ready p' s ≡ true
      → IsCurrent p' s
      → let (_, _, s1, _) = access_slot trap block refresh e h k enc d (write v) s in
        (held p' s1 ≡ held p' s) × (is_ready p' s1 ≡ true)
  unfolding access_slot update
  access_write-other e h k enc enc' v d d' s (word off) (word off') found found' at at' ne stored
        ready cur =
      let fits' = word_fits_found enc' off' d' found' at' in
      let apart = words-Apart enc enc' off off' d d' found found' at at' ne in
      let s0 = (sync_slot trap block refresh d k s).1 in
      let there = load64-write_word e d off enc v off' s0 (omega (arith, fits')) in
      let same = load64-store64-Apart s0.ctx off off' (written enc v) apart.0 in
      let before = sync_slot-settled d k s off' (IsSettled-current (word off') s s cur refl) in
      ground (arith, sync_slot-rest d k s, there, same, before)
  access_write-other e h k enc enc' v d d' s (word off) (shadow j) found found' at at' ne stored
        ready cur =
      let rest = write_word-rest e d off enc v (sync_slot trap block refresh d k s).1 in
      let synced = sync_slot-rest d k s in
      ground (
        arith,
        synced,
        ap (held (shadow j)) rest,
        ap (is_ready (shadow j)) rest,
        ap (held (shadow j)) synced.0,
        ap (is_ready (shadow j)) synced.0,
      )
  access_write-other e h k enc enc' v d d' s (word off) (id_reg j) found found' at at' ne stored
        ready cur =
      let rest = write_word-rest e d off enc v (sync_slot trap block refresh d k s).1 in
      let synced = sync_slot-rest d k s in
      ground (
        arith,
        synced,
        ap (held (id_reg j)) rest,
        ap (is_ready (id_reg j)) rest,
        ap (held (id_reg j)) synced.0,
        ap (is_ready (id_reg j)) synced.0,
      )
  access_write-other e h k enc enc' v d d' s (shadow i) (word off') found found' at at' ne stored
        ready cur =
      ground (arith)
  access_write-other e h k enc enc' v d d' s (shadow i) (shadow j) found found' at at' ne stored
        ready cur =
      let differ : i ≢ j = λ same. ne (
        place_of-injective enc enc' d d' (shadow i) found found' at (at' ∙ ap shadow (sym same))
          refl) in
      ground (arith, differ)
  access_write-other e h k enc enc' v d d' s (shadow i) (id_reg j) found found' at at' ne stored
        ready cur =
      ground (arith)
  access_write-other e h k enc enc' v d d' s (id_reg i) (word off') found found' at at' ne stored
        ready cur =
      ground (arith, ap (held (word off')) (load_id_regs-rest trap block refresh h k s).0)
  access_write-other e h k enc enc' v d d' s (id_reg i) (shadow j) found found' at at' ne stored
        ready cur =
      ground (arith, ap (held (shadow j)) (load_id_regs-rest trap block refresh h k s).0)
  access_write-other e h k enc enc' v d d' s (id_reg i) (id_reg j) found found' at at' ne stored
        ready cur =
      let differ : i ≢ j = λ same. ne (
        place_of-injective enc enc' d d' (id_reg i) found found' at (at' ∙ ap id_reg (sym same))
          refl) in
      ground (arith, load_id_regs-loaded trap block refresh h k s, differ)
  access_write-other e h k enc enc' v d d' s no_id_reg p' found found' at at' ne stored ready cur =
      ground arith
  access_write-other e h k enc enc' v d d' s nowhere p' found found' at at' ne stored ready cur =
      ground arith
  access_write-other e h k enc enc' v d d' s (word off) no_id_reg found found' at at' ne stored
        ready cur =
      ground arith
  access_write-other e h k enc enc' v d d' s (shadow i) no_id_reg found found' at at' ne stored
        ready cur =
      ground arith
  access_write-other e h k enc enc' v d d' s (id_reg i) no_id_reg found found' at at' ne stored
        ready cur =
      ground arith
  access_write-other e h k enc enc' v d d' s (word off) nowhere found found' at at' ne stored ready
        cur =
      ground arith
  access_write-other e h k enc enc' v d d' s (shadow i) nowhere found found' at at' ne stored ready
        cur =
      ground arith
  access_write-other e h k enc enc' v d d' s (id_reg i) nowhere found found' at at' ne stored ready
        cur =
      ground arith
