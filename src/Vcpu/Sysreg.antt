-- ===== src/Vcpu/Sysreg.antt =====
-- Reading and writing the system registers of a vCPU (`sysreg_access` and the calls on it,
-- src/ohv_vcpu.cpp).
pub mod Words
pub mod Laws
use open_hypervisor.Base.{
  ℕ, zero, suc, ◌+◌, ◌*◌, ◌^◌, Bool, true, false, not, ◌&&◌, ◌||◌, Option, none, some, bit_and,
  bit_or, leb, ◌%◌, ◌==◌, if◌then◌else◌,
}
use open_hypervisor.Context.{Ctx, update, load64, store64}
use open_hypervisor.Context.Rw
use open_hypervisor.Context.Ro
use open_hypervisor.Context.Controls
use open_hypervisor.Context.State
use open_hypervisor.Hv.{hv_success, hv_bad_argument, hv_unsupported, Result, ok, err}
use open_hypervisor.Host.{Host, owned_vcpu, put_slot}
use open_hypervisor.Vm.Kernel.{Trap, capabilities, vcpu_sysregs_sync}
use open_hypervisor.Vcpu.Slot.{VcpuSlot, mark_slot_dirty}
use open_hypervisor.Vcpu.Environment.{Environment}
use open_hypervisor.Sysreg.{SysRegDesc}
use open_hypervisor.Sysreg.Lookup.{sysreg_lookup}
use open_hypervisor.Caps.Block.{Capabilities, zero_capabilities}
use open_hypervisor.Caps.Registers.{
  ohv_id_slot, ohv_id_reg_for, ohv_caps_field, id_slot_midr, id_slot_mpidr, midr_el1,
}

abbrev pub el2_shadow_len : ℕ
el2_shadow_len = 32

-- Where the switch on the kind sends an access: a word of the context, an identification register
-- (or none of that encoding), an entry of the shadow, or a refusal.
pub data Place : Type 0 where
  word : ℕ → Place
  id_reg : ℕ → Place
  no_id_reg : Place
  shadow : ℕ → Place
  nowhere : Place

unfoldable pub place_of : SysRegDesc → Place
place_of d =
    if d.kind == 0
    then word (Rw.shared_sysregs + d.index * 8)
    else if d.kind == 1
    then word (Rw.banked_sysregs + d.index * 8)
    else if d.kind == 2
    then word (Rw.extregs + d.index * 8)
    else if d.kind == 3
    then word (Rw.dbgregs + d.index * 8)
    else if d.kind == 5
    then elim (ohv_id_slot d.encoding) [ none ↦ no_id_reg | some i ↦ id_reg i ]
    else if d.kind == 6
    then word (d.index * 8)
    else if d.kind == 7
    then (if leb el2_shadow_len d.index then nowhere else shadow d.index)
    else nowhere

-- The bit of the valid state that a row asks for, where it does not sync before every access.
unfoldable pub needed_state : SysRegDesc → ℕ
needed_state d =
    if d.kind == 0 || d.kind == 1
    then 2 ^ 0
    else if d.kind == 3
    then State.debug
    else if d.kind == 2
    then 2 ^ 61
    else if d.kind == 6
    then State.controls
    else 0

unfoldable pub wants_sync : Ctx → SysRegDesc → Bool
wants_sync c d =
    let need = needed_state d in
    d.sync_before || (not (need == 0) && bit_and (load64 c Ro.state_valid) need == 0)

abbrev pub cptr_el2 : ℕ
cptr_el2 = 0xe08a

abbrev pub kernkeylo_el1 : ℕ
kernkeylo_el1 = 0xe788

abbrev pub kernkeyhi_el1 : ℕ
kernkeyhi_el1 = 0xe789

-- The word that a write puts down.
abbrev pub written : ℕ → ℕ → ℕ
written enc v = if enc == cptr_el2 then bit_or v 0x300000 else v

-- The kernel key, put where the guest's keys live if the environment asks for it.
unfoldable pub mirror_key : Environment → ℕ → ℕ → VcpuSlot → VcpuSlot
mirror_key e enc out s =
    let key = if enc == kernkeylo_el1 then Controls.vmkeylo_el2 else Controls.vmkeyhi_el2 in
    let mirrored = mark_slot_dirty (record s { ctx = store64 s.ctx key out }) State.controls in
    if (enc == kernkeylo_el1 || enc == kernkeyhi_el1) && e.vmkey_mirror then mirrored else s

-- `if (d->dirty_bit) mark_dirty(s->ctx, d->dirty_bit)`.
unfoldable pub mark_row : SysRegDesc → VcpuSlot → VcpuSlot
mark_row d s = if d.dirty_bit == 0 then s else mark_slot_dirty s d.dirty_bit

-- The writing half, on a word of the context.
unfoldable pub write_word : Environment → SysRegDesc → ℕ → ℕ → ℕ → VcpuSlot → VcpuSlot
write_word e d off enc v s =
    let out = written enc v in
    mark_row d (mirror_key e enc out (record s { ctx = store64 s.ctx off out }))

-- A read, or a write of a value.
pub data Access : Type 0 where
  read : Access
  write : ℕ → Access

-- `block` is what the kernel writes when it grants the request for the capabilities, and `refresh`
-- what it makes of the pages of the calling thread's vCPU when they are synced.
module _ {K : Type 0} (trap : Trap K) (block : K → Capabilities) (refresh : K → Ctx → Ctx) where
  -- `for (i = 0; i < 18; i++) s->id_regs[i] = ohv_id_reg_for(&caps, i, false)`.
  unfoldable pub load_loop : ℕ → ℕ → Capabilities → Host → K → (ℕ → ℕ) → Host × K × (ℕ → ℕ)
  load_loop zero i c h k regs = (h, k, regs)
  load_loop (suc left) i c h k regs =
      let (h1, k1, v) = ohv_id_reg_for trap h k c i false in
      load_loop left (i + 1) c h1 k1 (update regs i v)

  -- The block that is asked for once, whatever the kernel answers.
  unfoldable pub static_caps : Host → K → Host × K × Capabilities
  static_caps h k = elim h.id_caps [
    | some c ↦ (h, k, c)
    | none ↦
        let (r, k') = trap capabilities k in
        let c = if r.code == hv_success then block k' else zero_capabilities in
        (record h { id_caps = some c }, k', c)
  ]

  unfoldable pub load_id_regs : Host → K → VcpuSlot → Host × K × VcpuSlot
  load_id_regs h k s =
      let (h1, k1, c) = static_caps h k in
      let (h2, k2, regs) = load_loop 18 0 c h1 k1 s.id_regs in
      let (h3, k3, midr) = ohv_caps_field trap h2 k2 c midr_el1 in
      elim s.id_regs_loaded [
        | true ↦ (h, k, s)
        | false ↦ (
          h3,
          k3,
          record s {
            id_regs = update (update regs id_slot_midr midr) id_slot_mpidr 0;
            id_regs_loaded = true;
          },
        )
      ]

  -- The syncs before an access to the context: the slot as it is then, and the code.
  unfoldable pub sync_slot : SysRegDesc → K → VcpuSlot → K × VcpuSlot × ℕ
  sync_slot d k s =
      let (r, k') = trap vcpu_sysregs_sync k in
      if wants_sync s.ctx d
      then (k', record s { ctx = refresh k' s.ctx }, r.code)
      else (k, s, hv_success)

  -- `sysreg_access` past the null tests: the slot to write back, and what is read.
  unfoldable pub access_slot :
      Environment → Host → K → ℕ → SysRegDesc → Access → VcpuSlot → Host × K × VcpuSlot × Result ℕ
  access_slot e h k enc d a s = elim (place_of d) [
    | nowhere ↦ (h, k, s, err hv_unsupported)
    | no_id_reg ↦ elim a [ read ↦ (h, k, s, ok 0) | write v ↦ (h, k, s, ok v) ]
    | id_reg i ↦
        let (h1, k1, s1) = load_id_regs h k s in
        elim a [
          | read ↦ (h1, k1, s1, ok (s1.id_regs i))
          | write v ↦ (h1, k1, record s1 { id_regs = update s1.id_regs i v }, ok v)
        ]
    | shadow i ↦ elim a [
      | read ↦ (h, k, s, ok (s.el2_shadow i))
      | write v ↦ (h, k, record s { el2_shadow = update s.el2_shadow i v }, ok v)
    ]
    | word off ↦
        let (k1, s1, r) = sync_slot d k s in
        if not (r == hv_success) then (h, k1, s1, err r) else elim a [
          | read ↦ (h, k1, s1, ok (load64 s1.ctx off))
          | write v ↦ (h, k1, write_word e d off enc v s1, ok v)
        ]
  ]

  unfoldable pub sysreg_access :
      Environment → Host → K → ℕ → ℕ → Bool → Access → Host × K × Result ℕ
  sysreg_access e h k id enc out a = elim (owned_vcpu h id) [
    | none ↦ (h, k, err hv_bad_argument)
    | some s ↦ elim (not out) [
      | true ↦ (h, k, err hv_bad_argument)
      | false ↦ elim (sysreg_lookup enc) [
        | none ↦ (h, k, err hv_unsupported)
        | some d ↦ let (h1, k1, s1, r) = access_slot e h k enc d a s in (put_slot h1 id s1, k1, r)
      ]
    ]
  ]

  -- The cast to `uint16_t` is made here.
  unfoldable pub hv_vcpu_get_sys_reg : Environment → Host → K → ℕ → ℕ → Bool → Host × K × Result ℕ
  hv_vcpu_get_sys_reg e h k id reg out = sysreg_access e h k id (reg % 2 ^ 16) out read

  unfoldable pub hv_vcpu_set_sys_reg : Environment → Host → K → ℕ → ℕ → ℕ → Host × K × ℕ
  hv_vcpu_set_sys_reg e h k id reg v =
      let (h', k', r) = sysreg_access e h k id (reg % 2 ^ 16) true (write v) in
      elim r [
        | ok _ ↦ (h', k', hv_success)
        | err code ↦
            if code == hv_unsupported && e.survey_sysreg
            then (h', k', hv_success)
            else (h', k', code)
      ]
