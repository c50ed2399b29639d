-- ===== src/Vcpu/Emulation/Laws/Arrays.antt =====
-- One write and one read of a register that is kept in a counted array.
use open_hypervisor.Base.{
  ℕ, ◌+◌, ◌^◌, ◌≡◌, ◌<◌, inl, inr, ap, ◌∙◌, Bool, true, false, none, some, List, arith,
  Option-cases,
}
use open_hypervisor.Context.{IsCtx, load64, store64}
use open_hypervisor.Context.Rw
use open_hypervisor.Context.Laws.{load64-store64-Apart, load64-mark_dirty}
use open_hypervisor.Vcpu.Slot.{VcpuSlot, mark_slot_dirty}
use open_hypervisor.Vcpu.Environment.{Environment}
use open_hypervisor.Vcpu.Emulation.Shadows.{with_entry, value_of, put_value}
use open_hypervisor.Vcpu.Emulation.Transfer.{source_of, step_pc, transfer, transfer_read}
use open_hypervisor.Vcpu.Emulation.Dispatch.{Operands}
use open_hypervisor.Vcpu.Emulation.Service.{
  Surroundings, serve_gic_interface, serve_ctrr, serve_apple_word, mark_if, ready_gic_if, or_zero,
}
use open_hypervisor.Context.Laws.{load64-store64, load64-lt}
use open_hypervisor.Vcpu.Emulation.Shadows.{value_of-put_value, with_entry_found, with_entry_again}
use open_hypervisor.Vcpu.Emulation.Laws.{is_clear}

pub source_of-lt : (s : VcpuSlot) (rt : ℕ) → IsCtx s.ctx → source_of s rt < 2 ^ 64
unfolding source_of
source_of-lt s rt cells = ground (arith, load64-lt s.ctx (Rw.x rt) cells)

pub word_after :
    (s : VcpuSlot) (off bit v : ℕ)
    → is_clear off ≡ true
    → v < 2 ^ 64
    → load64 (step_pc (mark_if bit (record s { ctx = store64 s.ctx off v }))).ctx off ≡ v
unfolding step_pc mark_slot_dirty
word_after s off bit v clear lt =
    let c = store64 s.ctx off v in
    let t = mark_if bit (record s { ctx = c }) in
    ground (
      arith,
      load64-store64-Apart t.ctx Rw.pc off (load64 t.ctx Rw.pc + 4),
      load64-mark_dirty c bit off,
      load64-store64 s.ctx off v lt,
    )

pub read_back :
    (read : Bool) (rt v w : ℕ) (put : ℕ → VcpuSlot) (s : VcpuSlot)
    → read ≡ true
    → rt < 31
    → v ≡ w
    → w < 2 ^ 64
    → load64 (transfer read rt v put s).ctx (Rw.x rt) ≡ w
read_back read rt v w put s r lt same small =
    rw r (transfer_read rt v put s lt (ground arith) ∙ same)

-- An array after a write of an entry that is in it.
array_after :
    (capacity n v : ℕ) (es es' : List (ℕ × ℕ))
    → with_entry capacity es n ≡ some es'
    → (with_entry capacity (put_value es' n v) n ≡ some (put_value es' n v))
      × (value_of (put_value es' n v) n ≡ some v)
array_after capacity n v es es' found =
    let (old, there) = with_entry_found capacity es es' n found in
    let now = value_of-put_value es' n v old there in
    (with_entry_again capacity (put_value es' n v) n v now, now)

-- The slot's other fields after a write.
pub transfer_writes :
    (read : Bool) (rt v : ℕ) (put : ℕ → VcpuSlot) (s : VcpuSlot)
    → read ≡ false
    → transfer read rt v put s ≡ step_pc (put (source_of s rt))
unfolding transfer
transfer_writes read rt v put s w = ground (arith, w)

module _ (e : Environment) (m : Surroundings) where
  ctrr_written :
      (o : Operands) (sel : ℕ) (held : ℕ) (es : List (ℕ × ℕ)) (s : VcpuSlot)
      → o.read ≡ false
      → with_entry 6 s.ctrr sel ≡ some es
      → ((serve_ctrr e m o sel held s).slot.ctrr ≡ put_value es sel (source_of s o.rt))
  unfolding serve_ctrr transfer step_pc source_of
  ctrr_written o sel held es s w found = ground arith

  ctrr_full :
      (o : Operands) (sel : ℕ) (held : ℕ) (s : VcpuSlot)
      → with_entry 6 s.ctrr sel ≡ none
      → (serve_ctrr e m o sel held s).served ≡ false
  unfolding serve_ctrr
  ctrr_full o sel held s full = ground arith

  ctrr_reads :
      (o : Operands) (sel : ℕ) (held v : ℕ) (es : List (ℕ × ℕ)) (s : VcpuSlot)
      → o.read ≡ true
      → o.rt < 31
      → v < 2 ^ 64
      → with_entry 6 s.ctrr sel ≡ some es
      → value_of es sel ≡ some v
      → load64 (serve_ctrr e m o sel held s).slot.ctx (Rw.x o.rt) ≡ v
  unfolding serve_ctrr
  ctrr_reads o sel held v es s r lt small found holds =
      let s2 : VcpuSlot = record s { ctrr = es } in
      rw (found, serve_ctrr)
        (read_back o.read o.rt (or_zero (value_of es sel)) v
          (λ v. record s2 { ctrr = put_value es sel v }) s2 r lt (ap or_zero holds) small)

  apple_word_written :
      (o : Operands) (held : ℕ) (es : List (ℕ × ℕ)) (s : VcpuSlot)
      → o.read ≡ false
      → with_entry 96 s.apple_shadow o.enc ≡ some es
      → ((serve_apple_word e m o held s).slot.apple_shadow ≡ put_value es o.enc (source_of s o.rt))
  unfolding serve_apple_word transfer step_pc source_of
  apple_word_written o held es s w found = ground arith

  apple_word_full :
      (o : Operands) (held : ℕ) (s : VcpuSlot)
      → with_entry 96 s.apple_shadow o.enc ≡ none
      → (serve_apple_word e m o held s).served ≡ false
  unfolding serve_apple_word
  apple_word_full o held s full = ground arith

  apple_word_reads :
      (o : Operands) (held v : ℕ) (es : List (ℕ × ℕ)) (s : VcpuSlot)
      → o.read ≡ true
      → o.rt < 31
      → v < 2 ^ 64
      → with_entry 96 s.apple_shadow o.enc ≡ some es
      → value_of es o.enc ≡ some v
      → load64 (serve_apple_word e m o held s).slot.ctx (Rw.x o.rt) ≡ v
  unfolding serve_apple_word
  apple_word_reads o held v es s r lt small found holds =
      let s2 : VcpuSlot = record s { apple_shadow = es } in
      rw (found, serve_apple_word)
        (read_back o.read o.rt (or_zero (value_of es o.enc)) v
          (λ v. record s2 { apple_shadow = put_value es o.enc v }) s2 r lt (ap or_zero holds) small)

  gic_interface_written :
      (o : Operands) (held : ℕ) (es : List (ℕ × ℕ)) (s : VcpuSlot)
      → o.read ≡ false
      → with_entry 48 (ready_gic_if s).gic_if o.enc ≡ some es
      → ((serve_gic_interface e m o held s).slot.gic_if ≡ put_value es o.enc (source_of s o.rt))
        × ((serve_gic_interface e m o held s).slot.gic_if_ready ≡ true)
  unfolding serve_gic_interface transfer step_pc source_of
  gic_interface_written o held es s w found = ground arith

  gic_interface_full :
      (o : Operands) (held : ℕ) (s : VcpuSlot)
      → with_entry 48 (ready_gic_if s).gic_if o.enc ≡ none
      → (serve_gic_interface e m o held s).served ≡ false
  unfolding serve_gic_interface
  gic_interface_full o held s full = ground arith

  gic_interface_reads :
      (o : Operands) (held v : ℕ) (es : List (ℕ × ℕ)) (s : VcpuSlot)
      → o.read ≡ true
      → o.rt < 31
      → v < 2 ^ 64
      → with_entry 48 (ready_gic_if s).gic_if o.enc ≡ some es
      → value_of es o.enc ≡ some v
      → load64 (serve_gic_interface e m o held s).slot.ctx (Rw.x o.rt) ≡ v
  unfolding serve_gic_interface
  gic_interface_reads o held v es s r lt small found holds =
      let s2 : VcpuSlot = record (ready_gic_if s) { gic_if = es } in
      rw (found, serve_gic_interface)
        (read_back o.read o.rt (or_zero (value_of es o.enc)) v
          (λ v. record s2 { gic_if = put_value es o.enc v }) s2 r lt (ap or_zero holds) small)

  pub ctrr_kept :
      (o o' : Operands) (sel : ℕ) (held : ℕ) (s : VcpuSlot)
      → o.read ≡ false
      → o'.read ≡ true
      → o'.rt < 31
      → o'.enc ≡ o.enc
      → IsCtx s.ctx
      → (serve_ctrr e m o sel held s).served ≡ true
      → let out = serve_ctrr e m o sel held s in
        load64 (serve_ctrr e m o' sel out.held out.slot).slot.ctx (Rw.x o'.rt) ≡ source_of s o.rt
  ctrr_kept o o' sel held s w r lt same cells served =
      elim (Option-cases (with_entry 6 s.ctrr sel)) [
        | inl full ↦ ground (arith, served, ctrr_full o sel held s full)
        | inr (es, found) ↦
            let v = source_of s o.rt in
            let t = (serve_ctrr e m o sel held s).slot in
            let at = ctrr_written o sel held es s w found in
            let (again, now) = array_after 6 sel v s.ctrr es found in
            let entry : with_entry 6 t.ctrr sel ≡ some (put_value es sel v) =
              (ap (λ (xs : List (ℕ × ℕ)). with_entry 6 xs sel) at ∙ again) in
            ctrr_reads o' sel (serve_ctrr e m o sel held s).held v (put_value es sel v) t r lt
              (source_of-lt s o.rt cells) entry (now)
      ]

  pub apple_word_kept :
      (o o' : Operands) (held : ℕ) (s : VcpuSlot)
      → o.read ≡ false
      → o'.read ≡ true
      → o'.rt < 31
      → o'.enc ≡ o.enc
      → IsCtx s.ctx
      → (serve_apple_word e m o held s).served ≡ true
      → let out = serve_apple_word e m o held s in
        load64 (serve_apple_word e m o' out.held out.slot).slot.ctx (Rw.x o'.rt) ≡ source_of s o.rt
  apple_word_kept o o' held s w r lt same cells served =
      elim (Option-cases (with_entry 96 s.apple_shadow o.enc)) [
        | inl full ↦ ground (arith, served, apple_word_full o held s full)
        | inr (es, found) ↦
            let v = source_of s o.rt in
            let t = (serve_apple_word e m o held s).slot in
            let at = apple_word_written o held es s w found in
            let (again, now) = array_after 96 o.enc v s.apple_shadow es found in
            let entry : with_entry 96 t.apple_shadow o'.enc ≡ some (put_value es o.enc v) =
              ap (λ (n : ℕ). with_entry 96 t.apple_shadow n) same
              ∙ (ap (λ (xs : List (ℕ × ℕ)). with_entry 96 xs o.enc) at ∙ again) in
            apple_word_reads o' (serve_apple_word e m o held s).held v (put_value es o.enc v) t r lt
              (source_of-lt s o.rt cells) entry (ap (value_of (put_value es o.enc v)) same ∙ now)
      ]

  pub gic_interface_kept :
      (o o' : Operands) (held : ℕ) (s : VcpuSlot)
      → o.read ≡ false
      → o'.read ≡ true
      → o'.rt < 31
      → o'.enc ≡ o.enc
      → IsCtx s.ctx
      → (serve_gic_interface e m o held s).served ≡ true
      → let out = serve_gic_interface e m o held s in
        load64 (serve_gic_interface e m o' out.held out.slot).slot.ctx (Rw.x o'.rt)
        ≡ source_of s o.rt
  gic_interface_kept o o' held s w r lt same cells served =
      elim (Option-cases (with_entry 48 (ready_gic_if s).gic_if o.enc)) [
        | inl full ↦ ground (arith, served, gic_interface_full o held s full)
        | inr (es, found) ↦
            let v = source_of s o.rt in
            let t = (serve_gic_interface e m o held s).slot in
            let wrote = gic_interface_written o held es s w found in
            let at : (ready_gic_if t).gic_if ≡ put_value es o.enc v = ground (arith, wrote) in
            let (again, now) = array_after 48 o.enc v (ready_gic_if s).gic_if es found in
            let entry : with_entry 48 (ready_gic_if t).gic_if o'.enc ≡ some (put_value es o.enc v) =
              ap (λ (n : ℕ). with_entry 48 (ready_gic_if t).gic_if n) same
              ∙ (ap (λ (xs : List (ℕ × ℕ)). with_entry 48 xs o.enc) at ∙ again) in
            gic_interface_reads o' (serve_gic_interface e m o held s).held v (put_value es o.enc v)
              t r lt (source_of-lt s o.rt cells) entry
              (ap (value_of (put_value es o.enc v)) same ∙ now)
      ]
