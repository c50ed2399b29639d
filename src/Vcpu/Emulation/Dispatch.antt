-- ===== src/Vcpu/Emulation/Dispatch.antt =====
-- Which of its cases an access falls into, in the order of the tests of `service_nv2_access`
-- (src/ohv_vcpu.cpp).
use open_hypervisor.Base.{
  ℕ, ◌+◌, ◌*◌, ◌-◌, ◌/◌, ◌^◌, Bool, true, false, not, ◌&&◌, ◌||◌, none, some, bit_and, ltb, leb,
  ◌==◌, if◌then◌else◌,
}
use open_hypervisor.Context.Rw
use open_hypervisor.Context.State
use open_hypervisor.Vcpu.Syndrome.{decode_access}
use open_hypervisor.Vcpu.Emulation.Nested.{nv2_lookup}

-- The operands of the trapped instruction.
pub record Operands : Type 0 where
  pub op0 : ℕ
  pub op1 : ℕ
  pub op2 : ℕ
  pub crn : ℕ
  pub crm : ℕ
  pub rt : ℕ
  pub read : Bool
  pub enc : ℕ

unfoldable pub operands_of : ℕ → Operands
operands_of esr = record {
  op0 = bit_and (esr / 2 ^ 20) 3;
  op1 = bit_and (esr / 2 ^ 14) 7;
  op2 = bit_and (esr / 2 ^ 17) 7;
  crn = bit_and (esr / 2 ^ 10) 0xf;
  crm = bit_and (esr / 2 ^ 1) 0xf;
  rt = bit_and (esr / 2 ^ 5) 0x1f;
  read = not (bit_and esr 1 == 0);
  enc = (decode_access esr).enc;
}

-- A word of the context, with the state bit that a write marks (0 for none); the words and arrays of
-- the slot; and what is answered without a register of the guest's own.
pub data Target : Type 0 where
  amxidr : Target
  handoff : Target
  context_word : ℕ → ℕ → Target
  clidr : Target
  ccsidr : Target
  count : Target
  frequency : Target
  timer : Bool → ℕ → Target
  gic_interface : Target
  translate : Target
  maintenance : Target
  pstate_field : Target
  gl2 : ℕ → Target
  timer_fiq_ena : Target
  ctrr_entry : ℕ → Target
  thread_word : ℕ → Target
  apple_count : Target
  apple_word : Target
  unserved : Target

unfoldable pub is_gic_interface_reg : Operands → Bool
is_gic_interface_reg o =
    if not (o.op0 == 3)
    then false
    else if o.crn == 12 && ((o.op1 == 0 || o.op1 == 4) && (leb 8 o.crm && leb o.crm 12))
    then true
    else o.crn == 4 && (o.op1 == 0 && (o.crm == 6 && o.op2 == 0))

-- The last cases: the Apple registers of the two groups, then the EL2 registers.
unfoldable pub late_target : Operands → Target
late_target o =
    if o.op0 == 3 && (o.op1 == 0 || (o.op1 == 4 && o.crm == 10))
    then (if o.op1 == 4 && (o.crm == 10 && (o.op2 == 5 || o.op2 == 6))
        then apple_count
        else if not (o.crn == 15)
        then unserved
        else apple_word)
    else if o.op1 == 4 && o.op0 == 3
    then elim (nv2_lookup o.enc) [
      | none ↦ unserved
      | some r ↦ context_word r.ctx_off (if r.banked then State.sysregs else 0)
    ]
    else unserved

-- The registers that are kept in the slot, from the PSTATE field on.
unfoldable pub slot_target : Operands → Target
slot_target o =
    if o.op0 == 3 && (o.op1 == 3 && (o.crn == 4 && (o.crm == 2 && o.op2 == 6)))
    then pstate_field
    else if o.op0 == 3 && (o.op1 == 6 && (o.crn == 15 && (o.crm == 11 && ltb o.op2 8)))
    then gl2 o.op2
    else if o.op0 == 3 && (o.op1 == 5 && (o.crn == 15 && (o.crm == 1 && o.op2 == 3)))
    then timer_fiq_ena
    else if o.op0 == 3
        && (o.op1 == 4
            && (o.crn == 15
                && ((o.crm == 2 && (leb 2 o.op2 && leb o.op2 5))
                    || (o.crm == 6 && (o.op2 == 4 || o.op2 == 5)))))
    then ctrr_entry (if o.crm == 6 then o.op2 - 1 else o.op2)
    else if o.op0 == 3
        && (o.crn == 15
            && (o.op1 == 5 && ((o.crm == 1 && o.op2 == 4) || (o.crm == 10 && o.op2 == 1))))
    then thread_word (if o.crm == 1 then 0 else 1)
    else late_target o

-- The cache registers, the counters and the timers.
unfoldable pub machine_target : Operands → Target
machine_target o =
    if o.op0 == 3
      && (o.crn == 0
          && (o.crm == 0
              && ((o.op1 == 1 && (o.op2 == 0 || o.op2 == 1)) || (o.op1 == 2 && o.op2 == 0))))
    then (if o.op1 == 2
        then context_word (Rw.shared_sysregs + 7 * 8) State.sysregs
        else if not o.read
        then unserved
        else if o.op2 == 1
        then clidr
        else ccsidr)
    else if o.op0 == 3 && (o.op1 == 3 && (o.crn == 14 && (o.crm == 0 && o.read)))
    then (if o.op2 == 1 || o.op2 == 2 then count else if o.op2 == 0 then frequency else unserved)
    else if o.op0 == 3 && (o.op1 == 3 && (o.crn == 14 && (o.crm == 2 || o.crm == 3)))
    then timer (o.crm == 2) o.op2
    else if is_gic_interface_reg o
    then gic_interface
    else if o.op0 == 1 && ((o.op1 == 4 || o.op1 == 0) && (o.crn == 7 && (o.crm == 8 || o.crm == 9)))
    then translate
    else if o.op0 == 1 && o.op1 == 4
    then maintenance
    else slot_target o

unfoldable pub target_of : Operands → Target
target_of o =
    if o.op0 == 3 && (o.op1 == 6 && (o.crn == 15 && (o.crm == 2 && (o.op2 == 7 && o.read))))
    then amxidr
    else if o.op0 == 3
        && (o.op1 == 6 && (o.crn == 15 && (o.crm == 15 && (o.op2 == 7 && not o.read))))
    then handoff
    else if o.op0 == 3
        && (o.op1 == 6
            && (o.crn == 15
                && ((o.crm == 1 && o.op2 == 2) || (o.crm == 8 && (o.op2 == 1 || o.op2 == 2)))))
    then (if o.crm == 1
        then context_word (Rw.extregs + 42 * 8) State.gxf
        else if o.op2 == 1
        then context_word (Rw.extregs + 43 * 8) State.gxf
        else context_word (Rw.extregs + 44 * 8) State.gxf)
    else machine_target o
