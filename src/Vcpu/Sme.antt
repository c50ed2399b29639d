-- ===== src/Vcpu/Sme.antt =====
-- The streaming vector registers of a vCPU (`hv_vcpu_get_sme_z_reg` and its neighbours,
-- src/ohv_misc.cpp). They lie in host memory, where the kernel's read-only page points: a memory is
-- a function from addresses to bytes, and no region of one runs past the address space.
pub mod Laws
use open_hypervisor.Base.{
  ℕ, zero, suc, ◌+◌, ◌-◌, ◌*◌, ◌^◌, ◌%◌, Bool, false, not, ◌&&◌, ◌||◌, Option, none, some, List, [],
  ◌∷◌, bit_and, bit_or, ltb, leb, ◌==◌, if◌then◌else◌,
}
use open_hypervisor.Context.{load32, load64}
use open_hypervisor.Context.Ro
use open_hypervisor.Context.State
use open_hypervisor.Hv.{
  hv_success, hv_bad_argument, hv_illegal_guest_state, hv_no_device, hv_unsupported, Result, ok,
  err,
}
use open_hypervisor.Host.{Host, owned_vcpu, put_slot, from_owned}
use open_hypervisor.Vm.Kernel.{Trap, vcpu_set_svcr}
use open_hypervisor.Vcpu.Slot.{VcpuSlot, mark_slot_dirty}

abbrev pub Bytes : Type 0
Bytes = ℕ → ℕ

-- `memcpy`: what is at `from`, as `n` bytes, and the memory with `n` bytes of `v` at `to`.
unfoldable pub bytes_at : Bytes → ℕ → ℕ → List ℕ
bytes_at m from zero = []
bytes_at m from (suc n) = m from ∷ bytes_at m (suc from) n

unfoldable pub copied : Bytes → ℕ → ℕ → Bytes → Bytes
copied m to n v a = if leb to a && ltb a (to + n) then v (a - to) else m a

-- `ohv_ro(s->ctx)->sme` and `svl_b`.
abbrev pub region : VcpuSlot → ℕ
region s = load64 s.ctx Ro.sme

abbrev pub svl : VcpuSlot → ℕ
svl s = load32 s.ctx Ro.svl_b % 2 ^ 16

-- The two switches of SVCR.
unfoldable pub hv_vcpu_get_sme_state : Host → ℕ → Bool → Result (Bool × Bool)
hv_vcpu_get_sme_state h id out = from_owned h id out (λ s.
    let svcr = load64 s.ctx Ro.svcr in ok (not (bit_and svcr 1 == 0), not (bit_and svcr 2 == 0)))

-- `n` bytes of the region, from `off` on, where the test of the arguments lets it.
unfoldable pub read_sme : Bytes → VcpuSlot → Bool → ℕ → ℕ → Result (List ℕ)
read_sme m s bad off n =
    if region s == 0
    then err hv_illegal_guest_state
    else if bad
    then err hv_bad_argument
    else ok (bytes_at m (region s + off) n)

unfoldable pub write_sme : Host → Bytes → ℕ → VcpuSlot → Bool → ℕ → ℕ → Bytes → Host × Bytes × ℕ
write_sme h m id s bad off n v =
    if region s == 0
    then (h, m, hv_illegal_guest_state)
    else if bad
    then (h, m, hv_bad_argument)
    else (
      put_slot h id (mark_slot_dirty s State.sme_context),
      copied m (region s + off) n v,
      hv_success,
    )

abbrev pub bad_z : VcpuSlot → ℕ → ℕ → Bool
bad_z s reg len = ltb len (svl s) || ltb 31 reg

unfoldable pub hv_vcpu_get_sme_z_reg : Host → Bytes → ℕ → ℕ → ℕ → Bool → Result (List ℕ)
hv_vcpu_get_sme_z_reg h m id reg len out =
    from_owned h id out (λ s. read_sme m s (bad_z s reg len) (reg * svl s) (svl s))

-- `out` is whether there is a buffer; `v` is what it holds.
unfoldable pub hv_vcpu_set_sme_z_reg : Host → Bytes → ℕ → ℕ → ℕ → Bool → Bytes → Host × Bytes × ℕ
hv_vcpu_set_sme_z_reg h m id reg len out v = elim (owned_vcpu h id) [
  | none ↦ (h, m, hv_bad_argument)
  | some s ↦
      if out
      then write_sme h m id s (bad_z s reg len) (reg * svl s) (svl s) v
      else (h, m, hv_bad_argument)
]

unfoldable pub hv_vcpu_get_sme_za_reg : Host → Bytes → ℕ → ℕ → Bool → Result (List ℕ)
hv_vcpu_get_sme_za_reg h m id len out =
    from_owned h id out (λ s. read_sme m s (ltb len (svl s * svl s)) (32 * svl s) (svl s * svl s))

unfoldable pub hv_vcpu_set_sme_za_reg : Host → Bytes → ℕ → ℕ → Bool → Bytes → Host × Bytes × ℕ
hv_vcpu_set_sme_za_reg h m id len out v = elim (owned_vcpu h id) [
  | none ↦ (h, m, hv_bad_argument)
  | some s ↦
      if out
      then write_sme h m id s (ltb len (svl s * svl s)) (32 * svl s) (svl s * svl s) v
      else (h, m, hv_bad_argument)
]

unfoldable pub hv_vcpu_get_sme_zt0_reg : Host → Bytes → ℕ → Bool → Result (List ℕ)
hv_vcpu_get_sme_zt0_reg h m id out = from_owned h id out (λ s. read_sme m s false 0 64)

unfoldable pub hv_vcpu_set_sme_zt0_reg : Host → Bytes → ℕ → Bool → Bytes → Host × Bytes × ℕ
hv_vcpu_set_sme_zt0_reg h m id out v = elim (owned_vcpu h id) [
  | none ↦ (h, m, hv_bad_argument)
  | some s ↦ if out then write_sme h m id s false 0 64 v else (h, m, hv_bad_argument)
]

-- The predicate registers are not kept.
abbrev pub hv_vcpu_get_sme_p_reg : ℕ → ℕ → ℕ → ℕ
hv_vcpu_get_sme_p_reg id reg len = hv_unsupported

abbrev pub hv_vcpu_set_sme_p_reg : ℕ → ℕ → Bytes → ℕ → ℕ
hv_vcpu_set_sme_p_reg id reg v len = hv_unsupported

-- What is written through the out-parameter, and the code: without a vCPU of the thread's own it is
-- zero beside a refusal.
unfoldable pub hv_sme_config_get_max_svl_bytes : Host → Bool → Option ℕ × ℕ
hv_sme_config_get_max_svl_bytes h out =
    let answer : Option ℕ × ℕ = elim h.current [
      | none ↦ (some 0, hv_no_device)
      | some id ↦ (some (svl (h.vcpus id)), hv_success)
    ] in
    if out then answer else (none, hv_bad_argument)

-- The two switches go to the kernel, which writes SVCR. `none` is a null pointer.
unfoldable pub hv_vcpu_set_sme_state :
    {K : Type 0} → Trap K → Host → K → ℕ → Option (Bool × Bool) → K × ℕ
hv_vcpu_set_sme_state trap h k id none = (k, hv_bad_argument)
hv_vcpu_set_sme_state trap h k id (some (streaming, za)) =
    let (r, k') =
      trap (vcpu_set_svcr (bit_or (if streaming then 1 else 0) (if za then 2 else 0))) k in
    elim (owned_vcpu h id) [ none ↦ (k, hv_bad_argument) | some s ↦ (k', r.code) ]
