-- ===== src/Vcpu/Amx.antt =====
-- The matrix coprocessor's state of a vCPU (`__hv_vcpu_amx_prepare` and its neighbours,
-- src/ohv_misc.cpp). It lies in host memory, where the kernel's read-only page points.
pub mod Laws
use open_hypervisor.Base.{
  ℕ, ◌+◌, ◌*◌, ◌/◌, ◌%◌, ◌^◌, Bool, not, Option, none, some, List, [], ◌∷◌, ◌==◌, if◌then◌else◌,
}
use open_hypervisor.Context.{load64}
use open_hypervisor.Context.Ro
use open_hypervisor.Hv.{hv_success, hv_bad_argument, hv_illegal_guest_state, Result, ok, err}
use open_hypervisor.Host.{Host, owned_vcpu, from_owned}
use open_hypervisor.Vm.Kernel.{Trap, vcpu_amx_prepare}
use open_hypervisor.Vcpu.Slot.{VcpuSlot}
use open_hypervisor.Vcpu.Sme.{Bytes, bytes_at, copied}

-- `arm_guest_amx_context`: its parts, where they start and how many bytes they have.
pub data AmxPart : Type 0 where
  x_space y_space z_space state_t : AmxPart

abbrev pub start : AmxPart → ℕ
start x_space = 0
start y_space = 512
start z_space = 1024
start state_t = 5120

abbrev pub size : AmxPart → ℕ
size x_space = 512
size y_space = 512
size z_space = 4096
size state_t = 8

unfoldable pub hv_vcpu_amx_prepare : {K : Type 0} → Trap K → Host → K → ℕ → K × ℕ
hv_vcpu_amx_prepare trap h k id =
    let (r, k') = trap vcpu_amx_prepare k in
    elim (owned_vcpu h id) [ none ↦ (k, hv_bad_argument) | some s ↦ (k', r.code) ]

-- `ohv_ro(s->ctx)->amx`.
abbrev pub context_at : VcpuSlot → ℕ
context_at s = load64 s.ctx Ro.amx

unfoldable pub hv_vcpu_amx_query_active_context : Host → ℕ → Bool → Result Bool
hv_vcpu_amx_query_active_context h id out = from_owned h id out (λ s. ok (not (context_at s == 0)))

unfoldable pub amx_of : Host → ℕ → Option ℕ
amx_of h id = elim (owned_vcpu h id) [
  | none ↦ none
  | some s ↦ if context_at s == 0 then none else some (context_at s)
]

unfoldable pub get_part : AmxPart → Host → Bytes → ℕ → Result (List ℕ)
get_part p h m id = elim (amx_of h id) [
  | none ↦ err hv_illegal_guest_state
  | some a ↦ ok (bytes_at m (a + start p) (size p))
]

unfoldable pub set_part : AmxPart → Host → Bytes → ℕ → Bytes → Bytes × ℕ
set_part p h m id v = elim (amx_of h id) [
  | none ↦ (m, hv_illegal_guest_state)
  | some a ↦ (copied m (a + start p) (size p) v, hv_success)
]

abbrev pub hv_vcpu_get_amx_x_space : Host → Bytes → ℕ → Result (List ℕ)
hv_vcpu_get_amx_x_space h m id = get_part x_space h m id

abbrev pub hv_vcpu_set_amx_x_space : Host → Bytes → ℕ → Bytes → Bytes × ℕ
hv_vcpu_set_amx_x_space h m id v = set_part x_space h m id v

abbrev pub hv_vcpu_get_amx_y_space : Host → Bytes → ℕ → Result (List ℕ)
hv_vcpu_get_amx_y_space h m id = get_part y_space h m id

abbrev pub hv_vcpu_set_amx_y_space : Host → Bytes → ℕ → Bytes → Bytes × ℕ
hv_vcpu_set_amx_y_space h m id v = set_part y_space h m id v

abbrev pub hv_vcpu_get_amx_z_space : Host → Bytes → ℕ → Result (List ℕ)
hv_vcpu_get_amx_z_space h m id = get_part z_space h m id

abbrev pub hv_vcpu_set_amx_z_space : Host → Bytes → ℕ → Bytes → Bytes × ℕ
hv_vcpu_set_amx_z_space h m id v = set_part z_space h m id v

-- A 64-bit word of memory, little endian.
abbrev pub word_of : List ℕ → ℕ
word_of [] = 0
word_of (b ∷ bs) = b + 256 * word_of bs

abbrev pub byte_of : ℕ → Bytes
byte_of v i = v / 2 ^ (8 * i) % 256

-- `out` is whether the out-parameter is not null.
unfoldable pub hv_vcpu_get_amx_state_t_el1 : Host → Bytes → ℕ → Bool → Result ℕ
hv_vcpu_get_amx_state_t_el1 h m id out = elim (amx_of h id) [
  | none ↦ err hv_illegal_guest_state
  | some a ↦
      if out
      then ok (word_of (bytes_at m (a + start state_t) (size state_t)))
      else err hv_illegal_guest_state
]

unfoldable pub hv_vcpu_set_amx_state_t_el1 : Host → Bytes → ℕ → ℕ → Bytes × ℕ
hv_vcpu_set_amx_state_t_el1 h m id v = set_part state_t h m id (byte_of v)
