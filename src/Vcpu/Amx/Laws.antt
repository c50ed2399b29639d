-- ===== src/Vcpu/Amx/Laws.antt =====
-- What a part of the matrix state reads after a write of a part (src/ohv_misc.cpp).
use open_hypervisor.Base.{
  ℕ, ◌+◌, ◌^◌, ◌<◌, ◌≡◌, inl, inr, refl, ap, ◌∙◌, Bool, true, arith, ◌==◌, if◌then◌else◌,
  Option-cases,
}
use open_hypervisor.Hv.{hv_success, hv_illegal_guest_state, ok, err}
use open_hypervisor.Host.{Host}
use open_hypervisor.Vcpu.Sme.{Bytes, bytes_at, copied}
use open_hypervisor.Vcpu.Sme.Laws.{bytes_at-copied}
use open_hypervisor.Vcpu.Amx.{
  AmxPart, start, size, state_t, amx_of, set_part, word_of, byte_of, hv_vcpu_get_amx_state_t_el1,
  hv_vcpu_set_amx_state_t_el1,
}

-- Parts are told apart by where they start.
abbrev pub same : AmxPart → AmxPart → Bool
same p q = start p == start q

read_same :
    (m v : Bytes) (a : ℕ) (p q : AmxPart)
    → start p ≡ start q
    → size p ≡ size q
    → bytes_at (copied m (a + start p) (size p) v) (a + start q) (size q) ≡ bytes_at v 0 (size q)
read_same m v a p q starts sizes =
    ap (λ (f : ℕ). bytes_at (copied m (a + start p) (size p) v) f (size q)) (omega (arith, starts))
    ∙ bytes_at-copied m v (a + start p) (size p) 0 (size q) (omega (arith, sizes))

whole_word : (v : ℕ) → v < 2 ^ 64 → word_of (bytes_at (byte_of v) 0 8) ≡ v
unfolding bytes_at
whole_word v lt = omega arith

-- The state word reads what was last written to it, where there is a state; elsewhere the write is
-- refused.
pub get_amx_state_t_el1-set :
    (h : Host) (m : Bytes) (id v : ℕ)
    → v < 2 ^ 64
    → let (m', r) = hv_vcpu_set_amx_state_t_el1 h m id v in
      hv_vcpu_get_amx_state_t_el1 h m' id true
      ≡ (if r == hv_success then ok v else err hv_illegal_guest_state)
unfolding hv_vcpu_set_amx_state_t_el1 hv_vcpu_get_amx_state_t_el1 set_part
get_amx_state_t_el1-set h m id v lt = elim (Option-cases (amx_of h id)) [
  | inl absent ↦ ground (arith, absent)
  | inr (a, there) ↦
      let read = read_same m (byte_of v) a state_t state_t refl refl in
      ground (arith, there, ap word_of read ∙ whole_word v lt)
]
