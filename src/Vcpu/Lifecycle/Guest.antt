-- ===== src/Vcpu/Lifecycle/Guest.antt =====
-- The controls that a guest hypervisor's vCPU starts with.
use open_hypervisor.Base.{ℕ, ◌^◌, ◌<◌, ◌≡◌, Bool, ◌||◌, arith, bit_and, bit_or, ◌==◌, if◌then◌else◌}
use open_hypervisor.Base.Bits.{
  not64, bit_at, bit_at-and, bit_at-or, bit_at-complement, bit_at-le-one, bit_at-one_hot,
}
use open_hypervisor.Vcpu.Environment.{default_environment}
use open_hypervisor.Vcpu.Lifecycle.{nested_hcr, hcr_exceptions}

bit_at-two : (a b k : ℕ) → bit_at (bit_or (2 ^ a) (2 ^ b)) k ≡ (if k == a || k == b then 1 else 0)
bit_at-two a b k =
    ground (arith, bit_at-or k (2 ^ a) (2 ^ b), bit_at-one_hot a k, bit_at-one_hot b k)

-- HCR_EL2 as a guest hypervisor starts with it when no variable overrides it: nested
-- virtualization is on, the identification registers, secure calls and WFE trap, the physical
-- exceptions are routed to EL2, the host extension is on exactly where the virtual machine has it,
-- and every other bit is what the kernel handed out.
pub nested_hcr-default :
    (vhe : Bool) (hcr k : ℕ)
    → k < 64
    → bit_at (nested_hcr default_environment vhe hcr) k ≡ (
        if k == 34
        then (if vhe then 1 else 0)
        else if (k == 42 || k == 45)
            || ((k == 18 || k == 19) || ((k == 3 || k == 4 || k == 5) || k == 14))
        then 1
        else bit_at hcr k)
unfolding nested_hcr
nested_hcr-default vhe hcr k lk =
    let h1 = bit_or hcr (bit_or (2 ^ 42) (2 ^ 45)) in
    let h2 = if vhe then bit_or h1 (2 ^ 34) else bit_and h1 (not64 (2 ^ 34)) in
    let h3 = bit_or h2 (bit_or (2 ^ 18) (2 ^ 19)) in
    ground (
      arith,
      bit_at-or k hcr (bit_or (2 ^ 42) (2 ^ 45)),
      bit_at-two 42 45 k,
      bit_at-or k h1 (2 ^ 34),
      bit_at-and k h1 (not64 (2 ^ 34)),
      bit_at-complement 64 k (2 ^ 34) lk,
      bit_at-one_hot 34 k,
      bit_at-or k h2 (bit_or (2 ^ 18) (2 ^ 19)),
      bit_at-two 18 19 k,
      bit_at-or k h3 hcr_exceptions,
      bit_at-or k (2 ^ 5) (bit_or (2 ^ 4) (2 ^ 3)),
      bit_at-two 4 3 k,
      bit_at-one_hot 5 k,
      bit_at-or k (bit_or h3 hcr_exceptions) (2 ^ 14),
      bit_at-one_hot 14 k,
      bit_at-le-one k hcr,
    )
