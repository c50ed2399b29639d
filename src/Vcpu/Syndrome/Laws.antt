-- ===== src/Vcpu/Syndrome/Laws.antt =====
-- What is built is what is taken apart.
use open_hypervisor.Base.{ℕ, ◌+◌, ◌*◌, ◌/◌, ◌%◌, ◌^◌, ◌≡◌, true, arith, bit_and, ◌==◌}
use open_hypervisor.Base.Bits.{bit_at, bit_at-and, bit_and_shifted, bit_and_low, bit_or_disjoint}
use open_hypervisor.Vcpu.Syndrome.{is_msr, msr_syndrome, decode_access}

-- The built syndrome as a sum of its fields.
msr_syndrome_sum :
    (i : ℕ)
    → msr_syndrome i
      ≡ 49 * 2 ^ 25
        + (2 + i / 2 ^ 19 % 2) * 2 ^ 20
        + i / 2 ^ 5 % 8 * 2 ^ 17
        + i / 2 ^ 16 % 8 * 2 ^ 14
        + i / 2 ^ 12 % 16 * 2 ^ 10
        + i % 32 * 2 ^ 5
        + i / 2 ^ 8 % 16 * 2
        + i / 2 ^ 21 % 2
unfolding msr_syndrome
msr_syndrome_sum i =
    let op0 = 2 + bit_and (i / 2 ^ 19) 1 in
    let op1 = bit_and (i / 2 ^ 16) 7 in
    let crn = bit_and (i / 2 ^ 12) 0xf in
    let crm = bit_and (i / 2 ^ 8) 0xf in
    let op2 = bit_and (i / 2 ^ 5) 7 in
    let rt = bit_and i 0x1f in
    let h2 = 49 * 32 + op0 in
    let h3 = h2 * 8 + op2 in
    let h4 = h3 * 8 + op1 in
    let h5 = h4 * 16 + crn in
    let h6 = h5 * 32 + rt in
    let h7 = h6 * 16 + crm in
    ground (
      arith,
      bit_and_low 1 (i / 2 ^ 21),
      bit_and_low 1 (i / 2 ^ 19),
      bit_and_low 3 (i / 2 ^ 16),
      bit_and_low 4 (i / 2 ^ 12),
      bit_and_low 4 (i / 2 ^ 8),
      bit_and_low 3 (i / 2 ^ 5),
      bit_and_low 5 i,
      bit_or_disjoint 25 49 (op0 * 2 ^ 20),
      bit_or_disjoint 20 h2 (op2 * 2 ^ 17),
      bit_or_disjoint 17 h3 (op1 * 2 ^ 14),
      bit_or_disjoint 14 h4 (crn * 2 ^ 10),
      bit_or_disjoint 10 h5 (rt * 2 ^ 5),
      bit_or_disjoint 5 h6 (crm * 2 ^ 1),
      bit_or_disjoint 1 h7 (bit_and (i / 2 ^ 21) 1),
    )

-- The encoding as a sum of its fields.
decode_access_sum :
    (esr : ℕ)
    → (decode_access esr).enc
      ≡ esr / 2 ^ 20 % 4 * 2 ^ 14
        + esr / 2 ^ 14 % 8 * 2 ^ 11
        + esr / 2 ^ 10 % 16 * 2 ^ 7
        + esr / 2 % 16 * 2 ^ 3
        + esr / 2 ^ 17 % 8
unfolding decode_access
decode_access_sum esr =
    let op0 = bit_and (esr / 2 ^ 20) 3 in
    let op2 = bit_and (esr / 2 ^ 17) 7 in
    let op1 = bit_and (esr / 2 ^ 14) 7 in
    let crn = bit_and (esr / 2 ^ 10) 0xf in
    let crm = bit_and (esr / 2 ^ 1) 0xf in
    let h1 = op0 * 8 + op1 in
    let h2 = h1 * 16 + crn in
    let h3 = h2 * 16 + crm in
    ground (
      arith,
      bit_and_low 2 (esr / 2 ^ 20),
      bit_and_low 3 (esr / 2 ^ 17),
      bit_and_low 3 (esr / 2 ^ 14),
      bit_and_low 4 (esr / 2 ^ 10),
      bit_and_low 4 (esr / 2 ^ 1),
      bit_or_disjoint 14 op0 (op1 * 2 ^ 11),
      bit_or_disjoint 11 h1 (crn * 2 ^ 7),
      bit_or_disjoint 7 h2 (crm * 2 ^ 3),
      bit_or_disjoint 3 h3 op2,
    )

is_msr-op0 : (i : ℕ) → is_msr i ≡ true → i / 2 ^ 20 % 2 ≡ 1
unfolding bit_at
is_msr-op0 i msr =
    let field : bit_and (i / 2 ^ 20) 0xffd * 2 ^ 20 ≡ 0xd51 * 2 ^ 20 =
      ground (arith, bit_and_shifted 20 i 0xffd) in
    omega (arith, bit_at-and 0 (i / 2 ^ 20) 0xffd)

-- The syndrome built for a system register instruction has the exception class of one, and taken
-- apart names the register of the instruction, by the sixteen bits of its encoding there, its
-- general register and its direction.
pub decode_access-msr_syndrome :
    (i : ℕ)
    → is_msr i ≡ true
    → (msr_syndrome i / 2 ^ 26 ≡ 0x18)
      × ((decode_access (msr_syndrome i)).enc ≡ i / 2 ^ 5 % 2 ^ 16)
      × ((decode_access (msr_syndrome i)).rt ≡ i % 2 ^ 5)
      × ((decode_access (msr_syndrome i)).read ≡ (i / 2 ^ 21 % 2 == 1))
unfolding decode_access
decode_access-msr_syndrome i msr =
    let esr = msr_syndrome i in
    (
      omega (arith, msr_syndrome_sum i),
      omega (arith, msr_syndrome_sum i, decode_access_sum esr, is_msr-op0 i msr),
      omega (arith, msr_syndrome_sum i, bit_and_low 5 (esr / 2 ^ 5)),
      ground (arith, msr_syndrome_sum i, bit_and_low 1 esr),
    )
