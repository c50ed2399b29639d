-- ===== src/Vcpu/Emulation/Nested.antt =====
-- Where a guest hypervisor's EL2 registers live (`kNv2Regs`, `nv2_lookup`, src/ohv_vcpu.cpp).
use open_hypervisor.Base.{
  ℕ, ◌+◌, ◌*◌, Bool, true, false, Option, none, some, List, [], ◌∷◌, ◌==◌, if◌then◌else◌,
}
use open_hypervisor.Context.Rw

pub record Nv2Reg : Type 0 where
  pub enc : ℕ
  pub ctx_off : ℕ
  pub banked : Bool

-- `BANKED(i)`: an EL1 register, in the banked block.
abbrev pub in_bank : ℕ → ℕ → Nv2Reg
in_bank enc i = record { enc = enc; ctx_off = Rw.banked_sysregs + i * 8; banked = true }

-- `VNCR(x)`: a word of the nested block of the page.
abbrev pub in_vncr : ℕ → ℕ → Nv2Reg
in_vncr enc x = record { enc = enc; ctx_off = 0x1000 + x; banked = false }

abbrev pub k_nv2_regs : List Nv2Reg
k_nv2_regs =
    in_bank 0xe080 12
    ∷ in_bank 0xe08a 13
    ∷ in_bank 0xe100 0
    ∷ in_bank 0xe101 1
    ∷ in_bank 0xe102 2
    ∷ in_bank 0xe510 6
    ∷ in_bank 0xe518 7
    ∷ in_bank 0xe681 17
    ∷ in_bank 0xe200 14
    ∷ in_bank 0xe201 3
    ∷ in_bank 0xe300 4
    ∷ in_bank 0xe290 5
    ∷ in_vncr 0xe000 0x088
    ∷ in_vncr 0xe005 0x050
    ∷ in_vncr 0xe088 0x078
    ∷ in_vncr 0xe089 0x130
    ∷ in_vncr 0xe08b 0x080
    ∷ in_vncr 0xe108 0x020
    ∷ in_vncr 0xe10a 0x040
    ∷ in_vncr 0xe304 0x1f8
    ∷ in_vncr 0xe682 0x090
    ∷ in_vncr 0xe703 0x060
    ∷ in_vncr 0xe708 0x0e0
    ∷ in_vncr 0xe600 0x250
    ∷ []

unfoldable pub find_nv2 : List Nv2Reg → ℕ → Option Nv2Reg
find_nv2 [] enc = none
find_nv2 (r ∷ rs) enc = let rest = find_nv2 rs enc in if r.enc == enc then some r else rest

unfoldable pub nv2_lookup : ℕ → Option Nv2Reg
nv2_lookup enc = find_nv2 k_nv2_regs enc
