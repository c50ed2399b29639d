-- ===== src/Sysreg/Generated.antt =====
-- The generated table of system registers and the case labels that lead to its rows
-- (src/ohv_sysreg_table.cpp), and the registers that the interface names
-- (`hv_sys_reg_t`, include/openhyp/hv_compat_enums.h).
use open_hypervisor.Base.{ℕ, true, false, List, [], ◌∷◌}
use open_hypervisor.Context.State
use open_hypervisor.Sysreg.{SysRegDesc, desc}

-- `kTable`.
abbrev pub k_table : List SysRegDesc
k_table =
    desc 0x8004 5 0 0 false
    ∷ desc 0x8005 5 0 0 false
    ∷ desc 0x8006 5 0 0 false
    ∷ desc 0x8007 5 0 0 false
    ∷ desc 0x800c 5 0 0 false
    ∷ desc 0x800d 5 0 0 false
    ∷ desc 0x800e 5 0 0 false
    ∷ desc 0x800f 5 0 0 false
    ∷ desc 0x8010 3 64 State.debug true
    ∷ desc 0x8012 0 0 0 false
    ∷ desc 0x8014 5 0 0 false
    ∷ desc 0x8015 5 0 0 false
    ∷ desc 0x8016 5 0 0 false
    ∷ desc 0x8017 5 0 0 false
    ∷ desc 0x801c 5 0 0 false
    ∷ desc 0x801d 5 0 0 false
    ∷ desc 0x801e 5 0 0 false
    ∷ desc 0x801f 5 0 0 false
    ∷ desc 0x8024 5 0 0 false
    ∷ desc 0x8025 5 0 0 false
    ∷ desc 0x8026 5 0 0 false
    ∷ desc 0x8027 5 0 0 false
    ∷ desc 0x802c 5 0 0 false
    ∷ desc 0x802d 5 0 0 false
    ∷ desc 0x802e 5 0 0 false
    ∷ desc 0x802f 5 0 0 false
    ∷ desc 0x8034 5 0 0 false
    ∷ desc 0x8035 5 0 0 false
    ∷ desc 0x8036 5 0 0 false
    ∷ desc 0x8037 5 0 0 false
    ∷ desc 0x803c 5 0 0 false
    ∷ desc 0x803d 5 0 0 false
    ∷ desc 0x803e 5 0 0 false
    ∷ desc 0x803f 5 0 0 false
    ∷ desc 0x8044 5 0 0 false
    ∷ desc 0x8045 5 0 0 false
    ∷ desc 0x8046 5 0 0 false
    ∷ desc 0x8047 5 0 0 false
    ∷ desc 0x804c 5 0 0 false
    ∷ desc 0x804d 5 0 0 false
    ∷ desc 0x804e 5 0 0 false
    ∷ desc 0x804f 5 0 0 false
    ∷ desc 0x8054 5 0 0 false
    ∷ desc 0x8055 5 0 0 false
    ∷ desc 0x8056 5 0 0 false
    ∷ desc 0x8057 5 0 0 false
    ∷ desc 0x805c 5 0 0 false
    ∷ desc 0x805d 5 0 0 false
    ∷ desc 0x805e 5 0 0 false
    ∷ desc 0x805f 5 0 0 false
    ∷ desc 0x8064 5 0 0 false
    ∷ desc 0x8065 5 0 0 false
    ∷ desc 0x8066 5 0 0 false
    ∷ desc 0x8067 5 0 0 false
    ∷ desc 0x806c 5 0 0 false
    ∷ desc 0x806d 5 0 0 false
    ∷ desc 0x806e 5 0 0 false
    ∷ desc 0x806f 5 0 0 false
    ∷ desc 0x8074 5 0 0 false
    ∷ desc 0x8075 5 0 0 false
    ∷ desc 0x8076 5 0 0 false
    ∷ desc 0x8077 5 0 0 false
    ∷ desc 0x807c 5 0 0 false
    ∷ desc 0x807d 5 0 0 false
    ∷ desc 0x807e 5 0 0 false
    ∷ desc 0x807f 5 0 0 false
    ∷ desc 0xc000 5 0 0 false
    ∷ desc 0xc005 5 0 0 false
    ∷ desc 0xc020 5 0 0 false
    ∷ desc 0xc021 5 0 0 false
    ∷ desc 0xc028 5 0 0 false
    ∷ desc 0xc029 5 0 0 false
    ∷ desc 0xc030 5 0 0 false
    ∷ desc 0xc031 5 0 0 false
    ∷ desc 0xc038 5 0 0 false
    ∷ desc 0xc039 5 0 0 false
    ∷ desc 0xc03a 5 0 0 false
    ∷ desc 0xc080 1 12 State.sysregs true
    ∷ desc 0xc082 1 13 State.sysregs true
    ∷ desc 0xc100 1 0 State.sysregs true
    ∷ desc 0xc101 1 1 State.sysregs true
    ∷ desc 0xc102 1 2 State.sysregs true
    ∷ desc 0xc108 2 33 State.ptrauth_arm true
    ∷ desc 0xc109 2 32 State.ptrauth_arm true
    ∷ desc 0xc10a 2 35 State.ptrauth_arm true
    ∷ desc 0xc10b 2 34 State.ptrauth_arm true
    ∷ desc 0xc110 2 37 State.ptrauth_arm true
    ∷ desc 0xc111 2 36 State.ptrauth_arm true
    ∷ desc 0xc112 2 39 State.ptrauth_arm true
    ∷ desc 0xc113 2 38 State.ptrauth_arm true
    ∷ desc 0xc118 2 31 State.ptrauth_arm true
    ∷ desc 0xc119 2 30 State.ptrauth_arm true
    ∷ desc 0xc200 1 14 State.sysregs true
    ∷ desc 0xc201 1 3 State.sysregs true
    ∷ desc 0xc208 0 4 0 false
    ∷ desc 0xc288 1 15 State.sysregs true
    ∷ desc 0xc289 1 16 State.sysregs true
    ∷ desc 0xc290 1 5 State.sysregs true
    ∷ desc 0xc300 1 4 State.sysregs true
    ∷ desc 0xc3a0 0 6 0 false
    ∷ desc 0xc510 1 6 State.sysregs true
    ∷ desc 0xc518 1 7 State.sysregs true
    ∷ desc 0xc600 1 8 State.sysregs true
    ∷ desc 0xc681 1 17 State.sysregs true
    ∷ desc 0xc684 0 1 0 false
    ∷ desc 0xc708 1 20 State.sysregs true
    ∷ desc 0xd000 0 7 0 false
    ∷ desc 0xde82 0 2 0 false
    ∷ desc 0xde83 0 3 0 false
    ∷ desc 0xdf19 1 18 State.sysregs true
    ∷ desc 0xdf1a 1 9 State.sysregs true
    ∷ desc 0xe208 0 5 0 false
    ∷ desc 0xdf11 7 30 0 false
    ∷ desc 0xdf12 1 10 State.sysregs true
    ∷ []

-- The labels of the switch; the case of the label at place `i` answers row `i` of `kTable`.
abbrev pub case_labels : List ℕ
case_labels =
    0x8004 ∷ 0x8005 ∷ 0x8006 ∷ 0x8007 ∷ 0x800c ∷ 0x800d ∷ 0x800e ∷ 0x800f ∷ 0x8010 ∷ 0x8012 ∷ 0x8014
    ∷ 0x8015 ∷ 0x8016 ∷ 0x8017 ∷ 0x801c ∷ 0x801d ∷ 0x801e ∷ 0x801f ∷ 0x8024 ∷ 0x8025 ∷ 0x8026
    ∷ 0x8027 ∷ 0x802c ∷ 0x802d ∷ 0x802e ∷ 0x802f ∷ 0x8034 ∷ 0x8035 ∷ 0x8036 ∷ 0x8037 ∷ 0x803c
    ∷ 0x803d ∷ 0x803e ∷ 0x803f ∷ 0x8044 ∷ 0x8045 ∷ 0x8046 ∷ 0x8047 ∷ 0x804c ∷ 0x804d ∷ 0x804e
    ∷ 0x804f ∷ 0x8054 ∷ 0x8055 ∷ 0x8056 ∷ 0x8057 ∷ 0x805c ∷ 0x805d ∷ 0x805e ∷ 0x805f ∷ 0x8064
    ∷ 0x8065 ∷ 0x8066 ∷ 0x8067 ∷ 0x806c ∷ 0x806d ∷ 0x806e ∷ 0x806f ∷ 0x8074 ∷ 0x8075 ∷ 0x8076
    ∷ 0x8077 ∷ 0x807c ∷ 0x807d ∷ 0x807e ∷ 0x807f ∷ 0xc000 ∷ 0xc005 ∷ 0xc020 ∷ 0xc021 ∷ 0xc028
    ∷ 0xc029 ∷ 0xc030 ∷ 0xc031 ∷ 0xc038 ∷ 0xc039 ∷ 0xc03a ∷ 0xc080 ∷ 0xc082 ∷ 0xc100 ∷ 0xc101
    ∷ 0xc102 ∷ 0xc108 ∷ 0xc109 ∷ 0xc10a ∷ 0xc10b ∷ 0xc110 ∷ 0xc111 ∷ 0xc112 ∷ 0xc113 ∷ 0xc118
    ∷ 0xc119 ∷ 0xc200 ∷ 0xc201 ∷ 0xc208 ∷ 0xc288 ∷ 0xc289 ∷ 0xc290 ∷ 0xc300 ∷ 0xc3a0 ∷ 0xc510
    ∷ 0xc518 ∷ 0xc600 ∷ 0xc681 ∷ 0xc684 ∷ 0xc708 ∷ 0xd000 ∷ 0xde82 ∷ 0xde83 ∷ 0xdf19 ∷ 0xdf1a
    ∷ 0xe208 ∷ 0xdf11 ∷ 0xdf12 ∷ []

-- The values of `hv_sys_reg_t`.
abbrev pub hv_sys_regs : List ℕ
hv_sys_regs =
    0x8004 ∷ 0x8005 ∷ 0x8006 ∷ 0x8007 ∷ 0x800c ∷ 0x800d ∷ 0x800e ∷ 0x800f ∷ 0x8010 ∷ 0x8012 ∷ 0x8014
    ∷ 0x8015 ∷ 0x8016 ∷ 0x8017 ∷ 0x801c ∷ 0x801d ∷ 0x801e ∷ 0x801f ∷ 0x8024 ∷ 0x8025 ∷ 0x8026
    ∷ 0x8027 ∷ 0x802c ∷ 0x802d ∷ 0x802e ∷ 0x802f ∷ 0x8034 ∷ 0x8035 ∷ 0x8036 ∷ 0x8037 ∷ 0x803c
    ∷ 0x803d ∷ 0x803e ∷ 0x803f ∷ 0x8044 ∷ 0x8045 ∷ 0x8046 ∷ 0x8047 ∷ 0x804c ∷ 0x804d ∷ 0x804e
    ∷ 0x804f ∷ 0x8054 ∷ 0x8055 ∷ 0x8056 ∷ 0x8057 ∷ 0x805c ∷ 0x805d ∷ 0x805e ∷ 0x805f ∷ 0x8064
    ∷ 0x8065 ∷ 0x8066 ∷ 0x8067 ∷ 0x806c ∷ 0x806d ∷ 0x806e ∷ 0x806f ∷ 0x8074 ∷ 0x8075 ∷ 0x8076
    ∷ 0x8077 ∷ 0x807c ∷ 0x807d ∷ 0x807e ∷ 0x807f ∷ 0xc000 ∷ 0xc005 ∷ 0xc020 ∷ 0xc021 ∷ 0xc028
    ∷ 0xc029 ∷ 0xc030 ∷ 0xc031 ∷ 0xc038 ∷ 0xc039 ∷ 0xc03a ∷ 0xc080 ∷ 0xc082 ∷ 0xc100 ∷ 0xc101
    ∷ 0xc102 ∷ 0xc108 ∷ 0xc109 ∷ 0xc10a ∷ 0xc10b ∷ 0xc110 ∷ 0xc111 ∷ 0xc112 ∷ 0xc113 ∷ 0xc118
    ∷ 0xc119 ∷ 0xc200 ∷ 0xc201 ∷ 0xc208 ∷ 0xc288 ∷ 0xc289 ∷ 0xc290 ∷ 0xc300 ∷ 0xc3a0 ∷ 0xc510
    ∷ 0xc518 ∷ 0xc600 ∷ 0xc681 ∷ 0xc684 ∷ 0xc708 ∷ 0xd000 ∷ 0xde82 ∷ 0xde83 ∷ 0xdf11 ∷ 0xdf12
    ∷ 0xdf19 ∷ 0xdf1a ∷ 0xe208 ∷ []
