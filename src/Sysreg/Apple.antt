-- ===== src/Sysreg/Apple.antt =====
-- The hand-kept tables: Apple's private registers and those of EL2
-- (src/ohv_sysreg_apple.cpp).
use open_hypervisor.Base.{true, false, List, [], ◌∷◌}
use open_hypervisor.Context.State
use open_hypervisor.Sysreg.{SysRegDesc, desc}

-- `kAppleTable`.
abbrev pub k_apple_table : List SysRegDesc
k_apple_table =
    desc 0xf788 2 55 State.sprr true
    ∷ desc 0xf78d 2 58 State.sprr true
    ∷ desc 0xf78e 2 57 State.sprr true
    ∷ desc 0xf78a 2 42 State.gxf true
    ∷ desc 0xf7c1 2 43 State.gxf true
    ∷ desc 0xf7c2 2 44 State.gxf true
    ∷ desc 0xf7d0 2 45 State.gxf true
    ∷ desc 0xf7d1 2 46 State.gxf true
    ∷ desc 0xf7d2 2 48 State.gxf true
    ∷ desc 0xf7d3 2 52 State.gxf true
    ∷ desc 0xf7d4 2 47 State.gxf true
    ∷ desc 0xf7d5 2 50 State.gxf true
    ∷ desc 0xf7d6 2 51 State.gxf true
    ∷ desc 0xf7d7 2 49 State.gxf true
    ∷ []

-- `kEl2Table`. The index of a raw row is the context offset in words of eight bytes.
abbrev pub k_el2_table : List SysRegDesc
k_el2_table =
    desc 0xe000 6 297 State.controls false
    ∷ desc 0xe005 6 296 State.controls false
    ∷ desc 0xe08a 6 294 State.controls false
    ∷ desc 0xe089 6 295 State.controls false
    ∷ desc 0xe088 6 527 State.controls false
    ∷ desc 0xe108 6 516 State.controls false
    ∷ desc 0xe10a 6 520 State.controls false
    ∷ desc 0xe703 6 524 State.controls false
    ∷ desc 0xe682 6 530 State.controls false
    ∷ desc 0xe784 2 29 State.ptrauth_apple true
    ∷ desc 0xe789 2 40 State.ptrauth_apple true
    ∷ desc 0xe788 2 41 State.ptrauth_apple true
    ∷ desc 0xf7c7 2 53 State.gxf true
    ∷ desc 0xf781 2 54 State.gxf true
    ∷ desc 0xf78b 2 56 State.sprr true
    ∷ desc 0xf799 2 59 State.sprr true
    ∷ desc 0xe7f9 2 76 State.jitbox true
    ∷ desc 0xe7fc 2 77 State.jitbox true
    ∷ desc 0xe7ed 2 78 State.jitbox true
    ∷ desc 0xe7ec 2 79 State.jitbox true
    ∷ desc 0xe7ef 2 80 State.jitbox true
    ∷ desc 0xe7ee 2 81 State.jitbox true
    ∷ desc 0xe080 7 0 0 false
    ∷ desc 0xe100 7 2 0 false
    ∷ desc 0xe101 7 3 0 false
    ∷ desc 0xe102 7 4 0 false
    ∷ desc 0xe200 7 5 0 false
    ∷ desc 0xe201 7 6 0 false
    ∷ desc 0xe290 7 7 0 false
    ∷ desc 0xe300 7 8 0 false
    ∷ desc 0xe304 7 9 0 false
    ∷ desc 0xe510 7 10 0 false
    ∷ desc 0xe600 7 11 0 false
    ∷ desc 0xe708 7 12 0 false
    ∷ desc 0xf208 7 13 0 false
    ∷ []
