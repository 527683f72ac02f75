-- ===== src/Cpu/Inst.antt =====
-- libcpu/inc/instruction.h: the fields of an instruction word that the modelled handlers read.
use switch_emu_pub.Base.{ℕ, ◌/◌, ◌%◌, ◌^◌}

abbrev pub cond : ℕ → ℕ
cond bits = bits % 2 ^ 4

abbrev pub cond_comp : ℕ → ℕ
cond_comp bits = bits / 2 ^ 12 % 2 ^ 4

abbrev pub f0_25 : ℕ → ℕ
f0_25 bits = bits % 2 ^ 26

abbrev pub f5_18 : ℕ → ℕ
f5_18 bits = bits / 2 ^ 5 % 2 ^ 14

abbrev pub f5_20 : ℕ → ℕ
f5_20 bits = bits / 2 ^ 5 % 2 ^ 16

abbrev pub f5_23 : ℕ → ℕ
f5_23 bits = bits / 2 ^ 5 % 2 ^ 19

abbrev pub f10_12 : ℕ → ℕ
f10_12 bits = bits / 2 ^ 10 % 2 ^ 3

abbrev pub f10_15 : ℕ → ℕ
f10_15 bits = bits / 2 ^ 10 % 2 ^ 6

abbrev pub f10_21 : ℕ → ℕ
f10_21 bits = bits / 2 ^ 10 % 2 ^ 12

abbrev pub f12_20 : ℕ → ℕ
f12_20 bits = bits / 2 ^ 12 % 2 ^ 9

abbrev pub f15_21 : ℕ → ℕ
f15_21 bits = bits / 2 ^ 15 % 2 ^ 7

abbrev pub f22_23 : ℕ → ℕ
f22_23 bits = bits / 2 ^ 22 % 2 ^ 2

abbrev pub f16_20 : ℕ → ℕ
f16_20 bits = bits / 2 ^ 16 % 2 ^ 5

-- System registers.
abbrev pub o0 : ℕ → ℕ
o0 bits = bits / 2 ^ 19 % 2

abbrev pub op1 : ℕ → ℕ
op1 bits = bits / 2 ^ 16 % 2 ^ 3

abbrev pub crn : ℕ → ℕ
crn bits = bits / 2 ^ 12 % 2 ^ 4

abbrev pub crm : ℕ → ℕ
crm bits = bits / 2 ^ 8 % 2 ^ 4

abbrev pub op2 : ℕ → ℕ
op2 bits = bits / 2 ^ 5 % 2 ^ 3

abbrev pub extend_option : ℕ → ℕ
extend_option bits = bits / 2 ^ 13 % 2 ^ 3

abbrev pub hw : ℕ → ℕ
hw bits = bits / 2 ^ 21 % 2 ^ 2

abbrev pub opc : ℕ → ℕ
opc bits = bits / 2 ^ 29 % 2 ^ 2

abbrev pub shift_field : ℕ → ℕ
shift_field bits = bits / 2 ^ 22 % 2 ^ 2

-- Registers.
abbrev pub rt : ℕ → ℕ
rt bits = bits % 2 ^ 5

abbrev pub rd : ℕ → ℕ
rd bits = bits % 2 ^ 5

abbrev pub rn : ℕ → ℕ
rn bits = bits / 2 ^ 5 % 2 ^ 5

abbrev pub rm : ℕ → ℕ
rm bits = bits / 2 ^ 16 % 2 ^ 5

abbrev pub ra : ℕ → ℕ
ra bits = bits / 2 ^ 10 % 2 ^ 5

abbrev pub rt2 : ℕ → ℕ
rt2 bits = bits / 2 ^ 10 % 2 ^ 5

abbrev pub rs : ℕ → ℕ
rs bits = bits / 2 ^ 16 % 2 ^ 5

-- Immediates.
abbrev pub immlo : ℕ → ℕ
immlo bits = bits / 2 ^ 29 % 2 ^ 2

abbrev pub immhi : ℕ → ℕ
immhi bits = bits / 2 ^ 5 % 2 ^ 19

abbrev pub imms : ℕ → ℕ
imms bits = bits / 2 ^ 10 % 2 ^ 6

abbrev pub immr : ℕ → ℕ
immr bits = bits / 2 ^ 16 % 2 ^ 6

abbrev pub n_field : ℕ → ℕ
n_field bits = bits / 2 ^ 22 % 2

abbrev pub b40 : ℕ → ℕ
b40 bits = bits / 2 ^ 19 % 2 ^ 5

abbrev pub b5 : ℕ → ℕ
b5 bits = bits / 2 ^ 31 % 2
