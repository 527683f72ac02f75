-- ===== src/Cpu/Decode/Switch.antt =====
-- Field tests of libcpu/src/decode: bits, ranges of bits, and a switch over small values.
use switch_emu_pub.Base.{ℕ, zero, suc, List, [], ◌∷◌}

-- `switch (n)` over the cases 0, 1, 2, …, and the default.
abbrev pub switch {ℓ} : {A : Type ℓ} → ℕ → List A → A → A
switch n [] other = other
switch zero (x ∷ xs) other = x
switch (suc n) (x ∷ xs) other = switch n xs other
