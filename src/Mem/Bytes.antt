-- ===== src/Mem/Bytes.antt =====
-- Host memory as bytes at addresses, and the pointers that libcpu/src/mem.cpp keeps in free pages.
use switch_emu_pub.Base.{
  ℕ, ◌+◌, ◌-◌, ◌*◌, ◌/◌, ◌%◌, ◌^◌, ◌<◌, ◌≤◌, ◌≡◌, ◌⊎◌, ◌&&◌, leb, ltb, if◌then◌else◌, arith, refl,
  subst, ◌∙◌, lt→ltb, le→leb,
}

-- `*reinterpret_cast<uint8_t**>(p)` on a little-endian host.
unfoldable pub load_pointer : (ℕ → ℕ) → ℕ → ℕ
load_pointer bytes p =
    bytes p
    + bytes (p + 1) * 2 ^ 8
    + bytes (p + 2) * 2 ^ 16
    + bytes (p + 3) * 2 ^ 24
    + bytes (p + 4) * 2 ^ 32
    + bytes (p + 5) * 2 ^ 40
    + bytes (p + 6) * 2 ^ 48
    + bytes (p + 7) * 2 ^ 56

-- `*reinterpret_cast<uint8_t**>(p) = v`.
unfoldable pub store_pointer : (ℕ → ℕ) → ℕ → ℕ → ℕ → ℕ
store_pointer bytes p v a =
    if leb p a && ltb a (p + 8) then v / 2 ^ (8 * (a - p)) % 2 ^ 8 else bytes a

-- `memset(p, 0, n)`.
unfoldable pub clear : (ℕ → ℕ) → ℕ → ℕ → ℕ → ℕ
clear bytes p n a = if leb p a && ltb a (p + n) then 0 else bytes a

-- The eight bytes at `p` and the `n` bytes at `q` do not meet.
abbrev pub Apart : ℕ → ℕ → ℕ → Type 0
Apart p q n = (p + 8 ≤ q) ⊎ (q + n ≤ p)

stored_byte :
    (bytes : ℕ → ℕ) (p v i : ℕ) → i < 8 → store_pointer bytes p v (p + i) ≡ v / 2 ^ (8 * i) % 2 ^ 8
unfolding store_pointer
stored_byte bytes p v i h =
    rw (lt→ltb (p + i) (p + 8) (omega arith), le→leb p (p + i) (omega arith), offset) refl
  where
    offset : p + i - p ≡ i
    offset = omega arith

pub load-store :
    (bytes : ℕ → ℕ) (p v : ℕ) → v < 2 ^ 64 → load_pointer (store_pointer bytes p v) p ≡ v
unfolding load_pointer
load-store bytes p v h = omega (
  arith,
  first,
  stored_byte bytes p v 1 (omega arith),
  stored_byte bytes p v 2 (omega arith),
  stored_byte bytes p v 3 (omega arith),
  stored_byte bytes p v 4 (omega arith),
  stored_byte bytes p v 5 (omega arith),
  stored_byte bytes p v 6 (omega arith),
  stored_byte bytes p v 7 (omega arith),
)
  where
    first : store_pointer bytes p v p ≡ v % 2 ^ 8
    first =
        subst (λ (a : ℕ). store_pointer bytes p v a ≡ v % 2 ^ 8) (omega arith)
          (stored_byte bytes p v 0 (omega arith) ∙ omega arith)

module _ (bytes changed : ℕ → ℕ) (p : ℕ) where
  pub load_unchanged :
      ((i : ℕ) → i < 8 → changed (p + i) ≡ bytes (p + i))
      → load_pointer changed p ≡ load_pointer bytes p
  unfolding load_pointer
  load_unchanged same = omega (
    arith,
    first,
    same 1 (omega arith),
    same 2 (omega arith),
    same 3 (omega arith),
    same 4 (omega arith),
    same 5 (omega arith),
    same 6 (omega arith),
    same 7 (omega arith),
  )
    where
      first : changed p ≡ bytes p
      first = subst (λ (a : ℕ). changed a ≡ bytes a) (omega arith) (same 0 (omega arith))

pub load-store-Apart :
    (bytes : ℕ → ℕ) (p q v : ℕ)
    → Apart p q 8
    → load_pointer (store_pointer bytes q v) p ≡ load_pointer bytes p
unfolding store_pointer
load-store-Apart bytes p q v apart = load_unchanged bytes (store_pointer bytes q v) p unchanged
  where
    unchanged : (i : ℕ) → i < 8 → store_pointer bytes q v (p + i) ≡ bytes (p + i)
    unchanged i h = ground arith

pub load-clear-Apart :
    (bytes : ℕ → ℕ) (p q n : ℕ)
    → Apart p q n
    → load_pointer (clear bytes q n) p ≡ load_pointer bytes p
unfolding clear
load-clear-Apart bytes p q n apart = load_unchanged bytes (clear bytes q n) p unchanged
  where
    unchanged : (i : ℕ) → i < 8 → clear bytes q n (p + i) ≡ bytes (p + i)
    unchanged i h = ground arith
