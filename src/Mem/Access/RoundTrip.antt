-- ===== src/Mem/Access/RoundTrip.antt =====
-- The accesses of libcpu/inc/mem.h: what was stored is what is loaded, and other bytes are kept.
use native.Mathlib.Nat.{
  pow-suc, mod-lt, mod-add-div, mod-eq_of_lt, one-le-pow, add-mul-mod_self_right,
  div-div-eq-div-mul,
}
use switch_emu_pub.Base.{
  ℕ, zero, suc, ◌+◌, ◌-◌, ◌*◌, ◌/◌, ◌%◌, ◌^◌, ◌<◌, ◌≤◌, ◌≡◌, ◌⊎◌, Option, none, some, refl, sym, ap,
  ◌∙◌, subst, lt→ltb, le→leb, some_inj, arith,
}
use switch_emu_pub.Mem.Pages.{Memory, translate}
use switch_emu_pub.Mem.Access.{load_bytes, store_bytes, inspect, poke, put_bytes}

stored_byte :
    (bytes : ℕ → ℕ) (n p v i : ℕ) → i < n → store_bytes bytes n p v (p + i) ≡ v / 256 ^ i % 2 ^ 8
unfolding store_bytes
stored_byte bytes n p v i h =
    rw (lt→ltb (p + i) (p + n) (omega arith), le→leb p (p + i) (omega arith), offset) refl
  where
    offset : p + i - p ≡ i
    offset = omega arith

-- The value in the form that a number of `k` more bytes gives it.
digits : (x k : ℕ) → x % 2 ^ 8 + 2 ^ 8 * (x / 256 % 256 ^ k) ≡ x % 256 ^ suc k
digits x k = rw (pow-suc 256 k) (
    sym (
      ap (λ (t : ℕ). t % (m * 256)) regroup
      ∙ add-mul-mod_self_right (x % 2 ^ 8 + 2 ^ 8 * (y % m)) (y / m) (m * 256)
      ∙ mod-eq_of_lt small))
  where
    y : ℕ
    y = x / 256

    m : ℕ
    m = 256 ^ k

    regroup : x ≡ x % 2 ^ 8 + 2 ^ 8 * (y % m) + y / m * (m * 256)
    regroup = omega (arith, mod-add-div y m)

    small : x % 2 ^ 8 + 2 ^ 8 * (y % m) < m * 256
    small = omega (arith, mod-lt y (one-le-pow k 256 (omega arith)))

-- `k` bytes at the offset `j` of a value of `n` bytes.
load_part :
    (bytes : ℕ → ℕ) (n p v k j : ℕ)
    → j + k ≤ n
    → load_bytes (store_bytes bytes n p v) k (p + j) ≡ v / 256 ^ j % 256 ^ k
unfolding load_bytes
load_part bytes n p v zero j h = omega arith
load_part bytes n p v (suc k) j h =
    let next : v / 256 ^ suc j ≡ v / 256 ^ j / 256 =
      rw (pow-suc 256 j) (sym (div-div-eq-div-mul v (256 ^ j) 256)) in
    let there : p + j + 1 ≡ p + suc j = omega arith in
    let rest : load_bytes (store_bytes bytes n p v) k (p + suc j) ≡ v / 256 ^ suc j % 256 ^ k =
      load_part bytes n p v k (suc j) (omega arith) in
    rw (stored_byte bytes n p v j (omega arith), there, rest, next) (digits (v / 256 ^ j) k)

pub load_bytes-store_bytes :
    (bytes : ℕ → ℕ) (n p v : ℕ) → load_bytes (store_bytes bytes n p v) n p ≡ v % 256 ^ n
load_bytes-store_bytes bytes n p v =
    subst (λ (a : ℕ). load_bytes (store_bytes bytes n p v) n a ≡ v % 256 ^ n) (omega arith)
      (load_part bytes n p v n 0 (omega arith) ∙ ap (λ (t : ℕ). t % 256 ^ n) (omega arith))

-- Bytes that do not meet those that were stored are kept.
pub load_bytes-store_bytes-Apart :
    (bytes : ℕ → ℕ) (n p v k q : ℕ)
    → (p + n ≤ q) ⊎ (q + k ≤ p)
    → load_bytes (store_bytes bytes n p v) k q ≡ load_bytes bytes k q
unfolding load_bytes store_bytes
load_bytes-store_bytes-Apart bytes n p v zero q apart = refl
load_bytes-store_bytes-Apart bytes n p v (suc k) q apart =
    let rest = load_bytes-store_bytes-Apart bytes n p v k (q + 1) (ground arith) in
    let first : store_bytes bytes n p v q ≡ bytes q = ground arith in rw (first, rest) refl

-- A store that returns has translated the address.
pub poke_parts :
    (n addr v : ℕ) (m m' : Memory)
    → poke n addr v m ≡ some m'
    → (p : ℕ) × (translate addr m ≡ some p) × (m' ≡ put_bytes n p v m)
unfolding poke
poke_parts n addr v m m' e = poked (translate addr m) e
  where
    poked :
        (place : Option ℕ)
        → elim place [ none ↦ none | some p ↦ some (put_bytes n p v m) ] ≡ some m'
        → (p : ℕ) × (place ≡ some p) × (m' ≡ put_bytes n p v m)
    poked none h = cc
    poked (some p) h = (p, refl, sym (some_inj h))

pub translate-put_bytes :
    (n p v addr : ℕ) (m : Memory) → translate addr (put_bytes n p v m) ≡ translate addr m
unfolding translate
translate-put_bytes n p v addr m = refl

inspect_place :
    (k b : ℕ) (m : Memory) (place : Option ℕ)
    → translate b m ≡ place
    → inspect k b m ≡ elim place [ none ↦ none | some q ↦ some (load_bytes m.bytes k q) ]
unfolding inspect
inspect_place k b m place e =
    ap (λ (o : Option ℕ). elim o [ none ↦ none | some q ↦ some (load_bytes m.bytes k q) ]) e

pub inspect-some :
    (k b q : ℕ) (m : Memory)
    → translate b m ≡ some q
    → inspect k b m ≡ some (load_bytes m.bytes k q)
inspect-some k b q m e = inspect_place k b m (some q) e

pub inspect-none : (k b : ℕ) (m : Memory) → translate b m ≡ none → inspect k b m ≡ none
inspect-none k b m e = inspect_place k b m none e

-- After a store of n bytes that returns, a load of n bytes at the same guest address returns the
-- stored value modulo 256 ^ n.
pub inspect-poke :
    (n addr v : ℕ) (m m' : Memory)
    → poke n addr v m ≡ some m'
    → inspect n addr m' ≡ some (v % 256 ^ n)
inspect-poke n addr v m m' e =
    let (p, there, made) = poke_parts n addr v m m' e in
    rw made (
      inspect-some n addr p (put_bytes n p v m) (translate-put_bytes n p v addr m ∙ there)
      ∙ ap some (load_bytes-store_bytes m.bytes n p v))
