-- ===== src/Mem/Access/Region/Bytewise.antt =====
-- writeRegion of libcpu/src/mem.cpp does what a loop over single bytes does.
use mathlib.Core.Path.{fun_ext}
use switch_emu_pub.Base.{
  ℕ, zero, suc, ◌+◌, ◌-◌, ◌%◌, ◌^◌, ◌<◌, ◌≤◌, ◌≡◌, inl, inr, leb, lt→ltb, le→leb, test_apart, ◌||◌,
  ◌==◌, ==_iff, Bool, Bool-cases, false, Option, Option-cases, none, some, refl, sym, ap, ◌∙◌,
  arith,
}
use switch_emu_pub.Bits.{u64}
use switch_emu_pub.Mem.Pages.{page_size, num_pages, get_page_num, Memory, translate}
use switch_emu_pub.Mem.Pages.Translate.{translate_parts}
use switch_emu_pub.Mem.Access.{poke, store_bytes, put_bytes}
use switch_emu_pub.Mem.Access.Region.{
  Run, finished, faulted, then_run, Written, sent, copy_in, copy_page, write_byte, write_region,
  each_byte,
}
use switch_emu_pub.Mem.Access.Region.Loop.{each_byte-append, copy_loop-each_byte}

one_more :
    (bytes source : ℕ → ℕ) (p i k a : ℕ)
    → store_bytes (copy_in bytes p source i k) 1 (p + k) (source (i + k)) a
      ≡ copy_in bytes p source i (k + 1) a
unfolding store_bytes
one_more bytes source p i k a = elim (Bool-cases (a == p + k)) [
  | inl e ↦
      let here = (==_iff a (p + k)).0 e in
      let offset : p + k - p ≡ k = omega arith in
      let same : p + k - (p + k) ≡ 0 = omega arith in
      rw
        (
          here,
          le→leb (p + k) (p + k) (omega arith),
          lt→ltb (p + k) (p + k + 1) (omega arith),
          same,
          le→leb p (p + k) (omega arith),
          lt→ltb (p + k) (p + (k + 1)) (omega arith),
          offset,
        )
        (omega arith)
  | inr e ↦ ground (arith, test_apart a (p + k) e)
]

pub translate-offset :
    (a k p : ℕ) (m : Memory)
    → a % page_size ≡ 0
    → k < page_size
    → translate a m ≡ some p
    → translate (a + k) m ≡ some (p + k)
unfolding translate
translate-offset a k p m aligned h e =
    let same_page : get_page_num (a + k) ≡ get_page_num a = omega (arith, aligned, h) in
    let (used, split) = translate_parts a p m e in
    elim (Bool-cases
      (leb num_pages (get_page_num a) || ((m.entries (get_page_num a)).pointer == 0))) [
        | inl t ↦ cc (rw t at e)
        | inr t ↦ rw (same_page, t) (ap some (omega (arith, split, aligned, h)))
      ]

-- The address of a byte in a page, from that of the page.
pub offset_in_page :
    (addr i k : ℕ)
    → u64 (addr + i) % page_size ≡ 0
    → k < page_size
    → u64 (addr + (i + k)) ≡ u64 (addr + i) + k
offset_in_page addr i k aligned h = omega (arith, aligned, h)

-- No breakpoint lies on the `len` bytes from an address on.
abbrev pub NoBreakpoint : (ℕ → Bool) → ℕ → ℕ → Type 0
NoBreakpoint breakpoints addr len = (j : ℕ) → j < len → breakpoints (u64 (addr + j)) ≡ false

abbrev with_bytes : Written → (ℕ → ℕ) → Written
with_bytes s f = record s { memory = record (s.memory) { bytes = f } }

same_bytes :
    (s : Written) (f g : ℕ → ℕ)
    → ((a : ℕ) → f a ≡ g a)
    → finished (with_bytes s f) ≡ finished (with_bytes s g)
same_bytes s f g h = ap (λ (t : ℕ → ℕ). finished (with_bytes s t)) (fun_ext h)

module _ (breakpoints : ℕ → Bool) (addr : ℕ) (source : ℕ → ℕ) where
  abbrev byte : ℕ → Written → Run Written
  byte = write_byte breakpoints addr source

  -- A byte without a breakpoint, by what the store comes to.
  abbrev by_poke : ℕ → Written → Option Memory → Run Written
  by_poke i s none = faulted (u64 (addr + i)) s
  by_poke i s (some memory) = finished (record { memory = memory; interrupts = s.interrupts })

  byte_quiet :
      (i : ℕ) (s : Written)
      → breakpoints (u64 (addr + i)) ≡ false
      → byte i s ≡ by_poke i s (poke 1 (u64 (addr + i)) (source i) s.memory)
  byte_quiet i s quiet = by_case (poke 1 (u64 (addr + i)) (source i) s.memory)
    where
      sent_nothing : sent breakpoints (u64 (addr + i)) s.interrupts ≡ s.interrupts
      sent_nothing = rw quiet refl

      by_case :
          (o : Option Memory)
          → (elim o [
            | none ↦
                faulted
                  (u64 (addr + i))
                  (record s { interrupts = sent breakpoints (u64 (addr + i)) s.interrupts })
            | some memory ↦ finished (record {
              memory = memory;
              interrupts = sent breakpoints (u64 (addr + i)) s.interrupts;
            })
          ])
            ≡ by_poke i s o
      by_case none =
          ap (λ (n : ℕ). faulted (u64 (addr + i)) (record s { interrupts = n })) sent_nothing
      by_case (some memory) =
          ap (λ (n : ℕ). finished (record { memory = memory; interrupts = n })) sent_nothing

  byte-none :
      (i : ℕ) (s : Written)
      → breakpoints (u64 (addr + i)) ≡ false
      → translate (u64 (addr + i)) s.memory ≡ none
      → byte i s ≡ faulted (u64 (addr + i)) s
  unfolding poke
  byte-none i s quiet e =
      byte_quiet i s quiet
      ∙ ap
          (λ (o : Option ℕ).
            by_poke i s
              (elim o [ none ↦ none | some p ↦ some (put_bytes 1 p (source i) s.memory) ]))
          e

  byte-some :
      (i q : ℕ) (s : Written)
      → breakpoints (u64 (addr + i)) ≡ false
      → translate (u64 (addr + i)) s.memory ≡ some q
      → byte i s ≡ finished (with_bytes s (store_bytes s.memory.bytes 1 q (source i)))
  unfolding poke
  byte-some i q s quiet e =
      byte_quiet i s quiet
      ∙ ap
          (λ (o : Option ℕ).
            by_poke i s
              (elim o [ none ↦ none | some p ↦ some (put_bytes 1 p (source i) s.memory) ]))
          e

  module _ (len : ℕ) (quiet : NoBreakpoint breakpoints addr len) where
    module _ (i p : ℕ) (s : Written) (aligned : u64 (addr + i) % page_size ≡ 0)
        (inside : i + page_size < len) (there : translate (u64 (addr + i)) s.memory ≡ some p) where
      -- The address of the page, with the bytes of the memory changed.
      still_there :
          (k : ℕ) (f : ℕ → ℕ)
          → k < page_size
          → translate (u64 (addr + (i + k))) (with_bytes s f).memory ≡ some (p + k)
      unfolding translate
      still_there k f h =
          ap (λ (a : ℕ). translate a s.memory) (offset_in_page addr i k aligned h)
          ∙ translate-offset (u64 (addr + i)) k p s.memory aligned h there

      -- The first `k` bytes of a page.
      each_byte-page :
          (k : ℕ)
          → k ≤ page_size
          → each_byte byte k i s ≡ finished (with_bytes s (copy_in s.memory.bytes p source i k))
      each_byte-page zero h =
          same_bytes s s.memory.bytes (copy_in s.memory.bytes p source i 0) (λ a. ground arith)
      each_byte-page (suc k) h =
          let copied = copy_in s.memory.bytes p source i k in
          let more : suc k ≡ k + 1 = omega arith in
          ap (λ (n : ℕ). each_byte byte n i s) more
          ∙ each_byte-append byte k 1 i s
          ∙ ap (λ (o : Run Written). then_run o (λ s'. each_byte byte 1 (i + k) s'))
              (each_byte-page k (omega arith))
          ∙ ap (λ (o : Run Written). then_run o (λ s'. finished s'))
              (byte-some (i + k) (p + k) (with_bytes s copied)
                (quiet (i + k) (omega (arith, h, inside))) (still_there k copied (omega arith)))
          ∙ same_bytes s (store_bytes copied 1 (p + k) (source (i + k)))
              (copy_in s.memory.bytes p source i (suc k))
              (λ a.
                one_more s.memory.bytes source p i k a
                ∙ ap (λ (n : ℕ). copy_in s.memory.bytes p source i n a) (sym more))

    each_byte-none :
        (n i : ℕ) (s : Written)
        → 0 < n
        → i < len
        → translate (u64 (addr + i)) s.memory ≡ none
        → each_byte byte n i s ≡ faulted (u64 (addr + i)) s
    each_byte-none zero i s h inside e = absurd (omega (arith, h))
    each_byte-none (suc n) i s h inside e =
        ap (λ (o : Run Written). then_run o (λ s'. each_byte byte n (i + 1) s'))
          (byte-none i s (quiet i inside) e)

    page_copied :
        (i : ℕ) (s : Written) (o : Option ℕ)
        → translate (u64 (addr + i)) s.memory ≡ o
        → copy_page addr source i s ≡ elim o [
          | none ↦ faulted (u64 (addr + i)) s
          | some p ↦ finished (with_bytes s (copy_in s.memory.bytes p source i page_size))
        ]
    page_copied i s o e =
        ap
          (λ (t : Option ℕ). elim t [
            | none ↦ faulted (u64 (addr + i)) s
            | some p ↦ finished (with_bytes s (copy_in s.memory.bytes p source i page_size))
          ])
          e

    -- `size` is the size of a page.
    copy_page-each_byte :
        (size : ℕ)
        → size ≡ page_size
        → (i : ℕ) (s : Written) → u64 (addr + i) % page_size ≡ 0
        → i + page_size < len
        → copy_page addr source i s ≡ each_byte byte size i s
    copy_page-each_byte size is_page i s aligned inside =
        elim (Option-cases (translate (u64 (addr + i)) s.memory)) [
          | inl missing ↦
              page_copied i s none missing
              ∙ sym
                  (each_byte-none size i s (omega (arith, is_page)) (omega (arith, inside)) missing)
          | inr (p, there) ↦
              page_copied i s (some p) there
              ∙ ap (λ (n : ℕ). finished (with_bytes s (copy_in s.memory.bytes p source i n)))
                  (sym is_page)
              ∙ sym (each_byte-page i p s aligned inside there size (omega (arith, is_page)))
        ]

    -- writeRegion of less than 2 ^ 32 bytes at any guest address, mapped or not, with no
    -- breakpoint on any of the bytes, comes to the same as writing the bytes one after the other:
    -- the same memory and interrupts, or the same fault address with the same bytes written
    -- before it.
    pub write_region-each_byte :
        (s : Written)
        → len < 2 ^ 32
        → write_region breakpoints addr source len s
          ≡ each_byte (write_byte breakpoints addr source) len 0 s
    unfolding write_region
    write_region-each_byte s small =
        copy_loop-each_byte byte page_size refl (copy_page addr source) addr len small
          (copy_page-each_byte page_size refl) len len 0 s (omega arith) (omega arith)
