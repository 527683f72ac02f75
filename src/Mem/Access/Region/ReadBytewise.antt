-- ===== src/Mem/Access/Region/ReadBytewise.antt =====
-- readRegion of libcpu/src/mem.cpp does what a loop over single bytes does.
use mathlib.Core.Path.{fun_ext}
use switch_emu_pub.Base.{
  ℕ, zero, suc, ◌+◌, ◌-◌, ◌%◌, ◌^◌, ◌<◌, ◌≤◌, ◌≡◌, lt→ltb, le→leb, test_apart, ◌==◌, ==_iff, Bool,
  Bool-cases, false, Option, Option-cases, none, some, inl, inr, refl, sym, ap, ◌∙◌, arith,
}
use switch_emu_pub.Bits.{u64}
use switch_emu_pub.Mem.Pages.{page_size, Memory, translate, set_at}
use switch_emu_pub.Mem.Access.{inspect, load_bytes}
use switch_emu_pub.Mem.Access.RoundTrip.{inspect-some, inspect-none}
use switch_emu_pub.Mem.Access.Region.{
  Run, finished, faulted, then_run, Buffer, sent, copy_out, read_page, read_byte, read_region,
  each_byte,
}
use switch_emu_pub.Mem.Access.Region.Loop.{each_byte-append, copy_loop-each_byte}
use switch_emu_pub.Mem.Access.Region.Bytewise.{NoBreakpoint, offset_in_page, translate-offset}

module _ (breakpoints : ℕ → Bool) (m : Memory) (addr : ℕ) where
  abbrev byte : ℕ → Buffer → Run Buffer
  byte = read_byte breakpoints m addr

  -- A byte without a breakpoint, by what the load comes to.
  abbrev by_inspect : ℕ → Buffer → Option ℕ → Run Buffer
  by_inspect i s none = faulted (u64 (addr + i)) s
  by_inspect i s (some v) = finished (record s { target = set_at s.target i v })

  byte_quiet :
      (i : ℕ) (s : Buffer)
      → breakpoints (u64 (addr + i)) ≡ false
      → byte i s ≡ by_inspect i s (inspect 1 (u64 (addr + i)) m)
  byte_quiet i s quiet = by_case (inspect 1 (u64 (addr + i)) m)
    where
      sent_nothing : sent breakpoints (u64 (addr + i)) s.interrupts ≡ s.interrupts
      sent_nothing = rw quiet refl

      by_case :
          (o : Option ℕ)
          → (elim o [
            | none ↦
                faulted
                  (u64 (addr + i))
                  (record s { interrupts = sent breakpoints (u64 (addr + i)) s.interrupts })
            | some v ↦ finished (record {
              target = set_at s.target i v;
              interrupts = sent breakpoints (u64 (addr + i)) s.interrupts;
            })
          ])
            ≡ by_inspect i s o
      by_case none =
          ap (λ (n : ℕ). faulted (u64 (addr + i)) (record s { interrupts = n })) sent_nothing
      by_case (some v) =
          ap (λ (n : ℕ). finished (record { target = set_at s.target i v; interrupts = n }))
            sent_nothing

  byte-some :
      (i q : ℕ) (s : Buffer)
      → breakpoints (u64 (addr + i)) ≡ false
      → translate (u64 (addr + i)) m ≡ some q
      → byte i s ≡ finished (record s { target = set_at s.target i (m.bytes q) })
  unfolding load_bytes
  byte-some i q s quiet e =
      byte_quiet i s quiet
      ∙ ap (by_inspect i s) (inspect-some 1 (u64 (addr + i)) q m e)
      ∙ ap (λ (v : ℕ). finished (record s { target = set_at s.target i v })) (omega arith)

  byte-none :
      (i : ℕ) (s : Buffer)
      → breakpoints (u64 (addr + i)) ≡ false
      → translate (u64 (addr + i)) m ≡ none
      → byte i s ≡ faulted (u64 (addr + i)) s
  byte-none i s quiet e =
      byte_quiet i s quiet ∙ ap (by_inspect i s) (inspect-none 1 (u64 (addr + i)) m e)

  one_more :
      (p i k : ℕ) (target : ℕ → ℕ) (j : ℕ)
      → set_at (copy_out m.bytes p target i k) (i + k) (m.bytes (p + k)) j
        ≡ copy_out m.bytes p target i (k + 1) j
  one_more p i k target j = elim (Bool-cases (i + k == j)) [
    | inl e ↦
        let here = (==_iff (i + k) j).0 e in
        let offset : j - i ≡ k = omega (arith, here) in
        rw
          (
            e,
            le→leb i j (omega (arith, here)),
            lt→ltb j (i + (k + 1)) (omega (arith, here)),
            offset,
          )
          refl
    | inr e ↦ ground (arith, test_apart (i + k) j e)
  ]

  module _ (len : ℕ) (quiet : NoBreakpoint breakpoints addr len) where
    module _ (i p : ℕ) (s : Buffer) (aligned : u64 (addr + i) % page_size ≡ 0)
        (inside : i + page_size < len) (there : translate (u64 (addr + i)) m ≡ some p) where
      each_byte-page :
          (k : ℕ)
          → k ≤ page_size
          → each_byte byte k i s ≡ finished (record s { target = copy_out m.bytes p s.target i k })
      each_byte-page zero h =
          ap (λ (t : ℕ → ℕ). finished (record s { target = t })) (fun_ext (λ j. ground arith))
      each_byte-page (suc k) h =
          let more : suc k ≡ k + 1 = omega arith in
          let copied = copy_out m.bytes p s.target i k in
          let place : translate (u64 (addr + (i + k))) m ≡ some (p + k) =
            ap (λ (b : ℕ). translate b m) (offset_in_page addr i k aligned (omega arith))
            ∙ translate-offset (u64 (addr + i)) k p m aligned (omega arith) there in
          ap (λ (n : ℕ). each_byte byte n i s) more
          ∙ each_byte-append byte k 1 i s
          ∙ ap (λ (o : Run Buffer). then_run o (λ s'. each_byte byte 1 (i + k) s'))
              (each_byte-page k (omega arith))
          ∙ ap (λ (o : Run Buffer). then_run o (λ s'. finished s'))
              (byte-some (i + k) (p + k) (record s { target = copied })
                (quiet (i + k) (omega (arith, h, inside))) place)
          ∙ ap (λ (t : ℕ → ℕ). finished (record s { target = t }))
              (fun_ext (λ j.
                one_more p i k s.target j
                ∙ ap (λ (n : ℕ). copy_out m.bytes p s.target i n j) (sym more)))

    each_byte-none :
        (n i : ℕ) (s : Buffer)
        → 0 < n
        → i < len
        → translate (u64 (addr + i)) m ≡ none
        → each_byte byte n i s ≡ faulted (u64 (addr + i)) s
    each_byte-none zero i s h inside e = absurd (omega (arith, h))
    each_byte-none (suc n) i s h inside e =
        ap (λ (o : Run Buffer). then_run o (λ s'. each_byte byte n (i + 1) s'))
          (byte-none i s (quiet i inside) e)

    page_copied :
        (i : ℕ) (s : Buffer) (o : Option ℕ)
        → translate (u64 (addr + i)) m ≡ o
        → read_page m addr i s ≡ elim o [
          | none ↦ faulted (u64 (addr + i)) s
          | some p ↦ finished (record s { target = copy_out m.bytes p s.target i page_size })
        ]
    page_copied i s o e =
        ap
          (λ (t : Option ℕ). elim t [
            | none ↦ faulted (u64 (addr + i)) s
            | some p ↦ finished (record s { target = copy_out m.bytes p s.target i page_size })
          ])
          e

    -- `size` is the size of a page.
    read_page-each_byte :
        (size : ℕ)
        → size ≡ page_size
        → (i : ℕ) (s : Buffer) → u64 (addr + i) % page_size ≡ 0
        → i + page_size < len
        → read_page m addr i s ≡ each_byte byte size i s
    read_page-each_byte size is_page i s aligned inside =
        elim (Option-cases (translate (u64 (addr + i)) m)) [
          | inl missing ↦
              page_copied i s none missing
              ∙ sym
                  (each_byte-none size i s (omega (arith, is_page)) (omega (arith, inside)) missing)
          | inr (p, there) ↦
              page_copied i s (some p) there
              ∙ ap (λ (n : ℕ). finished (record s { target = copy_out m.bytes p s.target i n }))
                  (sym is_page)
              ∙ sym (each_byte-page i p s aligned inside there size (omega (arith, is_page)))
        ]

    -- readRegion of less than 2 ^ 32 bytes from any guest address, mapped or not, with no
    -- breakpoint on any of the bytes, comes to the same as reading the bytes one after the other:
    -- the same buffer and interrupts, or the same fault address with the same bytes read before
    -- it.
    pub read_region-each_byte :
        (s : Buffer)
        → len < 2 ^ 32
        → read_region breakpoints m addr len s ≡ each_byte (read_byte breakpoints m addr) len 0 s
    unfolding read_region
    read_region-each_byte s small =
        copy_loop-each_byte byte page_size refl (read_page m addr) addr len small
          (read_page-each_byte page_size refl) len len 0 s (omega arith) (omega arith)
