-- ===== src/Tests/Access.antt =====
-- Accesses to the page that Tests/Pages maps.
use switch_emu_pub.Base.{◌≡◌, ◌==◌, ◌%◌, ◌^◌, refl, true, [], ◌∷◌, some, inl, arith}
use switch_emu_pub.Mem.Pages.{Memory, init, link_pages, link_loop, allocate_page, translate}
use switch_emu_pub.Mem.Bytes.{clear}
use switch_emu_pub.Mem.Pages.Free.{IsAccounted}
use switch_emu_pub.Mem.Access.{
  load_bytes, put_bytes, inspect, poke, write_atomic128, interlocked_compare_exchange128,
}
use switch_emu_pub.Mem.Access.Region.{write_region, write_byte, read_region, read_byte, each_byte}
use switch_emu_pub.Mem.Access.Region.ReadBytewise.{read_region-each_byte}
use switch_emu_pub.Mem.Access.Region.Bytewise.{write_region-each_byte}
use switch_emu_pub.Mem.Access.RoundTrip.{inspect-poke}
use switch_emu_pub.Mem.Access.Isolation.{inspect-poke-Apart, poke-IsAccounted}
use switch_emu_pub.Mem.Access.Exchange.{write_atomic128_stores}
use switch_emu_pub.Tests.Pages.{mapped, mapped-IsAccounted}

abbrev written : Memory
written = put_bytes 4 0x10010 0x1122334455 mapped

poke_run : poke 4 0x5010 0x1122334455 mapped ≡ some written
unfolding poke init link_pages link_loop allocate_page translate
poke_run = refl

inspect-poke_example : inspect 4 0x5010 written ≡ some 0x22334455
inspect-poke_example = inspect-poke 4 0x5010 0x1122334455 mapped written poke_run

inspect-poke-Apart_example : inspect 8 0x5014 written ≡ inspect 8 0x5014 mapped
inspect-poke-Apart_example =
    inspect-poke-Apart 0x10000 2 (0x11000 ∷ []) mapped mapped-IsAccounted 4 0x5010 0x1122334455 8
      0x5014 written poke_run (omega arith) (omega arith) (inl (omega arith))

poke-IsAccounted_example : IsAccounted 0x10000 2 (0x11000 ∷ []) written
poke-IsAccounted_example =
    poke-IsAccounted 0x10000 2 (0x11000 ∷ []) mapped mapped-IsAccounted 4 0x5010 0x1122334455
      written poke_run (omega arith)

abbrev exchanged : Memory
exchanged = (interlocked_compare_exchange128 0x10020 1 2 0 0 mapped).1

place_run : translate 0x5020 mapped ≡ some 0x10020
unfolding init link_pages link_loop allocate_page translate
place_run = refl

exchange_run : write_atomic128 0x5020 1 2 0 0 mapped ≡ some (true, exchanged)
unfolding write_atomic128 init link_pages link_loop allocate_page translate load_bytes clear
exchange_run = refl

write_atomic128_stores_example :
    (load_bytes exchanged.bytes 8 0x10020 ≡ 2) × (load_bytes exchanged.bytes 8 0x10028 ≡ 1)
write_atomic128_stores_example =
    write_atomic128_stores 0x5020 0x10020 1 2 0 0 mapped exchanged place_run exchange_run

-- A page and four bytes of the next, which is not mapped, with a breakpoint elsewhere.
write_region-each_byte_example :
    write_region
      (λ a. a == 0x9000)
      0x5000
      (λ i. i % 2 ^ 8)
      0x1004
      (record { memory = mapped; interrupts = 0 })
    ≡ each_byte
        (write_byte (λ a. a == 0x9000) 0x5000 (λ i. i % 2 ^ 8))
        0x1004
        0
        (record { memory = mapped; interrupts = 0 })
write_region-each_byte_example =
    write_region-each_byte (λ a. a == 0x9000) 0x5000 (λ i. i % 2 ^ 8) 0x1004 (λ j h. ground arith)
      (record { memory = mapped; interrupts = 0 }) (omega arith)

read_region-each_byte_example :
    read_region
      (λ a. a == 0x9000)
      written
      0x4ffe
      0x1002
      (record { target = λ i. 0; interrupts = 0 })
    ≡ each_byte
        (read_byte (λ a. a == 0x9000) written 0x4ffe)
        0x1002
        0
        (record { target = λ i. 0; interrupts = 0 })
read_region-each_byte_example =
    read_region-each_byte (λ a. a == 0x9000) written 0x4ffe 0x1002 (λ j h. ground arith)
      (record { target = λ i. 0; interrupts = 0 }) (omega arith)
