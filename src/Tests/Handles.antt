-- ===== src/Tests/Handles.antt =====
-- A table with one open handle, whose object is the number 100.
use switch_emu_pub.Base.{
  ℕ, ◌≡◌, ◌≢◌, refl, arith, true, [], ◌∷◌, nil, ◌▸◌, none, some, if◌then◌else◌, ◌==◌,
}
use switch_emu_pub.Kernel.Handles.{
  u16, KHandleEntry, HandleManager, create_handle, find_entry, lookup_object, close_handle,
}
use switch_emu_pub.Kernel.Handles.Separate.{empty, add, IsConsistent}
use switch_emu_pub.Kernel.Handles.Create.{create_handle_adds, create_handle_aliases}
use switch_emu_pub.Kernel.Handles.Close.{close_handle_removes}

abbrev first : KHandleEntry
first = record { handle_id = 1; object_compressed_pointer = 0; object_type = 4 }

abbrev one_open : HandleManager ℕ
one_open = record {
  handle_table = first ∷ [];
  compressed_pointer_map = λ key. if key == 0 then some 100 else none;
  handle_counter = 2;
  compressed_pointer_counter = 1;
}

one_open-IsConsistent : IsConsistent one_open
one_open-IsConsistent = record {
  separate = add nil empty;
  below = (omega arith, omega arith) ▸ nil;
  room = omega arith;
  behind = omega arith;
}

abbrev kind : ℕ → ℕ
kind object = 7

create_handle_adds_example :
    IsConsistent (create_handle kind 200 one_open).1
    × (lookup_object (create_handle kind 200 one_open).0 (create_handle kind 200 one_open).1
        ≡ some 200)
    × ((other : ℕ)
        → u16 other ≢ (create_handle kind 200 one_open).0
        → lookup_object other (create_handle kind 200 one_open).1 ≡ lookup_object other one_open)
create_handle_adds_example =
    create_handle_adds kind 200 one_open one_open-IsConsistent (omega arith)

first_found : find_entry 1 (first ∷ []) ≡ some first
unfolding find_entry
first_found = refl

close_handle_removes_example :
    (m' : HandleManager ℕ) × (close_handle 1 one_open ≡ (true, m'))
    × IsConsistent m'
    × (lookup_object 1 m' ≡ none)
    × ((other : ℕ) → u16 other ≢ u16 1 → lookup_object other m' ≡ lookup_object other one_open)
close_handle_removes_example =
    close_handle_removes 1 one_open one_open-IsConsistent first first_found

-- 65536 handles later, with the first still open.
abbrev wrapped : HandleManager ℕ
wrapped = record {
  handle_table = first ∷ [];
  compressed_pointer_map = λ key. if key == 0 then some 100 else none;
  handle_counter = 65537;
  compressed_pointer_counter = 65536;
}

create_handle_aliases_example :
    lookup_object (create_handle kind 200 wrapped).0 (create_handle kind 200 wrapped).1
    ≡ lookup_object 65537 wrapped
create_handle_aliases_example =
    create_handle_aliases kind 200 wrapped first first_found (λ z. omega (arith, z))

old_object_run : lookup_object 65537 wrapped ≡ some 100
unfolding lookup_object find_entry
old_object_run = refl
