-- ===== src/Kernel/Handles.antt =====
-- switch-emu/src/hle/kernel/handleManager.cpp: handles of kernel objects.
pub mod Table
pub mod Separate
pub mod Create
pub mod Close
use switch_emu_pub.Base.{
  ℕ, ◌+◌, ◌%◌, ◌^◌, ◌==◌, Bool, true, false, if◌then◌else◌, List, [], ◌∷◌, ◌++◌, Option, none, some,
}
use switch_emu_pub.Bits.{u32}

-- `static_cast<uint16_t>`.
abbrev pub u16 : ℕ → ℕ
u16 n = n % 2 ^ 16

pub record KHandleEntry : Type 0 where
  pub handle_id : ℕ
  pub object_compressed_pointer : ℕ
  pub object_type : ℕ

module _ (A : Type 0) where
  -- `none` in the map stands for a key that is missing and for a null pointer: the read of a
  -- missing key stores a null pointer there.
  pub record HandleManager : Type 0 where
    pub handle_table : List KHandleEntry
    pub compressed_pointer_map : ℕ → Option A
    pub handle_counter : ℕ
    pub compressed_pointer_counter : ℕ

module _ {A : Type 0} where
  abbrev pub set_key : (ℕ → Option A) → ℕ → Option A → ℕ → Option A
  set_key f k a i = if k == i then a else f i

  -- `get_type` is the virtual function of the object.
  unfoldable pub create_handle : (A → ℕ) → A → HandleManager A → ℕ × HandleManager A
  create_handle get_type object m =
      let handle = m.handle_counter in
      let compressed_pointer = m.compressed_pointer_counter in
      let new_entry : KHandleEntry = record {
        handle_id = u16 handle;
        object_compressed_pointer = compressed_pointer;
        object_type = get_type object;
      } in
      (
        handle,
        record m {
          handle_table = m.handle_table ++ (new_entry ∷ []);
          compressed_pointer_map =
              set_key m.compressed_pointer_map compressed_pointer (some object);
          handle_counter = u32 (handle + 1);
          compressed_pointer_counter = u32 (compressed_pointer + 1);
        },
      )

-- The first entry of an id, and the table without it.
unfoldable pub find_entry : ℕ → List KHandleEntry → Option KHandleEntry
find_entry id [] = none
find_entry id (entry ∷ rest) =
    let later = find_entry id rest in if entry.handle_id == id then some entry else later

unfoldable pub erase_entry : ℕ → List KHandleEntry → List KHandleEntry
erase_entry id [] = []
erase_entry id (entry ∷ rest) =
    let later = erase_entry id rest in if entry.handle_id == id then rest else entry ∷ later

module _ {A : Type 0} where
  unfoldable pub lookup_object : ℕ → HandleManager A → Option A
  lookup_object handle m = elim (find_entry (u16 handle) m.handle_table) [
    | none ↦ none
    | some entry ↦ m.compressed_pointer_map entry.object_compressed_pointer
  ]

  unfoldable pub close_handle : ℕ → HandleManager A → Bool × HandleManager A
  close_handle handle m = elim (find_entry (u16 handle) m.handle_table) [
    | none ↦ (false, m)
    | some entry ↦ (
      true,
      record m {
        compressed_pointer_map =
            set_key m.compressed_pointer_map entry.object_compressed_pointer none;
        handle_table = erase_entry (u16 handle) m.handle_table;
      },
    )
  ]
