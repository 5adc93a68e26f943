-- ===== src/Fifos/MemoryMap.antt =====
-- The map of the memory that the boot loader hands to the kernel: FileSystem-v3/memos.c, over the
-- structures of multiboot.h, which are read from the bytes of the memory.
pub mod Walk
use file_system_toy_os.Prelude.{
  ℕ, zero, suc, ◌+◌, ◌-◌, ◌*◌, ◌/◌, ◌%◌, ◌^◌, Option, none, some, List, [], ◌∷◌, ltb, ◌==◌,
  if◌then◌else◌, add32,
}
use file_system_toy_os.Fifos.Console.{Console, put_char, print, println, print_hex_string}

abbrev pub word_at : (ℕ → ℕ) → ℕ → ℕ
word_at m a = m a + 256 * m (a + 1) + 65536 * m (a + 2) + 16777216 * m (a + 3)

abbrev pub long_at : (ℕ → ℕ) → ℕ → ℕ
long_at m a = word_at m a + 2 ^ 32 * word_at m (a + 4)

-- `multiboot_memory_map_t`, a packed structure; `size` does not count itself.
pub record Region : Type 0 where
  pub size : ℕ
  pub addr : ℕ
  pub len : ℕ
  pub type : ℕ

abbrev pub region_at : (ℕ → ℕ) → ℕ → Region
region_at m a = record {
  size = word_at m a;
  addr = long_at m (a + 4);
  len = long_at m (a + 12);
  type = word_at m (a + 20);
}

-- "Address range: ["
abbrev address_range : List ℕ
address_range =
    65 ∷ 100 ∷ 100 ∷ 114 ∷ 101 ∷ 115 ∷ 115 ∷ 32 ∷ 114 ∷ 97 ∷ 110 ∷ 103 ∷ 101 ∷ 58 ∷ 32 ∷ 91 ∷ []

-- "] -> "
abbrev arrow : List ℕ
arrow = 93 ∷ 32 ∷ 45 ∷ 62 ∷ 32 ∷ []

-- "Free memory (1)"
abbrev free_memory : List ℕ
free_memory = 70 ∷ 114 ∷ 101 ∷ 101 ∷ 32 ∷ 109 ∷ 101 ∷ 109 ∷ 111 ∷ 114 ∷ 121 ∷ 32 ∷ 40 ∷ 49 ∷ 41 ∷ []

-- "Reserved memory (2)"
abbrev reserved_memory : List ℕ
reserved_memory =
    82 ∷ 101 ∷ 115 ∷ 101 ∷ 114 ∷ 118 ∷ 101 ∷ 100 ∷ 32 ∷ 109 ∷ 101 ∷ 109 ∷ 111 ∷ 114 ∷ 121 ∷ 32 ∷ 40
    ∷ 50 ∷ 41 ∷ []

-- "Others"
abbrev others : List ℕ
others = 79 ∷ 116 ∷ 104 ∷ 101 ∷ 114 ∷ 115 ∷ []

-- "MemOS 2: Welcome *** System memory is (in MB): "
abbrev welcome : List ℕ
welcome =
    77 ∷ 101 ∷ 109 ∷ 79 ∷ 83 ∷ 32 ∷ 50 ∷ 58 ∷ 32 ∷ 87 ∷ 101 ∷ 108 ∷ 99 ∷ 111 ∷ 109 ∷ 101 ∷ 32 ∷ 42
    ∷ 42 ∷ 42 ∷ 32 ∷ 83 ∷ 121 ∷ 115 ∷ 116 ∷ 101 ∷ 109 ∷ 32 ∷ 109 ∷ 101 ∷ 109 ∷ 111 ∷ 114 ∷ 121 ∷ 32
    ∷ 105 ∷ 115 ∷ 32 ∷ 40 ∷ 105 ∷ 110 ∷ 32 ∷ 77 ∷ 66 ∷ 41 ∷ 58 ∷ 32 ∷ []

unfoldable pub print_memory_range : Console → Region → Console
print_memory_range c r =
    let base = print_hex_string (print c address_range) r.addr in
    let range = print_hex_string (put_char base 126) ((r.addr + r.len + 2 ^ 64 - 1) % 2 ^ 64) in
    println (print range arrow)
      (if r.type == 1 then free_memory else if r.type == 2 then reserved_memory else others)

unfoldable pub print_memory_size : Console → ℕ → Console
print_memory_size c memory_size =
    put_char (print_hex_string (print c welcome) (memory_size / 2 ^ 20)) 10

-- `memory_size` after a region.
abbrev pub add_free : ℕ → Region → ℕ
add_free memory_size r = if r.type == 1 then (memory_size + r.len) % 2 ^ 64 else memory_size

-- The `for` loop, from the region at `mmap` on; `none` is a loop that has not ended in its rounds.
unfoldable pub walk_map : ℕ → (ℕ → ℕ) → ℕ → ℕ → ℕ → Console → Option (ℕ × Console)
walk_map zero m end mmap memory_size c = none
walk_map (suc fuel) m end mmap memory_size c =
    let r = region_at m mmap in
    let rest =
      walk_map fuel m end (add32 (add32 mmap r.size) 4) (add_free memory_size r)
        (print_memory_range c r) in
    if ltb mmap end then rest else some (memory_size, c)

-- `mmap_length` and `mmap_addr` stand 44 and 48 bytes behind `addr`.
unfoldable pub print_memory_map : (ℕ → ℕ) → ℕ → Console → Option Console
print_memory_map m addr c =
    let mmap_length = word_at m (addr + 44) in
    let mmap_addr = word_at m (addr + 48) in
    elim (walk_map (mmap_length + 1) m (add32 mmap_addr mmap_length) mmap_addr 0 c) [
      | none ↦ none
      | some (memory_size, c') ↦ some (print_memory_size c' memory_size)
    ]
