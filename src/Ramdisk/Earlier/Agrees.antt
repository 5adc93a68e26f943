-- ===== src/Ramdisk/Earlier/Agrees.antt =====
-- Ramdisk/userspace/discos.c against kernelspace/discos.c, on the tree of files.
use file_system_toy_os.Prelude.{
  ℕ, zero, suc, failure, if◌then◌else◌, ◌∙◌, length, none, some, ◌==◌, ==→ne, ◌≡◌, ◌≢◌, ◌⊎◌, inl,
  inr, refl, ap, false, List, [], ◌∷◌, ltb, ◌&&◌, Bool-cases, Option-cases,
}
use mathlib.Core.List.{append-nil}
use file_system_toy_os.Ramdisk.Memory.{Mem, CString}
use file_system_toy_os.Ramdisk.Disk.{FileType, blank_inode, Disk, System, read_write}
use file_system_toy_os.Ramdisk.Bitmap.{is_dir}
use file_system_toy_os.Ramdisk.Path.{
  slash, root, same, drop, tokens, parse_absolute_path, last_slash, char_at,
}
use file_system_toy_os.Ramdisk.Lookup.{walk, my_find_inode_number}
use file_system_toy_os.Ramdisk.Tree
use file_system_toy_os.Ramdisk.File
use file_system_toy_os.Ramdisk.Earlier
use file_system_toy_os.Ramdisk.Earlier.{nonempty, find_inode_number, Leftover, split_path}

abbrev pub AreNonempty : List CString → Type 0
AreNonempty [] = Unit {0}
AreNonempty (t ∷ ts) = (t ≢ []) × AreNonempty ts

nonempty-AreNonempty : (ts : List CString) → AreNonempty ts → nonempty ts ≡ ts
nonempty-AreNonempty [] h = refl
nonempty-AreNonempty ([] ∷ ts) (ne, h) = absurd (ne refl)
nonempty-AreNonempty ((c ∷ t) ∷ ts) (ne, h) = ap (λ us. (c ∷ t) ∷ us) (nonempty-AreNonempty ts h)

-- A path that begins with '/', with no two '/' side by side and none at its end but in "/".
abbrev pub IsCanonical : CString → Type 0
IsCanonical [] = ⊥
IsCanonical (c ∷ s) = (c ≡ slash) × ((s ≡ []) ⊎ AreNonempty (tokens s))

pub find_inode_number-my_find_inode_number :
    (d : Disk) (path : CString)
    → IsCanonical path
    → find_inode_number d path ≡ my_find_inode_number d path
unfolding find_inode_number my_find_inode_number tokens same drop walk
find_inode_number-my_find_inode_number d [] h = absurd h
find_inode_number-my_find_inode_number d (c ∷ []) (e, h) = rw e refl
find_inode_number-my_find_inode_number d (c ∷ b ∷ s) (e, inl z) = absurd (cc)
find_inode_number-my_find_inode_number d (c ∷ b ∷ s) (e, inr full) =
    rw (e, nonempty-AreNonempty (tokens (b ∷ s)) full) refl

-- The buffer of the directory part has a NUL behind it, where it is not the root's.
abbrev pub IsEnded : Leftover → CString → Type 0
IsEnded left path = (i : ℕ) → last_slash (length path) path ≡ some i → i ≢ 0 → left i ≡ []

last_slash-first : (n : ℕ) (s : CString) → last_slash (suc n) (slash ∷ s) ≢ none
unfolding last_slash char_at
last_slash-first zero s e = absurd (cc e)
last_slash-first (suc n) s e = elim (Bool-cases (char_at (slash ∷ s) (suc n) == slash)) [
  | inl hit ↦ absurd (cc (rw (hit, last_slash) at e))
  | inr miss ↦ last_slash-first n s (rw (miss, last_slash) at e)
]

has_slash : (path : CString) → IsCanonical path → last_slash (length path) path ≢ none
has_slash [] h = absurd h
has_slash (c ∷ s) (e, h) = rw e (last_slash-first (length s) s)

-- A canonical path has a '/', and is then split as the later file does it in zeroed buffers.
split_path-parse_absolute_path :
    (left : Leftover) (path : CString)
    → IsCanonical path
    → IsEnded left path
    → split_path left path ≡ parse_absolute_path path
unfolding split_path parse_absolute_path
split_path-parse_absolute_path left path canonical ends =
    elim (Option-cases (last_slash (length path) path)) [
      | inl missing ↦ absurd (has_slash path canonical missing)
      | inr (i, e) ↦ elim (Bool-cases (i == 0)) [
        | inl front ↦ rw (e, front, split_path, parse_absolute_path) refl
        | inr ne ↦
            rw (e, ne, ends i e (==→ne i 0 ne), append-nil, split_path, parse_absolute_path) refl
      ]
    ]

-- The operations on a path whose own and whose directory's form is canonical.
module _ (left : Leftover) (path : CString) (canonical : IsCanonical path)
    (ends : IsEnded left path)
    (dir_canonical : IsCanonical (parse_absolute_path path).current_dir) where
  abbrev dir_of : CString
  dir_of = (parse_absolute_path path).current_dir

  split : split_path left path ≡ parse_absolute_path path
  split = split_path-parse_absolute_path left path canonical ends

  rd_create-agrees :
      (d : Disk) (type : FileType) (mode : ℕ)
      → Earlier.rd_create left d path type mode ≡ Tree.rd_create d path type mode
  unfolding Earlier.rd_create Tree.rd_create
  rd_create-agrees d type mode =
      ap
        (λ p.
          if d.free_inodes == 0
          then (failure, d)
          else if d.free_blocks == 0
          then (failure, d)
          else Earlier.create_in d p type mode)
        split
      ∙ rw (Earlier.create_in, find_inode_number-my_find_inode_number d dir_of dir_canonical) refl

  rd_unlink-agrees : (d : Disk) → Earlier.rd_unlink left d path ≡ Tree.rd_unlink d path
  unfolding Earlier.rd_unlink Tree.rd_unlink
  rd_unlink-agrees d =
      let e = find_inode_number-my_find_inode_number d path canonical in
      let e' = find_inode_number-my_find_inode_number d dir_of dir_canonical in
      elim (Option-cases (my_find_inode_number d path)) [
        | inl missing ↦ rw (e, missing, Tree.rd_unlink) refl
        | inr (k, found) ↦ elim (Bool-cases (is_dir (d.inodes k).type && ltb 0 (d.inodes k).size)) [
          | inl full ↦ rw (e, found, full, Tree.rd_unlink) refl
          | inr empty ↦
              rw (e, found, empty, Tree.rd_unlink)
                (rw (ap (λ p. Earlier.unlink_in d k p) split) (rw (Earlier.unlink_in, e') refl))
        ]
      ]

  rd_chmod-agrees : (d : Disk) (mode : ℕ) → Earlier.rd_chmod d path mode ≡ Tree.rd_chmod d path mode
  unfolding Earlier.rd_chmod Tree.rd_chmod
  rd_chmod-agrees d mode = rw (find_inode_number-my_find_inode_number d path canonical) refl

  rd_open-agrees :
      (s : System) (flags pid : ℕ)
      → Earlier.rd_open s path flags pid ≡ File.rd_open s path flags pid
  unfolding Earlier.rd_open File.rd_open
  rd_open-agrees s flags pid =
      rw (find_inode_number-my_find_inode_number s.disk path canonical) refl

  rd_mkdir-agrees :
      (d : Disk)
      → same path root ≡ false
      → Earlier.rd_mkdir left d path ≡ Earlier.made (Tree.rd_create d path FileType.dir read_write)
  unfolding Earlier.rd_mkdir
  rd_mkdir-agrees d other = rw (other, rd_create-agrees d FileType.dir read_write) refl

  -- On a path other than "/" that begins with '/' and has no two '/' side by side and none at
  -- its end, and whose directory part is of that form too (IsCanonical), where the byte behind
  -- a directory part other than "/" is NUL in the buffer that malloc gave for it, which the
  -- earlier program does not clear (IsEnded): rd_create, rd_unlink, rd_chmod and rd_open of the
  -- earlier program return what those of the kernel module return and leave the same state, in
  -- any state; rd_mkdir of the earlier program is rd_create of a directory with the mode RW,
  -- its status 0 or -1.
  pub operations-agree :
      same path root ≡ false
      → (s : System) (type : FileType) (mode flags pid : ℕ)
      → (Earlier.rd_create left s.disk path type mode ≡ Tree.rd_create s.disk path type mode)
        × (Earlier.rd_unlink left s.disk path ≡ Tree.rd_unlink s.disk path)
        × (Earlier.rd_chmod s.disk path mode ≡ Tree.rd_chmod s.disk path mode)
        × (Earlier.rd_open s path flags pid ≡ File.rd_open s path flags pid)
        × (Earlier.rd_mkdir left s.disk path
            ≡ Earlier.made (Tree.rd_create s.disk path FileType.dir read_write))
  operations-agree other s type mode flags pid = (
    rd_create-agrees s.disk type mode,
    rd_unlink-agrees s.disk,
    rd_chmod-agrees s.disk mode,
    rd_open-agrees s flags pid,
    rd_mkdir-agrees s.disk other,
  )

abbrev pub zeroed_disk : Disk
zeroed_disk = record {
  free_blocks = 0;
  free_inodes = 0;
  inodes = λ _. blank_inode;
  bitmap = λ _. 0;
  memory = λ _. 0;
}

-- Where the memory of the new file system is zeroed, both start alike.
pub init_file_sys-agrees :
    (left : Leftover) (buffer : Mem)
    → Earlier.init_file_sys left zeroed_disk buffer ≡ Tree.init_file_sys buffer
unfolding Earlier.init_file_sys Earlier.rd_mkdir Tree.init_file_sys Tree.rd_mkdir same
init_file_sys-agrees left buffer = refl
