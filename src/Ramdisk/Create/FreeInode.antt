-- ===== src/Ramdisk/Create/FreeInode.antt =====
-- The inode that `get_free_inode_num` of kernelspace/discos.c gives.
use mathlib.Core.Path.{subst}
use file_system_toy_os.Prelude.{ℕ, ◌≡◌, ◌≢◌, inl, inr, ap, ◌∙◌, ◌==◌, some, ne→==, Bool-cases}
use file_system_toy_os.Prelude.Loops.{IsFirst, Found, find_from_lem, find_from-first}
use file_system_toy_os.Ramdisk.Disk.{Disk}
use file_system_toy_os.Ramdisk.Bitmap.{is_unset, get_free_inode_num}

-- The inode that is handed out: one that is not in use, and not that of the root.
pub record IsUnused (d : Disk) (k : ℕ) : Type 0 where
  pub first : IsFirst 1 1023 (λ i. is_unset (d.inodes i).type) k

pub get_free_inode_num-IsUnused : (d : Disk) (k : ℕ) → get_free_inode_num d ≡ some k → IsUnused d k
unfolding get_free_inode_num
get_free_inode_num-IsUnused d k e = elim (Bool-cases (d.free_inodes == 0)) [
  | inl z ↦ absurd (cc (rw (z, get_free_inode_num) at e))
  | inr ne ↦ record {
    first =
        subst (Found 1 1023 (λ i. is_unset (d.inodes i).type)) (rw (ne, get_free_inode_num) at e)
          (find_from_lem 1023 1 (λ i. is_unset (d.inodes i).type));
  }
]

-- It depends on the types of the inodes alone.
pub get_free_inode_num-types :
    (d d' : Disk) (k : ℕ)
    → d.free_inodes ≢ 0
    → d'.free_inodes ≡ d.free_inodes
    → ((n : ℕ) → (d'.inodes n).type ≡ (d.inodes n).type)
    → get_free_inode_num d ≡ some k
    → get_free_inode_num d' ≡ some k
unfolding get_free_inode_num
get_free_inode_num-types d d' k ne same types e =
    let first = (get_free_inode_num-IsUnused d k e).first in
    let found =
      find_from-first 1023 1 (λ i. is_unset (d'.inodes i).type) k
        (record {
          from = first.from;
          below = first.below;
          passes = ap is_unset (types k) ∙ first.passes;
          before = λ m u v. ap is_unset (types m) ∙ first.before m u v;
        }) in
    rw (same, ne→== d.free_inodes 0 ne, get_free_inode_num) found
