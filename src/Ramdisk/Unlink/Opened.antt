-- ===== src/Ramdisk/Unlink/Opened.antt =====
-- `rd_unlink` of a file in the root directory and `rd_open` by its path, in kernelspace/discos.c.
use mathlib.Core.Path.{subst}
use file_system_toy_os.Prelude.{ℕ, ◌≡◌, ◌≢◌, refl, ap, ◌∙◌, none, [], ◌∷◌, success, failure}
use file_system_toy_os.Ramdisk.Memory.{CString}
use file_system_toy_os.Ramdisk.Disk.{Disk, System}
use file_system_toy_os.Ramdisk.Path.{slash, parse_absolute_path}
use file_system_toy_os.Ramdisk.Path.Split.{NoSlash, parse_absolute_path-root}
use file_system_toy_os.Ramdisk.Lookup.{find_component, my_find_inode_number}
use file_system_toy_os.Ramdisk.Lookup.Resolve.{in_root}
use file_system_toy_os.Ramdisk.Tree.{rd_unlink}
use file_system_toy_os.Ramdisk.File.{rd_open}
use file_system_toy_os.Ramdisk.Unlink.{CanUnlink, rd_unlink-Unlinked}

module _ (s : System) (name : CString) (plain : NoSlash name) (k : ℕ)
    (can : CanUnlink s.disk (slash ∷ name) 0 k) where
  filename_of : (parse_absolute_path (slash ∷ name)).filename ≡ name
  filename_of = ap (λ p. p.filename) (parse_absolute_path-root name plain)

  not_empty : name ≢ []
  not_empty e = can.name.not_empty (filename_of ∙ e)

  -- Under the conditions of rd_unlink-Unlinked for '/' and a name without '/' in the root
  -- directory: rd_unlink returns 0, the path then leads to no inode, and rd_open of it, with
  -- any flags and by any process, returns -1 and changes nothing.
  pub rd_open-rd_unlink :
      (flags pid : ℕ)
      → (d' : Disk) × (rd_unlink s.disk (slash ∷ name) ≡ (success, d'))
        × (my_find_inode_number d' (slash ∷ name) ≡ none)
        × (rd_open (record s { disk = d' }) (slash ∷ name) flags pid
            ≡ (failure, record s { disk = d' }))
  unfolding rd_open
  rd_open-rd_unlink flags pid =
      let (d', e, left) = rd_unlink-Unlinked s.disk (slash ∷ name) 0 k can in
      let missing : my_find_inode_number d' (slash ∷ name) ≡ none =
        in_root d' name plain not_empty
        ∙ subst (λ n. find_component d' n 0 ≡ none) filename_of left.gone in
      (d', e, missing, rw (can.not_root, missing, rd_open) refl)
