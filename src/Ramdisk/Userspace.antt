-- ===== src/Ramdisk/Userspace.antt =====
-- The library of the user, userspace/userspace_interface.c: each function fills in an
-- `ioctl_args_t` that was cleared, and makes the call. `ioctl` is the call, `getpid` what getpid
-- returns. The file number of /proc/discos, which rd_init opens, has no place in the calls here.
pub mod Calls
pub mod RoundTrip
use file_system_toy_os.Prelude.{ℕ, ℤ, pos}
use file_system_toy_os.Ramdisk.Ioctl.{Command, IoctlArgs}

-- `memset(args, 0, sizeof(ioctl_args_t))`
abbrev pub cleared_args : IoctlArgs
cleared_args = record { size = pos 0; mode = 0; pid = 0; fd = 0; pathname = 0; data_ptr = 0 }

module _ {ℓ} {R : Type ℓ} (ioctl : Command → IoctlArgs → R) (getpid : ℕ) where
  unfoldable pub rd_init : R
  rd_init = ioctl Command.init cleared_args

  unfoldable pub rd_creat : ℕ → ℕ → R
  rd_creat pathname mode =
      ioctl Command.create (record cleared_args { pathname = pathname; mode = mode })

  unfoldable pub rd_unlink : ℕ → R
  rd_unlink pathname = ioctl Command.unlink (record cleared_args { pathname = pathname })

  unfoldable pub rd_mkdir : ℕ → R
  rd_mkdir pathname = ioctl Command.mkdir (record cleared_args { pathname = pathname })

  unfoldable pub rd_open : ℕ → ℕ → R
  rd_open pathname mode =
      ioctl Command.opens (record cleared_args { pathname = pathname; mode = mode; pid = getpid })

  unfoldable pub rd_write : ℕ → ℕ → ℤ → R
  rd_write fd content number_of_data =
      ioctl Command.write
        (record cleared_args { pid = getpid; fd = fd; size = number_of_data; data_ptr = content })

  unfoldable pub rd_chmod : ℕ → ℕ → R
  rd_chmod pathname mode =
      ioctl Command.chmod (record cleared_args { mode = mode; pathname = pathname; pid = getpid })

  unfoldable pub rd_lseek : ℕ → ℤ → R
  rd_lseek fd offset =
      ioctl Command.lseek (record cleared_args { fd = fd; size = offset; pid = getpid })

  unfoldable pub rd_read : ℕ → ℕ → ℤ → R
  rd_read fd addr number_of_data =
      ioctl Command.read
        (record cleared_args { fd = fd; data_ptr = addr; size = number_of_data; pid = getpid })

  unfoldable pub rd_close : ℕ → R
  rd_close fd = ioctl Command.close (record cleared_args { fd = fd; pid = getpid })
