-- ===== src/Fs/Fat16/RootDirectory/Entries.antt =====
-- fat16.c: a directory entry and its 32 bytes on the disk.
use os_kernel_application_si.Base.{◌≡◌, ◌++◌, arith, length, length-append}
use os_kernel_application_si.Fs.Fat16.{DirectoryItem}
use os_kernel_application_si.Fs.Fat16.RootDirectory.{item_bytes, item_tail}

-- The fields of a name have 8 bytes and 3.
pub record IsItem (item : DirectoryItem) : Type 0 where
  pub filename : length item.filename ≡ 8
  pub ext : length item.ext ≡ 3

pub length-item_bytes : (item : DirectoryItem) → IsItem item → length (item_bytes item) ≡ 32
unfolding item_bytes
length-item_bytes item is = omega (
  arith,
  length-append item.filename (item.ext ++ item_tail item),
  length-append item.ext (item_tail item),
  is.filename,
  is.ext,
)
