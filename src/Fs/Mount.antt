-- ===== src/Fs/Mount.antt =====
-- fat16.c, `fat16_fs`: the driver's functions in the table that fs/file.c calls.
use os_kernel_application_si.Base.{ℕ, Option, none, some, map_run}
use os_kernel_application_si.Fs.Fat16.{Volume}
use os_kernel_application_si.Fs.Fat16.Files.{FileDescriptor, Opened, opened, error, fat16_open}
use os_kernel_application_si.Fs.Fat16.RootDirectory.{fat16_readdir}
use os_kernel_application_si.Fs.Fat16.Contents.{
  fat16_read, fat16_write, fat16_seek, fat16_stat, fat16_delete,
}
use os_kernel_application_si.Fs.File.{Filesystem}

-- `ISERR` of what `open` returns: the pointer to a descriptor is no error.
abbrev pub descriptor_or_error : Opened → Option FileDescriptor × ℕ
descriptor_or_error (opened desc) = (some desc, 0)
descriptor_or_error (error e) = (none, e)

-- `fuel` bounds the entries of a directory that an `open` for reading may count.
abbrev pub fat16_fs : ℕ → Filesystem Volume FileDescriptor
fat16_fs fuel = record {
  open_file = λ parts mode v.
      map_run (λ got. (descriptor_or_error got.0, got.1)) (fat16_open fuel parts mode v);
  read = fat16_read;
  write = λ desc size nmemb buf. fat16_write desc size nmemb buf;
  seek = fat16_seek;
  stat = fat16_stat;
  close = λ desc. 0;
  delete = fat16_delete;
  readdir = fat16_readdir;
}
