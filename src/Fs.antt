-- ===== src/Fs.antt =====
-- fs/: paths, and the FAT16 driver.
pub mod PathParser
pub mod Fat16
pub mod File
pub mod Mount
