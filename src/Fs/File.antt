-- ===== src/Fs/File.antt =====
-- fs/file.c: the table of open files over the one disk's file system, which is a parameter.
pub mod Descriptors
use os_kernel_application_si.Base.{
  ℕ, zero, suc, ◌+◌, ◌-◌, ◌^◌, ◌%◌, Bool, true, false, ◌||◌, ◌&&◌, not, Option, none, some, List,
  [], ◌∷◌, ltb, leb, ◌==◌, if◌then◌else◌, length, get_elem?, set, replicate, Run, done, fault,
  out_of_fuel, and_then, map_run, ℤ, pos, negsuc,
}
use os_kernel_application_si.Status.{eio, einvarg, enomem}
use os_kernel_application_si.Disk.{DiskPtr, disk_get}
use os_kernel_application_si.Strings.{strncmp}
use os_kernel_application_si.Fs.PathParser.{PathRoot, is_zero, pathparser_parse}
use os_kernel_application_si.Fs.Fat16.{minus, is_negative}
use os_kernel_application_si.Fs.Fat16.Files.{
  FileMode, file_mode_read, file_mode_write, file_mode_append, file_mode_invalid, SeekMode,
  FileStat,
}

-- PEACHOS_MAX_FILE_DESCRIPTORS
abbrev pub max_file_descriptors : ℕ
max_file_descriptors = 512

-- `struct filesystem`: its functions, on a state `S` of the disk and on private data `P`. `open`
-- gives private data or the pattern of an error; a function that changes what its private data
-- points to returns it.
pub record Filesystem (S P : Type 0) : Type 0 where
  pub open_file : List (List ℕ) → FileMode → S → Run ((Option P × ℕ) × S)
  pub read : P → ℕ → ℕ → S → Run ((ℕ × List ℕ) × S)
  pub write : P → ℕ → ℕ → List ℕ → S → Run ((ℕ × P) × S)
  pub seek : P → ℕ → SeekMode → Run (ℕ × P)
  pub stat : P → FileStat → Run (ℕ × FileStat)
  pub close : P → ℕ
  pub delete : List (List ℕ) → S → Run (ℕ × S)
  pub readdir : S → ℕ → List ℕ → ℕ → Run (ℕ × List ℕ)

-- `file_descriptors`, whether `disk->filesystem` is set, and the state of the disk.
pub record FileTable (S P : Type 0) : Type 0 where
  pub file_descriptors : List (Option P)
  pub mounted : Bool
  pub disk_state : S

-- The index of the first entry that is 0; `n` are left, from `i` on.
unfoldable pub free_descriptor_loop : {P : Type 0} → ℕ → List (Option P) → ℕ → Run (Option ℕ)
free_descriptor_loop zero ds i = done none
free_descriptor_loop (suc n) [] i = fault
free_descriptor_loop (suc n) (none ∷ ds) i = done (some i)
free_descriptor_loop (suc n) (some p ∷ ds) i = free_descriptor_loop n ds (i + 1)

module _ {S P : Type 0} where
  abbrev pub with_descriptor : FileTable S P → ℕ → Option P → FileTable S P
  with_descriptor t i o = record t { file_descriptors = set t.file_descriptors i o }

  abbrev pub with_state : FileTable S P → S → FileTable S P
  with_state t s = record t { disk_state = s }

  unfoldable pub fs_init : FileTable S P → FileTable S P
  fs_init t = record t { file_descriptors = replicate max_file_descriptors none }

  -- `desc->index` is the number of the descriptor.
  unfoldable pub file_free_descriptor : FileTable S P → ℕ → FileTable S P
  file_free_descriptor t index = with_descriptor t (index - 1) none

  -- The status or the number, with the private data that the caller stores. The allocation is
  -- taken to succeed: the code does not test it.
  unfoldable pub file_new_descriptor : FileTable S P → P → Run (ℕ × FileTable S P)
  file_new_descriptor t private_data =
      map_run
        (λ o. elim o [
          | none ↦ (minus enomem, t)
          | some i ↦ (i + 1, with_descriptor t i (some private_data))
        ])
        (free_descriptor_loop max_file_descriptors t.file_descriptors 0)

  -- `fd` is an `int`; `none` is a null pointer.
  unfoldable pub file_get_descriptor : FileTable S P → ℕ → Run (Option P)
  file_get_descriptor t fd =
      if fd == 0 || is_negative fd || leb max_file_descriptors fd
      then done none
      else elim (get_elem? t.file_descriptors (fd - 1)) [ none ↦ fault | some o ↦ done o ]

unfoldable pub file_get_mode_by_string : List ℕ → Run FileMode
file_get_mode_by_string str = and_then (strncmp str (b'r' ∷ 0 ∷ []) 1) λ r.
    and_then (strncmp str (b'w' ∷ 0 ∷ []) 1) λ w. and_then (strncmp str (b'a' ∷ 0 ∷ []) 1) λ a.
      done (
        if is_zero r
        then file_mode_read
        else if is_zero w
        then file_mode_write
        else if is_zero a
        then file_mode_append
        else file_mode_invalid)

abbrev pub is_invalid : FileMode → Bool
is_invalid file_mode_read = false
is_invalid file_mode_write = false
is_invalid file_mode_append = false
is_invalid file_mode_invalid = true

-- What `fopen` and `fdelete` test of a path: the parts, or the error.
abbrev pub path_parts : Option PathRoot → Bool → List (List ℕ) × ℕ
path_parts none mounted = ([], minus einvarg)
path_parts (some root) mounted = elim root.parts [
  | [] ↦ ([], minus einvarg)
  | part ∷ parts ↦ elim root.drive_no [
    | negsuc e ↦ ([], minus eio)
    | pos d ↦ elim (disk_get d) [
      | none ↦ ([], minus eio)
      | some disk ↦ if mounted then (part ∷ parts, 0) else ([], minus eio)
    ]
  ]
]

module _ {S P : Type 0} (fs : Filesystem S P) where
  -- The file system's function, and the descriptor of what it opened.
  unfoldable pub open_parts : FileTable S P → List (List ℕ) → FileMode → Run (ℕ × FileTable S P)
  open_parts t parts mode =
      if is_invalid mode
      then done (minus einvarg, t)
      else and_then (fs.open_file parts mode t.disk_state) (λ got. elim got.0.0 [
        | none ↦ done (got.0.1, with_state t got.1)
        | some private_data ↦ file_new_descriptor (with_state t got.1) private_data
      ])

  -- No negative result is returned.
  unfoldable pub fopen : FileTable S P → List ℕ → List ℕ → Run (ℕ × FileTable S P)
  fopen t filename mode_str = and_then (pathparser_parse filename) λ root.
      let checked_path = path_parts root t.mounted in
      let opened =
        and_then (file_get_mode_by_string mode_str) λ mode. open_parts t checked_path.0 mode in
      map_run (λ got. (if is_negative got.0 then 0 else got.0, got.1))
        (if checked_path.1 == 0 then opened else done (checked_path.1, t))

  unfoldable pub fstat : FileTable S P → ℕ → FileStat → Run (ℕ × FileStat)
  fstat t fd stat = and_then (file_get_descriptor t fd) λ desc. elim desc [
    | none ↦ done (minus eio, stat)
    | some private_data ↦ fs.stat private_data stat
  ]

  unfoldable pub fclose : FileTable S P → ℕ → Run (ℕ × FileTable S P)
  fclose t fd = and_then (file_get_descriptor t fd) λ desc. elim desc [
    | none ↦ done (minus eio, t)
    | some private_data ↦
        let res = fs.close private_data in
        done (res, if res == 0 then file_free_descriptor t fd else t)
  ]

  unfoldable pub fseek : FileTable S P → ℕ → ℕ → SeekMode → Run (ℕ × FileTable S P)
  fseek t fd offset whence = and_then (file_get_descriptor t fd) λ desc. elim desc [
    | none ↦ done (minus eio, t)
    | some private_data ↦
        map_run (λ got. (got.0, with_descriptor t (fd - 1) (some got.1)))
          (fs.seek private_data offset whence)
  ]

  -- `size == 0 || nmemb == 0 || fd < 1`
  abbrev pub bad_request : ℕ → ℕ → ℕ → Bool
  bad_request size nmemb fd = size == 0 || nmemb == 0 || fd == 0 || is_negative fd

  unfoldable pub fread : FileTable S P → ℕ → ℕ → ℕ → Run ((ℕ × List ℕ) × FileTable S P)
  fread t size nmemb fd =
      if bad_request size nmemb fd
      then done ((minus einvarg, []), t)
      else and_then (file_get_descriptor t fd) (λ desc. elim desc [
        | none ↦ done ((minus einvarg, []), t)
        | some private_data ↦
            map_run (λ got. (got.0, with_state t got.1))
              (fs.read private_data size nmemb t.disk_state)
      ])

  unfoldable pub fwrite : FileTable S P → List ℕ → ℕ → ℕ → ℕ → Run (ℕ × FileTable S P)
  fwrite t bytes size nmemb fd =
      if bad_request size nmemb fd
      then done (minus einvarg, t)
      else and_then (file_get_descriptor t fd) (λ desc. elim desc [
        | none ↦ done (minus einvarg, t)
        | some private_data ↦
            map_run (λ got. (got.0.0, with_descriptor (with_state t got.1) (fd - 1) (some got.0.1)))
              (fs.write private_data size nmemb bytes t.disk_state)
      ])

  unfoldable pub freaddir : FileTable S P → ℕ → List ℕ → ℕ → Run (ℕ × List ℕ)
  freaddir t index buf buf_size =
      if t.mounted then fs.readdir t.disk_state index buf buf_size else done (minus eio, buf)

  unfoldable pub fdelete : FileTable S P → List ℕ → Run (ℕ × FileTable S P)
  fdelete t filename = and_then (pathparser_parse filename) λ root.
      let checked_path = path_parts root t.mounted in
      if checked_path.1 == 0
      then map_run (λ got. (got.0, with_state t got.1)) (fs.delete checked_path.0 t.disk_state)
      else done (checked_path.1, t)
