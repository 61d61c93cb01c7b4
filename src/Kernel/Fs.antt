-- ===== src/Kernel/Fs.antt =====
pub mod Entries
pub mod Layout
pub mod Content
pub mod Naming
pub mod Persistence
-- Mik-FS, mik-os-x86/kernel/src/fs.rs, over any disk: the statics `PRESENT`, `DIR`, `NEXT_FREE` and
-- the disk as a record. `DIR` is the function of its 1024 bytes. Sector numbers do not overflow here:
-- the source panics, with overflow checks, where one would pass 2 ^ 32.
use mik_os.Common.{
  ℕ, zero, suc, ◌+◌, ◌-◌, ◌*◌, ◌/◌, ◌%◌, ◌^◌, min, ◌==◌, ltb, leb, if◌then◌else◌, Bool, true, false,
  not, ◌&&◌, ◌||◌, Option, none, some, List, [], ◌∷◌, ◌++◌, map, length, take, Memory, update,
  slice, copy_into, load32, store32, bytes_eq,
}
use mik_os.Common.Table.{find_from}
use mik_os.Kernel.Disk.{Disk}

abbrev pub sb_lba : ℕ
sb_lba = 256

abbrev pub dir_lba : ℕ
dir_lba = 257

abbrev pub dir_sectors : ℕ
dir_sectors = 2

abbrev pub data_lba : ℕ
data_lba = 260

abbrev pub file_sectors : ℕ
file_sectors = 8

abbrev pub file_cap : ℕ
file_cap = file_sectors * 512

abbrev pub max_files : ℕ
max_files = 32

abbrev pub ent : ℕ
ent = 32

abbrev pub name_max : ℕ
name_max = 24

-- "MIKFS001"
abbrev pub magic : List ℕ
magic = b'M' ∷ b'I' ∷ b'K' ∷ b'F' ∷ b'S' ∷ b'0' ∷ b'0' ∷ b'1' ∷ []

-- "fs: formatted"
abbrev pub formatted_text : List ℕ
formatted_text =
    b'f' ∷ b's' ∷ b':' ∷ 32 ∷ b'f' ∷ b'o' ∷ b'r' ∷ b'm' ∷ b'a' ∷ b't' ∷ b't' ∷ b'e' ∷ b'd' ∷ 10 ∷ []

unfoldable pub ent_len : Memory → ℕ → ℕ
ent_len dir i = load32 dir (i * ent + 28)

unfoldable pub ent_sector : Memory → ℕ → ℕ
ent_sector dir i = load32 dir (i * ent + 24)

-- "hello.txt"
abbrev pub hello_name : List ℕ
hello_name = b'h' ∷ b'e' ∷ b'l' ∷ b'l' ∷ b'o' ∷ b'.' ∷ b't' ∷ b'x' ∷ b't' ∷ []

-- "Hello from Mik-FS\n"
abbrev pub hello_text : List ℕ
hello_text =
    b'H' ∷ b'e' ∷ b'l' ∷ b'l' ∷ b'o' ∷ b' ' ∷ b'f' ∷ b'r' ∷ b'o' ∷ b'm' ∷ b' ' ∷ b'M' ∷ b'i' ∷ b'k'
    ∷ b'-' ∷ b'F' ∷ b'S' ∷ 10 ∷ []

-- The test of `find` on entry `i`.
unfoldable pub names : Memory → List ℕ → ℕ → Bool
names dir name i =
    not (dir (i * ent) == 0)
    && (bytes_eq (slice dir (i * ent) (length name)) name
        && (length name == name_max || dir (i * ent + length name) == 0))

abbrev pub bad_name : List ℕ → Bool
bad_name name = length name == 0 || ltb name_max (length name)

-- The directory with entry `i` cleared and filled in by `create`.
unfoldable pub new_entry : Memory → ℕ → List ℕ → ℕ → Memory
new_entry dir i name first =
    let cleared : Memory = λ k. if leb (i * ent) k && ltb k (i * ent + ent) then 0 else dir k in
    store32 (copy_into cleared (i * ent) name) (i * ent + 24) first

-- The bytes up to the first NUL.
abbrev pub name_of : Memory → ℕ → ℕ → List ℕ
name_of dir k zero = []
name_of dir k (suc n) = if dir k == 0 then [] else dir k ∷ name_of dir (k + 1) n

-- `each_file`: the name and length of each live entry, from entry `i` on.
unfoldable pub files_from : ℕ → Memory → ℕ → List (List ℕ × ℕ)
files_from zero dir i = []
files_from (suc n) dir i = elim (dir (i * ent) == 0) [
  | true ↦ files_from n dir (i + 1)
  | false ↦ (name_of dir (i * ent) name_max, ent_len dir i) ∷ files_from n dir (i + 1)
]

module _ (disk : Disk) where
  open disk use {State, read_sector, write_sector}

  pub record Fs : Type 0 where
    pub present : Bool
    pub dir : Memory
    pub next_free : ℕ
    pub store : State

  -- The outcomes of these two writes are ignored by the source.
  unfoldable pub flush_ent : Fs → ℕ → Fs
  flush_ent s i =
      let sec = i * ent / 512 in
      record s { store = (write_sector s.store (dir_lba + sec) (λ k. s.dir (sec * 512 + k))).1 }

  unfoldable pub flush_sb : Fs → Fs
  flush_sb s =
      let sb = store32 (copy_into (λ _. 0) 0 magic) 8 s.next_free in
      record s { store = (write_sector s.store sb_lba sb).1 }

  unfoldable pub find : Fs → List ℕ → Option ℕ
  find s name =
      if not s.present || bad_name name then none else find_from max_files 0 (names s.dir name)

  unfoldable pub create_at : Fs → List ℕ → ℕ → Option ℕ × Fs
  create_at s name i =
      let s1 = record s {
        next_free = s.next_free + file_sectors;
        dir = new_entry s.dir i name s.next_free;
      } in
      (some i, flush_sb (flush_ent s1 i))

  unfoldable pub create : Fs → List ℕ → Option ℕ × Fs
  unfolding create_at
  create s name =
      if not s.present || bad_name name
      then (none, s)
      else (elim (find_from max_files 0 (λ i. s.dir (i * ent) == 0)) [
        | none ↦ (none, s)
        | some i ↦ create_at s name i
      ])

  unfoldable pub truncate : Fs → ℕ → Fs
  truncate s i = flush_ent (record s { dir = store32 s.dir (i * ent + 28) 0 }) i

  unfoldable pub read_at : Fs → ℕ → ℕ → Option ℕ
  read_at s i pos =
      if leb (ent_len s.dir i) pos
      then none
      else (elim (read_sector s.store (ent_sector s.dir i + pos / 512)) [
        | none ↦ none
        | some sec ↦ some (sec (pos % 512))
      ])

  -- `write_at` behind the successful read of the sector.
  unfoldable pub write_back : Fs → ℕ → ℕ → ℕ → Memory → Bool × Fs
  write_back s i pos b sec =
      let lba = ent_sector s.dir i + pos / 512 in
      let (done, store') = write_sector s.store lba (update sec (pos % 512) b) in
      let s1 = record s { store = store' } in
      if not done
      then (false, s1)
      else if ltb (ent_len s.dir i) (pos + 1)
      then (true, flush_ent (record s1 { dir = store32 s.dir (i * ent + 28) (pos + 1) }) i)
      else (true, s1)

  unfoldable pub write_at : Fs → ℕ → ℕ → ℕ → Bool × Fs
  write_at s i pos b =
      if leb file_cap pos
      then (false, s)
      else (elim (read_sector s.store (ent_sector s.dir i + pos / 512)) [
        | none ↦ (false, s)
        | some sec ↦ write_back s i pos b sec
      ])

  -- The `while done < len` of `read_file`, with `left` sectors to go at most: the bytes put into
  -- `buf` from index `done` on.
  unfoldable pub read_sectors : ℕ → Fs → ℕ → ℕ → ℕ → List ℕ
  read_sectors zero s i done len = []
  read_sectors (suc left) s i done len = elim (ltb done len) [
    | false ↦ []
    | true ↦ elim (read_sector s.store (ent_sector s.dir i + done / 512)) [
      | none ↦ []
      | some sec ↦
          let n = min (len - done) 512 in slice sec 0 n ++ read_sectors left s i (done + n) len
    ]
  ]

  -- The bytes read, for a buffer of `room` bytes.
  unfoldable pub read_file : Fs → ℕ → ℕ → List ℕ
  read_file s i room = let len = min (ent_len s.dir i) room in read_sectors len s i 0 len

  unfoldable pub each_file : Fs → List (List ℕ × ℕ)
  each_file s = if s.present then files_from max_files s.dir 0 else []

  unfoldable pub write_content : Fs → ℕ → ℕ → List ℕ → Fs
  write_content s i p [] = s
  write_content s i p (b ∷ bs) = write_content (write_at s i p b).1 i (p + 1) bs

  unfoldable pub seed : Fs → List ℕ → List ℕ → Fs
  seed s name content =
      let (made, s1) = create s name in
      elim made [ none ↦ s1 | some i ↦ write_content s1 i 0 content ]

  -- `init`, on a superblock that is missing or has the wrong magic.
  unfoldable pub format : State → List ℕ → Fs
  format d seed_prog =
      let s0 : Fs = record { present = true; dir = λ _. 0; next_free = data_lba; store = d } in
      let s1 = flush_sb s0 in
      let s2 = record s1 { store = (write_sector s1.store dir_lba (λ _. 0)).1 } in
      let s3 = record s2 { store = (write_sector s2.store (dir_lba + 1) (λ _. 0)).1 } in
      seed (seed s3 hello_name hello_text) (b'x' ∷ []) seed_prog

  -- A read that fails leaves its half of `DIR` as it was: zero at boot.
  unfoldable pub read_dir_sector : State → ℕ → Memory
  read_dir_sector d k = elim (read_sector d (dir_lba + k)) [ none ↦ (λ _. 0) | some sec ↦ sec ]

  -- `init`, on a superblock with the magic.
  unfoldable pub mount : State → Memory → Fs
  mount d sb = record {
    present = true;
    dir = λ k. if ltb k 512 then read_dir_sector d 0 k else read_dir_sector d 1 (k - 512);
    next_free = load32 sb 8;
    store = d;
  }

  unfoldable pub unmounted : State → Fs
  unmounted d = record { present = false; dir = λ _. 0; next_free = 0; store = d }

  -- With the count of the live files.
  unfoldable pub init : State → List ℕ → ℕ × Fs
  init d seed_prog =
      if not (disk.present d)
      then (0, unmounted d)
      else let s : Fs = elim (read_sector d sb_lba) [
        | none ↦ format d seed_prog
        | some sb ↦ if bytes_eq (slice sb 0 8) magic then mount d sb else format d seed_prog
      ] in
        (length (each_file s), s)

  -- What `init` prints: `fresh` in the source is a superblock that is missing or has the wrong magic.
  unfoldable pub init_text : State → List ℕ
  init_text d = if not (disk.present d) then [] else elim (read_sector d sb_lba) [
    | none ↦ formatted_text
    | some sb ↦ if bytes_eq (slice sb 0 8) magic then [] else formatted_text
  ]
