-- ===== src/Kernel/Tests.antt =====
-- The theorems on the kernel's parts at concrete states.
use mik_os.Common.{
  ap, ◌^◌, load64, ℕ, ◌+◌, ◌≤◌, ◌<◌, ◌≡◌, ◌≢◌, refl, inr, arith, true, false, ◌==◌, if◌then◌else◌,
  none, some, List, [], ◌∷◌, replicate, load32, store32, get_or,
}
use mik_os.Common.Table.{find_from}
use mik_os.Kernel.Input.{Ring}
use mik_os.Kernel.Input.Queue.{IsValid, contents, pushed, popped, run, run_queue, run_refines}
use mik_os.Kernel.Kbd.{key}
use mik_os.Kernel.Vga.{Console}
use mik_os.Kernel.Mem.{Frames, free_frame, alloc_frame, E820Entry, seed_entries}
use mik_os.Kernel.Mem.FreeList.{Holds, free_frame-Holds, alloc_frame-free_frame}
use mik_os.Kernel.Mem.Seed.{Counts, map_end, entries_frames, seed_entries-Counts}
use mik_os.Kernel.Paging.{find_levels, find_pte}
use mik_os.Kernel.Disk.{ram_disk}
use mik_os.Kernel.Fs.{
  ent_len, ent_sector, names, new_entry, Fs, find, create, create_at, flush_ent, flush_sb, read_at,
  write_at, write_back, dir_lba, init,
}
use mik_os.Kernel.Fs.Layout.{IsLive, IsLaidOut, create-IsLaidOut, write_at-IsLaidOut}
use mik_os.Kernel.Fs.Content.{read_at-write_at, read_at-write_at_other}
use mik_os.Kernel.Fs.Persistence.{superblock, IsSaved, IsRestored, init-create}
use mik_os.Kernel.Fs.Naming.{find-create}

abbrev empty : Ring
empty = record { buf = replicate 64 0; head = 63; len = 0 }

empty-IsValid : IsValid empty
empty-IsValid = record { storage = refl; head_in = omega arith; len_in = omega arith }

run_refines_example :
    run empty (pushed 7 ∷ pushed 8 ∷ popped ∷ popped ∷ popped ∷ [])
    ≡ run_queue (contents empty) (pushed 7 ∷ pushed 8 ∷ popped ∷ popped ∷ popped ∷ [])
run_refines_example =
    run_refines (pushed 7 ∷ pushed 8 ∷ popped ∷ popped ∷ popped ∷ []) empty empty-IsValid

a_key : key false 0x1e ≡ some b'a'
unfolding key
a_key = refl

abbrev blank : Console
blank = record { cells = λ _. 0; cursor = 1999 }

abbrev no_frames : Frames
no_frames = record { mem = λ _. 0; head = 0 }

no_frames-Holds : Holds no_frames []
no_frames-Holds = record { linked = refl; frames = tt }

one_frame-Holds : Holds (free_frame no_frames 0x100000) (0x100000 ∷ [])
one_frame-Holds =
    free_frame-Holds no_frames [] 0x100000 no_frames-Holds (refl, omega arith) (omega arith) tt

alloc_frame-free_frame_example :
    (s' : Frames) × (alloc_frame (free_frame no_frames 0x100000) ≡ (some 0x100000, s'))
    × Holds s' []
alloc_frame-free_frame_example =
    alloc_frame-free_frame no_frames [] 0x100000 no_frames-Holds (refl, omega arith) (omega arith)
      tt

abbrev region : E820Entry
region = record { base = 0xff800; len = 0x2800; typ = 1; acpi = 0 }

nothing-Counts : Counts 0x410000 0 (no_frames, 0) []
nothing-Counts = record { holds = no_frames-Holds; counted = refl; allowed = tt }

seed_entries-Counts_example :
    Counts 0x410000
      (map_end 0 (region ∷ []))
      (seed_entries 0x410000 (region ∷ []) (no_frames, 0))
      (entries_frames 0x410000 (region ∷ []) [])
seed_entries-Counts_example =
    seed_entries-Counts 0x410000 0 (region ∷ []) no_frames 0 [] (omega arith, omega arith, tt)
      nothing-Counts

-- Mik-FS as `init` formats it, without its files.
abbrev bare : Fs ram_disk
bare = record { present = true; dir = λ _. 0; next_free = 260; store = λ _ _. 0 }

bare-IsLaidOut : IsLaidOut bare.dir 260
bare-IsLaidOut = record {
  first = omega arith;
  owned = λ i lt live. absurd (live refl);
  apart = λ i j lti ltj ne livei livej. absurd (livei refl);
}

abbrev note : List ℕ
note = b'n' ∷ b'o' ∷ b't' ∷ b'e' ∷ []

abbrev with_note : Fs ram_disk
with_note = (create ram_disk bare note).1

create-IsLaidOut_example : IsLaidOut with_note.dir with_note.next_free
create-IsLaidOut_example = create-IsLaidOut ram_disk bare note (omega arith) bare-IsLaidOut

with_note-IsLaidOut : IsLaidOut with_note.dir with_note.next_free
with_note-IsLaidOut = create-IsLaidOut ram_disk bare note (omega arith) bare-IsLaidOut

write_at-IsLaidOut_example :
    let s' = (write_at ram_disk with_note 0 600 b'A').1 in IsLaidOut s'.dir s'.next_free
write_at-IsLaidOut_example = write_at-IsLaidOut ram_disk with_note 0 600 b'A' with_note-IsLaidOut

note-IsLive : IsLive with_note.dir 0
unfolding find_from create create_at new_entry flush_ent flush_sb store32
note-IsLive h = (let e : b'n' ≡ 0 = h in ground (arith, e))

note_written : (write_at ram_disk with_note 0 600 b'A').0 ≡ true
unfolding find_from write_at write_back create create_at new_entry flush_ent flush_sb store32 load32
    ent_len ent_sector
note_written = refl

with_note_room : with_note.next_free ≤ 2 ^ 28
unfolding find_from create create_at new_entry flush_ent flush_sb store32
with_note_room = omega arith

read_at-write_at_example :
    read_at ram_disk (write_at ram_disk with_note 0 600 b'A').1 0 600 ≡ some b'A'
read_at-write_at_example =
    read_at-write_at ram_disk with_note with_note-IsLaidOut 0 600 b'A' (omega arith) note-IsLive
      with_note_room note_written

-- The file `note`, one byte long.
abbrev one_byte : Fs ram_disk
one_byte = (write_at ram_disk with_note 0 0 b'A').1

one_byte-IsLaidOut : IsLaidOut one_byte.dir one_byte.next_free
one_byte-IsLaidOut = write_at-IsLaidOut ram_disk with_note 0 0 b'A' with_note-IsLaidOut

one_byte-IsLive : IsLive one_byte.dir 0
unfolding find_from write_at write_back create create_at new_entry flush_ent flush_sb store32 load32
    ent_len ent_sector
one_byte-IsLive h = (let e : b'n' ≡ 0 = h in ground (arith, e))

next_written : (write_at ram_disk one_byte 0 1 b'B').0 ≡ true
unfolding find_from write_at write_back create create_at new_entry flush_ent flush_sb store32 load32
    ent_len ent_sector
next_written = refl

zero_ne_one : ◌≢◌ {A = ℕ} 0 1
zero_ne_one h = ground (arith, h)

one_byte_long : 0 < ent_len one_byte.dir 0
unfolding find_from write_at write_back create create_at new_entry flush_ent flush_sb store32 load32
    ent_len ent_sector
one_byte_long = omega arith

one_byte_room : one_byte.next_free ≤ 2 ^ 28
unfolding find_from write_at write_back create create_at new_entry flush_ent flush_sb store32 load32
    ent_len ent_sector
one_byte_room = omega arith

read_at-write_at_other_example :
    read_at ram_disk (write_at ram_disk one_byte 0 1 b'B').1 0 0 ≡ read_at ram_disk one_byte 0 0
read_at-write_at_other_example =
    read_at-write_at_other ram_disk one_byte one_byte-IsLaidOut 0 1 b'B' (omega arith)
      one_byte-IsLive one_byte_room next_written 0 0 (omega arith) one_byte-IsLive
      (inr (zero_ne_one, one_byte_long))

no_note : find ram_disk bare note ≡ none
unfolding find_from find names
no_note = refl

made_note : (create ram_disk bare note).0 ≡ some 0
unfolding find_from create create_at
made_note = refl

visible : get_or note 0 0 ≢ 0
visible h = (let e : b'n' ≡ 0 = h in ground (arith, e))

find-create_example : find ram_disk (create ram_disk bare note).1 note ≡ some 0
find-create_example = find-create ram_disk bare note 0 (omega arith) visible no_note made_note

-- A name that begins with a NUL takes a slot and 8 sectors, and cannot be found.
nul_name_lost :
    let (made, s) = create ram_disk bare (0 ∷ []) in
    (made ≡ some 0) × (s.next_free ≡ 268) × (find ram_disk s (0 ∷ []) ≡ none)
unfolding find_from create create_at new_entry flush_ent flush_sb store32 find names
nul_name_lost = (refl, refl, refl)

-- The table at 0x1000 is its own next table at each level.
abbrev tables : Frames
tables = record { mem = λ a. if a == 0x1000 then 7 else if a == 0x1001 then 0x10 else 0; head = 0 }

pte_found : find_pte tables.mem 0x1000 0x3000 ≡ some 0x1018
unfolding find_pte find_levels load64
pte_found = refl

-- Mik-FS on a disk that holds an empty directory and its superblock.
abbrev saved : Fs ram_disk
saved = record {
  present = true;
  dir = λ _. 0;
  next_free = 260;
  store = λ lba. if lba == 256 then superblock 260 else (λ _. 0);
}

empty_sector : (q : ℕ) → saved.store (dir_lba + q) ≡ (λ _. 0)
empty_sector q = let e : (dir_lba + q == 256) ≡ false = ground arith in rw e refl

saved-IsSaved : IsSaved ram_disk saved
saved-IsSaved = record {
  here = refl;
  directory = λ q lt. ((λ _. 0), ap some (empty_sector q), λ k ltk. refl);
  super = (superblock 260, refl, λ k lt. refl);
  small = omega arith;
}

init-create_example :
    IsRestored ram_disk
      (create ram_disk saved note).1
      (init ram_disk (create ram_disk saved note).1.store note).1
init-create_example =
    init-create ram_disk (λ d lba sec lt. refl) (λ d lba sec. refl) saved note note (omega arith)
      refl saved-IsSaved
