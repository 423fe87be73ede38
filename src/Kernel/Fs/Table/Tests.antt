-- ===== src/Kernel/Fs/Table/Tests.antt =====
-- Runs of the inode table, and the theorems at them.
use osn_mp.Common.{ℕ, Option, some, ◌==◌, ◌≡◌, refl, arith, if◌then◌else◌}
use mathlib.Core.Option
use osn_mp.Common.Bits.{has_bit, without_bit}
use osn_mp.Kernel.Fs.{Store}
use osn_mp.Kernel.Fs.Bitmap.{bfree, mark_free}
use osn_mp.Kernel.Fs.Dinode.{iupdate, ifree}
use osn_mp.Kernel.Fs.Trunc.{itrunc, free_slots, free_indirect}
use osn_mp.Kernel.Fs.Table.{Itable, scan_inodes, iget, iput}
use osn_mp.Kernel.Fs.Table.Counts.{IsUnique}
use osn_mp.Kernel.Fs.Table.Given.{Iget, iget-Iget}
use osn_mp.Kernel.Fs.Table.Dropped.{Iput, IsWhole, iput-Iput}
use osn_mp.Kernel.Fs.Sample.{disk, start, file, start-IsFormatted, file-IsFile, file-IsFit}

-- The inode 1, unlinked and with one reference, in the entry 2.
abbrev table : Itable
table i = record {
  dev = 1;
  inum = 1;
  ref = if i == 2 then 1 else 0;
  valid = i == 2;
  inode = record file { nlink = 0 };
}

abbrev given : Option (ℕ × Itable) → Option (ℕ × ℕ)
given o = Option.map {B = ℕ × ℕ} (λ (r : ℕ × Itable). (r.0, (r.1 r.0).ref)) o

shares_entry : given (iget 1 1 table) ≡ some (2, 2)
unfolding iget scan_inodes
shares_entry = refl

recycles_entry : given (iget 1 7 table) ≡ some (0, 1)
unfolding iget scan_inodes
recycles_entry = refl

last_one :
    Option.map {B = ℕ} (λ (r : Itable × Store). (r.0 2).ref) (iput disk 2 table start) ≡ some 0
unfolding iput itrunc free_slots free_indirect bfree mark_free has_bit without_bit iupdate ifree
last_one = refl

table-IsUnique : IsUnique table
table-IsUnique i j dev inum l m h g = ground arith

entry-IsWhole : IsWhole disk (table 2) start
entry-IsWhole = record {
  file = record { holds = file-IsFile.holds; bytes = file-IsFile.bytes };
  fit = record {
    type = file-IsFit.type;
    major = file-IsFit.major;
    minor = file-IsFit.minor;
    nlink = omega arith;
    size = file-IsFit.size;
    addrs = file-IsFit.addrs;
  };
  typed = λ e. omega arith;
  out = λ c l e. omega arith;
}

iget-Iget_example : Iget 1 7 table (iget 1 7 table)
iget-Iget_example = iget-Iget 1 7 table table-IsUnique

iput-Iput_example : Iput disk 2 table start (iput disk 2 table start)
iput-Iput_example =
    iput-Iput disk 2 table start (omega arith) table-IsUnique (omega arith) start-IsFormatted
      (omega arith) (λ r v n. entry-IsWhole)
