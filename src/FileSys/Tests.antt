-- ===== src/FileSys/Tests.antt =====
-- An image with one entry, named "a", in its directory and a second one, named "b", behind it; the
-- file 0 holds "xy". The names "a" and "b" stand at 100 and 200.
use ece391_mp.Prelude.{ℕ, zero, suc, ◌<◌, ◌≡◌, inl, inr, refl, arith, ◌==◌, if◌then◌else◌, some}
use ece391_mp.Prelude.Memory.{Memory}
use ece391_mp.FileSys.{
  FileSys, dentry_at, dentry_count, first_index, read_dentry_by_name, read_data,
}
use ece391_mp.FileSys.Names.{Matches}
use ece391_mp.FileSys.ByName.{FirstMatch, read_dentry_by_name-FirstMatch}
use ece391_mp.FileSys.Data.{HasRead, available, read_data_reads}
use ece391_mp.FileSys.Dir.{listing, entries, listing-entries}

abbrev pub boot : ℕ → ℕ
boot o =
    if o == 0
    then 1
    else if o == 4
    then 2
    else if o == 64
    then b'a'
    else if o == 96
    then 2
    else if o == 128
    then b'b'
    else 0

abbrev pub image : FileSys
image = record { filesys_addr = 8192; boot_block = boot; dr_index = 0 }

abbrev listed : FileSys
listed = record { filesys_addr = 8192; boot_block = boot; dr_index = 1 }

abbrev pub disk : Memory
disk a =
    if a == 100
    then b'a'
    else if a == 200
    then b'b'
    else if a == 12288
    then 2
    else if a == 20480
    then b'x'
    else if a == 20481
    then b'y'
    else 0

read_dentry_by_name_example : FirstMatch image disk 100 0 2 (read_dentry_by_name image disk 100 400)
read_dentry_by_name_example =
    read_dentry_by_name-FirstMatch image disk 100 400 (omega arith) (omega arith) (omega arith)

b-Matches : Matches (dentry_at image 1) disk 200
b-Matches = (1, omega arith, λ j le. ground arith, inl refl)

a-not_Matches : (k : ℕ) → k < 1 → ¬ Matches (dentry_at image k) disk 200
a-not_Matches zero lt (k, _, same, _) = omega (arith, same 0 (omega arith))
a-not_Matches (suc k) lt h = absurd (omega arith)

read_data_example :
    HasRead image disk (read_data image disk 0 0 300 5).0 0 0 300 (available image disk 0 0 5)
    × ((read_data image disk 0 0 300 5).1 ≡ available image disk 0 0 5)
read_data_example =
    read_data_reads image disk 0 0 300 5 (omega arith) (omega arith) (λ pos lt. omega arith)
      (omega arith) (omega arith)

listing_example :
    listing 2 image disk 400 300 32
    ≡ some (entries image 32 0 (dentry_count image), first_index image)
listing_example =
    listing-entries 400 300 32 (omega arith) (omega arith) (omega arith) (omega arith)
      (inr (omega arith)) 2 image disk refl (omega arith) (omega arith)
