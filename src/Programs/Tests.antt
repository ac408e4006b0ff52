-- ===== src/Programs/Tests.antt =====
-- cat of a file of 4 bytes.
use ece391_mp.Prelude.{◌<◌, arith, ◌==◌, ◌||◌, if◌then◌else◌}
use ece391_mp.Prelude.Memory.{Memory}
use ece391_mp.FileSys.{FileSys}
use ece391_mp.Screen.{Screen}
use ece391_mp.Files.{Pcb}
use ece391_mp.Programs.FileStream.{Console}

-- An image of three blocks at 8192: the file of the inode 0 has the 4 bytes from 16384 on.
abbrev image : Memory
image a =
    if a == 12288
    then 4
    else if a == 16384
    then b'a'
    else if a == 16385
    then b'b'
    else if a == 16386
    then b'c'
    else if a == 16387
    then b'\n'
    else 0

abbrev disk : FileSys
disk = record { filesys_addr = 8192; boot_block = λ o. if o == 4 then 1 else 0; dr_index = 0 }

-- The descriptors 1 and 2 are in use, the first of them by the terminal.
abbrev files : Pcb
files = record {
  fops = λ i. if i == 1 then 0x410000 else 0;
  inode = λ i. 0;
  pos = λ i. 0;
  flags = λ i. if i == 1 || i == 2 then 1 else 0;
  file_name = λ i j. 0;
  arg_buffer = λ i. 0;
}

abbrev blank : Screen
blank = record { mem = λ a. 0; video_mem = 0xB8000; x = 0; y = 0; cursor = 0; wrapped = 0 }

abbrev console : Console
console = record {
  key_index = 3;
  buffer = 0x7FF000;
  terminal_funcs = 0x410000;
  other_write = λ funcs w s. (s, 0);
}

one_inode : 0 < 1
one_inode = omega arith
