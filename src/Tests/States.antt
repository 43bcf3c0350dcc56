-- ===== src/Tests/States.antt =====
-- States of the kernel that the examples use.
use adelaideos.Common.{
  ℕ, Bool, true, false, Option, none, some, List, [], ◌∷◌, ◌==◌, if◌then◌else◌, refl, arith,
}
use adelaideos.Buddy.{MemArea, empty}
use adelaideos.Page.{Pages}
use adelaideos.Screen.{Screen}
use adelaideos.Kernel.{
  Process, zero_process, ProcessList, PipeBuffer, FileHandle, pipe_reader, Kernel,
}
use adelaideos.Process.Lists.{IsScheduled}

abbrev pub blank : Screen
blank = record { cells = λ _. 32; fg = λ _. 7; bg = λ _. 0; xpos = 78; ypos = 24; ports = [] }

-- A heap of 2 ^ 10 bytes in two free blocks of 2 ^ 9.
abbrev pub halves : MemArea
halves = record {
  lower = 8;
  upper = 10;
  mem = 0x200000;
  blocks = λ i. record { sizem = (if i == 0 then 9 else if i == 2 then 9 else 0); used = false };
  freelist = λ m. if m == 9 then 0 else empty;
  links = λ b. if b == 0 then 512 else empty;
}

-- The page directory at 0x601000 has one table, at 0x602000; the page at 0x600000 is free.
abbrev pub memory : Pages
memory = record {
  page_end = 0x603000;
  page_free = 0x600000;
  npages = 2;
  words = λ a. if a == 0x601000 then 0x602007 else 0;
}

abbrev pub slot : ℕ → Option ℕ → Option ℕ → Bool → Process
slot pid prev next ready = record zero_process {
  pid = pid;
  exists = true;
  prev = prev;
  next = next;
  ready = ready;
}

-- The processes 1 and 2 are ready, 3 is suspended.
abbrev pub table : ℕ → Process
table i =
    if i == 1
    then slot 1 none (some 2) true
    else if i == 2
    then slot 2 (some 1) none true
    else if i == 3
    then slot 3 none none false
    else zero_process

abbrev pub ready_two : ProcessList
ready_two = record { first = some 1; last = some 2 }

-- The pipe at address 8 has a buffer of 4 bytes.
abbrev pub pipe_with : List ℕ → ℕ → Option ℕ → PipeBuffer
pipe_with bytes len reader = record {
  reading = true;
  writing = true;
  alloc = 4;
  len = len;
  readpid = reader;
  address = 16;
  contents = bytes;
}

abbrev pub reader_handle : FileHandle
reader_handle = record { type = pipe_reader; refcount = 1; p = 8; entry = 0; pos = 0; entryno = 0 }

abbrev pub kernel_with : PipeBuffer → Kernel
kernel_with pipe = record {
  processes = table;
  current = some 1;
  ready = ready_two;
  suspended = record { first = some 3; last = some 3 };
  pipes = λ _. pipe;
  handles = λ _. reader_handle;
  heap = halves;
  pages = memory;
  paging = none;
  display = blank;
  filesystem = λ _. 0;
}

pub kernel_with-IsScheduled :
    (pipe : PipeBuffer) → IsScheduled (kernel_with pipe) (1 ∷ 2 ∷ []) (3 ∷ [])
kernel_with-IsScheduled pipe = record {
  ready_list = (refl, refl, (omega arith, tt), (refl, refl, tt, (refl, refl)));
  suspended_list = (refl, refl, tt, (refl, refl));
  apart = ((omega arith, tt), ((omega arith, tt), tt));
  runnable = ((refl, refl), ((refl, refl), tt));
  waiting = ((refl, refl), tt);
}
