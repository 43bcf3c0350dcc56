-- ===== src/Boot.antt =====
-- kernel_main of source/main.c, with the initial values of the global variables and kmalloc_init of
-- source/buddy.c, up to the switch to user mode.
use adelaideos.Common.{
  ℕ, ◌+◌, ◌*◌, false, Option, none, some, List, [], ◌==◌, ltb, codes, for_below, replicate, Run,
  done, stop, null_access, overrun, ◌>>=◌, ◌>>◌, assert,
}
use adelaideos.Buddy.{MemArea, buddy_init}
use adelaideos.Page.{page_start}
use adelaideos.Screen.{Screen, height, clear_line, move_cursor}
use adelaideos.Kernel.{zero_process, zero_pipe, zero_handle, Kernel}
use adelaideos.Segmentation.{Gdt, Segments, setup_segmentation}
use adelaideos.Interrupts.{Interrupts, setup_interrupts, Machine}
use adelaideos.FileDesc.{get_fd}
use adelaideos.Process.Start.{mb, CodeRange, start_process}
use adelaideos.Console.{kprintf, words_of}

-- What the linker and the assembly fix, and what memory holds at the start.
pub record Loaded : Type 0 where
  pub gdt_at : ℕ
  pub tss_at : ℕ
  pub stack_at : ℕ
  pub idt_at : ℕ
  pub handlers : ℕ → ℕ
  pub code : CodeRange
  pub launch_shell_at : ℕ
  pub kbdmap : ℕ → ℕ
  pub kbdmap_shift : ℕ → ℕ
  pub gdt : Gdt
  pub words : ℕ → ℕ
  pub bytes : ℕ → ℕ
  pub video : Screen
  pub stack : List ℕ

-- What the boot loader reports: `mb->mods_count` and the first of `mb->mods_addr`.
pub record Multiboot : Type 0 where
  pub mods_count : ℕ
  pub mod_start : ℕ
  pub mod_end : ℕ

-- kmalloc_init: 2 ^ 22 bytes from 2 MB on.
unfoldable pub kmalloc_init : (ℕ → ℕ) → MemArea
kmalloc_init links = buddy_init 22 (2 * mb) links

-- The global variables as they are initialised, with the heap of kmalloc_init; `links` is what its
-- memory holds before it is used.
unfoldable pub initial_kernel : Loaded → Screen → (ℕ → ℕ) → Kernel
initial_kernel l s links = record {
  processes = λ _. zero_process;
  current = none;
  ready = record { first = none; last = none };
  suspended = record { first = none; last = none };
  pipes = λ _. zero_pipe;
  handles = λ _. zero_handle;
  heap = kmalloc_init links;
  pages = record { page_end = page_start; page_free = 0; npages = 0; words = l.words };
  paging = none;
  display = s;
  filesystem = λ _. 0;
}

-- The two loops that clear the screen.
unfoldable pub clear_screen : Screen → Screen
clear_screen s = for_below height clear_line s

-- What the kernel has set up when it goes to user mode.
pub record Booted : Type 0 where
  pub segments : Segments
  pub interrupts : Interrupts
  pub machine : Machine

-- `processes[pid].filedesc[STDIN_FILENO]->p`, for the pid that start_process gave.
abbrev input_of : Kernel → Option ℕ → Run ℕ
input_of k none = stop overrun
input_of k (some pid) = elim (get_fd (k.processes pid) 0) [
  | none ↦ stop null_access
  | some fh ↦ done (k.handles fh).p
]

unfoldable pub kernel_main : Loaded → (ℕ → ℕ) → Multiboot → Run Booted
kernel_main l links m = do
  let segments = setup_segmentation l.gdt l.gdt_at l.tss_at l.stack_at
  let (interrupts, s) =
      setup_interrupts l.handlers l.idt_at (record l.video { xpos = 0; ypos = 0; ports = [] })
  let s = clear_screen s
  let s = move_cursor s.xpos s.ypos s
  s ← kprintf false l.stack (words_of []) (codes "Welcome to AdelaideOS\n") s
  assert (m.mods_count == 1)
  assert (ltb m.mod_end (2 * mb))
  let k = record (initial_kernel l s links) { filesystem = λ a. l.bytes (m.mod_start + a) }
  (pid, k) ← start_process k l.code l.launch_shell_at
  input ← input_of k pid
  done (record {
    segments = segments;
    interrupts = interrupts;
    machine = record {
      kernel = k;
      keyboard = record {
        shift_pressed = false;
        input_pipe = some input;
        kbdmap = l.kbdmap;
        kbdmap_shift = l.kbdmap_shift;
      };
      timer_ticks = 0;
      fpustate = replicate 27 0;
    };
  })
