-- ===== src/Tests/Processes.antt =====
-- Examples for the scheduler, the process lists and the pipes.
use adelaideos.Common.{◌≡◌, none, some, [], ◌∷◌, ◌==◌, if◌then◌else◌, refl, arith, Run, done}
use adelaideos.Kernel.{Kernel, Regs, zero_regs}
use adelaideos.ProcessList.{list_add, list_remove}
use adelaideos.ProcessList.Linked.{IsList, IsUnlinked, list_add-IsList}
use adelaideos.ProcessList.Removal.{list_remove-IsList}
use adelaideos.Process.{suspend_process, resume_process, get_free_pid}
use adelaideos.Process.Lists.{IsScheduled, suspend_process-IsScheduled, resume_process-IsScheduled}
use adelaideos.Process.FreePid.{IsLeastFree, get_free_pid-IsLeastFree}
use adelaideos.Process.Switch.{next_process, context_switch}
use adelaideos.Process.RoundRobin.{next_process-turn, context_switch-saves}
use adelaideos.Pipe.{value, suspended, write_to_pipe, pipe_reader_read}
use adelaideos.Pipe.Queue.{
  queue, write_to_pipe-queue, write_to_pipe-wakes, pipe_reader_read-queue, pipe_reader_read-waits,
}
use adelaideos.UserMemory.{copy_out, store_bytes, store_byte, translate}
use adelaideos.Tests.States.{
  memory, table, ready_two, pipe_with, kernel_with, kernel_with-IsScheduled,
}

abbrev quiet : Kernel
quiet = kernel_with (pipe_with (65 ∷ []) 1 none)

abbrev awaited : Kernel
awaited = kernel_with (pipe_with [] 0 (some 3))

abbrev drained : Kernel
drained = kernel_with (pipe_with [] 0 none)

suspend_process-IsScheduled_example :
    (k' : Kernel) × (suspend_process quiet 2 ≡ done k') × IsScheduled k' (1 ∷ []) (2 ∷ 3 ∷ [])
suspend_process-IsScheduled_example =
    suspend_process-IsScheduled quiet (1 ∷ []) [] (3 ∷ []) 2
      (kernel_with-IsScheduled (pipe_with (65 ∷ []) 1 none))

resume_process-IsScheduled_example :
    (k' : Kernel) × (resume_process quiet 3 ≡ done k') × IsScheduled k' (3 ∷ 1 ∷ 2 ∷ []) []
resume_process-IsScheduled_example =
    resume_process-IsScheduled quiet (1 ∷ 2 ∷ []) [] [] 3
      (kernel_with-IsScheduled (pipe_with (65 ∷ []) 1 none))

write_to_pipe-queue_example :
    (k' : Kernel) × (write_to_pipe quiet 8 (66 ∷ 67 ∷ []) ≡ done k')
    × (queue k' 8 ≡ 65 ∷ 66 ∷ 67 ∷ [])
write_to_pipe-queue_example =
    write_to_pipe-queue quiet 8 (66 ∷ 67 ∷ [])
      (record { holds = omega arith; fits = omega arith; small = omega arith }) (omega arith) refl

write_to_pipe-wakes_example :
    (k' : Kernel) × (write_to_pipe awaited 8 (66 ∷ []) ≡ done k')
    × (queue k' 8 ≡ 66 ∷ [])
    × ((k'.pipes 8).readpid ≡ none)
    × IsScheduled k' (3 ∷ 1 ∷ 2 ∷ []) []
write_to_pipe-wakes_example =
    write_to_pipe-wakes awaited 8 3 (66 ∷ []) (1 ∷ 2 ∷ []) [] []
      (record { holds = omega arith; fits = omega arith; small = omega arith }) (omega arith) refl
      (kernel_with-IsScheduled (pipe_with [] 0 (some 3)))

-- The process 1 has a page at 0x3000.
abbrev mapped : Kernel
mapped = record quiet {
  processes = λ i. record (table i) { pdir = 0x601000 };
  pages = record memory {
    words = λ a. if a == 0x601000 then 0x602007 else if a == 0x60200c then 0x604007 else 0;
  };
}

abbrev filled : Kernel
filled = record mapped { pages = store_byte mapped.pages 0x604001 65 }

copied : copy_out mapped 0x3001 (65 ∷ []) ≡ done filled
unfolding copy_out store_bytes translate
copied = refl

pipe_reader_read-queue_example :
    (k' : Kernel) × (pipe_reader_read mapped 4 0x3001 5 ≡ done (value 1, k'))
    × (k'.pages ≡ filled.pages)
    × (queue k' 8 ≡ [])
pipe_reader_read-queue_example =
    pipe_reader_read-queue mapped filled 4 0x3001 5
      (record { holds = omega arith; fits = omega arith; small = omega arith }) refl (omega arith) 1
      refl copied

pipe_reader_read-waits_example :
    (k' : Kernel) × (pipe_reader_read drained 4 0 1 ≡ done (suspended, k'))
    × ((k'.pipes 8).readpid ≡ some 1)
    × IsScheduled k' (2 ∷ []) (1 ∷ 3 ∷ [])
pipe_reader_read-waits_example =
    pipe_reader_read-waits drained 4 0 1 1 [] (2 ∷ []) (3 ∷ []) refl refl refl refl
      (kernel_with-IsScheduled (pipe_with [] 0 none))

next_process-turn_example : next_process quiet ≡ some 2
next_process-turn_example =
    next_process-turn quiet [] (2 ∷ []) (3 ∷ []) 1
      (kernel_with-IsScheduled (pipe_with (65 ∷ []) 1 none)) refl

abbrev frame : Regs
frame = record zero_regs { eax = 7 }

abbrev never : Regs → Kernel → Run (Regs × Kernel)
never r k = done (r, k)

context_switch-saves_example :
    (k' : Kernel) × (context_switch never (record { stack_end = 0; start = 0 }) frame quiet
      ≡ done (zero_regs, k'))
    × ((k'.processes 1).saved_regs ≡ frame)
    × (k'.current ≡ some 2)
    × (k'.paging ≡ some 0)
    × (k'.ready ≡ quiet.ready)
    × (k'.suspended ≡ quiet.suspended)
context_switch-saves_example =
    context_switch-saves never (record { stack_end = 0; start = 0 }) frame quiet [] [] (3 ∷ []) 1 2
      (kernel_with-IsScheduled (pipe_with (65 ∷ []) 1 none)) refl refl

get_free_pid-IsLeastFree_example : IsLeastFree table 1 32 (get_free_pid table)
get_free_pid-IsLeastFree_example = get_free_pid-IsLeastFree table

list_add-IsList_example :
    IsList (list_add table ready_two 4).table (list_add table ready_two 4).head (4 ∷ 1 ∷ 2 ∷ [])
list_add-IsList_example =
    list_add-IsList table ready_two (1 ∷ 2 ∷ []) 4
      (refl, refl, (omega arith, tt), (refl, refl, tt, (refl, refl))) (refl, refl)
      (omega arith, (omega arith, tt))

list_remove-IsList_example :
    IsList (list_remove table ready_two 1).table (list_remove table ready_two 1).head (2 ∷ [])
    × IsUnlinked (list_remove table ready_two 1).table 1
list_remove-IsList_example =
    list_remove-IsList table ready_two [] (2 ∷ []) 1
      (refl, refl, (omega arith, tt), (refl, refl, tt, (refl, refl)))
