-- ===== src/Pipe.antt =====
-- source/pipe.c, with kmalloc and kfree of source/buddy.c. A count of bytes is the length of a list.
pub mod Queue
use adelaideos.Common.{
  ℕ, zero, suc, ◌+◌, ◌-◌, ◌*◌, ◌%◌, true, false, not, ◌&&◌, none, some, List, [], ◌++◌, length,
  take, drop, ltb, is_some, if◌then◌else◌, u32_mod, Run, done, stop, no_fuel, ◌>>=◌, ◌>>◌, assert,
}
use adelaideos.Buddy.{buddy_alloc, buddy_free}
use adelaideos.Kernel.{
  HandleType, pipe_writer, pipe_reader, FileHandle, Kernel, set_pipe, set_handle,
}
use adelaideos.Process.{current_pid, suspend_process, resume_process}
use adelaideos.UserMemory.{copy_out}

abbrev pub bufsize : ℕ
bufsize = 1024

-- The kernel's build of `buddy_alloc` does not return NULL.
unfoldable pub kmalloc : Kernel → ℕ → Run (ℕ × Kernel)
kmalloc k nbytes = do (a, h) ← buddy_alloc k.heap nbytes; done (a, record k { heap = h })

unfoldable pub kfree : Kernel → ℕ → Run Kernel
kfree k a = do h ← buddy_free k.heap (some a); done (record k { heap = h })

-- What a system call or a handler returns: a number, an error code (a negative number), or -ESUSPEND.
pub data Errno : Type 0 where
  ebadf einval esrch eperm enoent emfile eisdir enotdir enosys enomem efault eagain echild : Errno

pub data Ret : Type 0 where
  value : ℕ → Ret
  error : Errno → Ret
  suspended : Ret

-- sizeof(pipe_buffer) and sizeof(filehandle)
abbrev sizeof_pipe : ℕ
sizeof_pipe = 24

abbrev sizeof_handle : ℕ
sizeof_handle = 36

unfoldable pub new_pipe : Kernel → Run (ℕ × Kernel)
new_pipe k = do
  (b, k) ← kmalloc k sizeof_pipe
  (a, k) ← kmalloc k bufsize
  done (
    b,
    set_pipe k b (record {
      reading = true;
      writing = true;
      alloc = bufsize;
      len = 0;
      readpid = none;
      address = a;
      contents = [];
    }),
  )

unfoldable pub wake_up_reader : Kernel → ℕ → Run Kernel
wake_up_reader k b = elim (k.pipes b).readpid [
  | none ↦ done k
  | some pid ↦ (do
    k ← resume_process k pid
    done (set_pipe k b (record (k.pipes b) { readpid = none })))
]

-- while (b->len+count > b->alloc) b->alloc *= 2;
unfoldable pub grow : ℕ → ℕ → ℕ → Run ℕ
grow zero need alloc = stop no_fuel
grow (suc fuel) need alloc = elim (ltb alloc need) [
  | true ↦ grow fuel need (alloc * 2 % u32_mod)
  | false ↦ done alloc
]

-- The array of the buffer is exchanged for a larger one, if it is too small. The fuel: doubling
-- reaches any need up to 2 ^ 31 in 32 rounds.
unfoldable pub make_room : Kernel → ℕ → ℕ → Run Kernel
make_room k b need =
    if ltb (k.pipes b).alloc need
    then (do
      alloc ← grow 33 need (k.pipes b).alloc
      (a, k) ← kmalloc (set_pipe k b (record (k.pipes b) { alloc = alloc })) alloc
      k ← kfree k (k.pipes b).address
      done (set_pipe k b (record (k.pipes b) { address = a })))
    else done k

unfoldable pub write_to_pipe : Kernel → ℕ → List ℕ → Run Kernel
write_to_pipe k b buf = do
  let need = ((k.pipes b).len + length buf) % u32_mod
  k ← make_room k b need
  let p = k.pipes b
  wake_up_reader
      (set_pipe k b (record p {
        len = (p.len + length buf) % u32_mod;
        contents = take p.len p.contents ++ buf;
      }))
      b

unfoldable pub check_buffer_free : Kernel → ℕ → Run Kernel
check_buffer_free k b =
    if not (k.pipes b).reading && not (k.pipes b).writing
    then (do assert (not (is_some (k.pipes b).readpid)); k ← kfree k (k.pipes b).address; kfree k b)
    else done k

unfoldable pub pipe_writer_write : Kernel → ℕ → List ℕ → Run (Ret × Kernel)
pipe_writer_write k fh buf = do
  k ← write_to_pipe k (k.handles fh).p buf
  done (value (length buf), k)

unfoldable pub pipe_writer_read : Kernel → ℕ → ℕ → ℕ → Run (Ret × Kernel)
pipe_writer_read k fh buf count = done (error einval, k)

unfoldable pub pipe_writer_destroy : Kernel → ℕ → Run Kernel
pipe_writer_destroy k fh = do
  let b = (k.handles fh).p
  assert (k.pipes b).writing
  k ← wake_up_reader (set_pipe k b (record (k.pipes b) { writing = false })) b
  k ← check_buffer_free k b
  kfree k fh

abbrev pub new_handle : HandleType → ℕ → FileHandle
new_handle type p = record { type = type; refcount = 1; p = p; entry = 0; pos = 0; entryno = 0 }

-- kmalloc of a handle, and its fields
abbrev pub make_handle : Kernel → HandleType → ℕ → Run (ℕ × Kernel)
make_handle k type p = do
  (fh, k) ← kmalloc k sizeof_handle
  done (fh, set_handle k fh (new_handle type p))

unfoldable pub new_pipe_writer : Kernel → ℕ → Run (ℕ × Kernel)
new_pipe_writer k b = make_handle k pipe_writer b

unfoldable pub pipe_reader_write : Kernel → ℕ → List ℕ → Run (Ret × Kernel)
pipe_reader_write k fh buf = done (error einval, k)

-- The three cases of a read that is not refused: data, end of file, or wait.
unfoldable pub read_data : Kernel → ℕ → ℕ → ℕ → Run (Ret × Kernel)
read_data k b buf count = do
  let p = k.pipes b
  let copy = if ltb count p.len then count else p.len
  k ← copy_out k buf (take copy p.contents)
  done (
    value copy,
    set_pipe k b (record p { len = p.len - copy; contents = drop copy (take p.len p.contents) }),
  )

unfoldable pub read_wait : Kernel → ℕ → Run (Ret × Kernel)
read_wait k b = do
  i ← current_pid k
  let pid = (k.processes i).pid
  k ← suspend_process (set_pipe k b (record (k.pipes b) { readpid = some pid })) i
  done (suspended, k)

unfoldable pub pipe_reader_read : Kernel → ℕ → ℕ → ℕ → Run (Ret × Kernel)
pipe_reader_read k fh buf count =
    let b = (k.handles fh).p in
    if is_some (k.pipes b).readpid
    then done (error ebadf, k)
    else if ltb 0 (k.pipes b).len
    then read_data k b buf count
    else if not (k.pipes b).writing
    then done (value 0, k)
    else read_wait k b

unfoldable pub pipe_reader_destroy : Kernel → ℕ → Run Kernel
pipe_reader_destroy k fh = do
  let b = (k.handles fh).p
  assert (k.pipes b).reading
  k ← check_buffer_free (set_pipe k b (record (k.pipes b) { reading = false })) b
  kfree k fh

unfoldable pub new_pipe_reader : Kernel → ℕ → Run (ℕ × Kernel)
new_pipe_reader k b = make_handle k pipe_reader b
