-- ===== src/Pipe/Queue.antt =====
-- A pipe is a queue of bytes, and a reader that waits on it is woken by a write.
use adelaideos.Common.{
  ℕ, ◌+◌, ◌-◌, ◌%◌, ◌≤◌, ◌<◌, ◌≡◌, refl, ap, ◌∙◌, List, ◌∷◌, ◌++◌, true, none, some, length, take,
  drop, length-append, length-drop, take-all, take-take, length-take, ltb, le→ltb, lt→ltb,
  if◌then◌else◌, Bool-cases, inl, inr, update_self, u32_mod, done, stop, null_access, >>=-done,
  ◌>>=◌, arith,
}
use adelaideos.Kernel.{PipeBuffer, Kernel, set_pipe}
use adelaideos.Process.{current_pid, suspend_process, resume_process}
use adelaideos.Process.Lists.{IsScheduled, suspend_process-IsScheduled, resume_process-IsScheduled}
use adelaideos.UserMemory.{copy_out}
use adelaideos.Pipe.{
  value, suspended, make_room, wake_up_reader, write_to_pipe, read_data, read_wait,
  pipe_reader_read,
}

-- The bytes that were written and not read yet, the oldest first.
abbrev pub queue : Kernel → ℕ → List ℕ
queue k b = take (k.pipes b).len (k.pipes b).contents

-- The buffer holds what it says, within its array.
pub record IsBuffer (p : PipeBuffer) : Type 0 where
  pub holds : p.len ≤ length p.contents
  pub fits : p.len ≤ p.alloc
  pub small : p.alloc < u32_mod

IsScheduled-pipe :
    (k : Kernel) (b : ℕ) (p : PipeBuffer) (rs ss : List ℕ)
    → IsScheduled k rs ss
    → IsScheduled (set_pipe k b p) rs ss
IsScheduled-pipe k b p rs ss h = record {
  ready_list = h.ready_list;
  suspended_list = h.suspended_list;
  apart = h.apart;
  runnable = h.runnable;
  waiting = h.waiting;
}

resume_process-pipes : (k k' : Kernel) (i : ℕ) → resume_process k i ≡ done k' → k'.pipes ≡ k.pipes
unfolding resume_process
resume_process-pipes k k' i e = elim (Bool-cases (k.processes i).exists) [
  | inl x ↦ elim (Bool-cases (k.processes i).ready) [
    | inl y ↦ absurd (cc (rw (x, y) at e))
    | inr y ↦ cc (rw (x, y) at e)
  ]
  | inr x ↦ absurd (cc (rw x at e))
]

suspend_process-pipes : (k k' : Kernel) (i : ℕ) → suspend_process k i ≡ done k' → k'.pipes ≡ k.pipes
unfolding suspend_process
suspend_process-pipes k k' i e = elim (Bool-cases (k.processes i).exists) [
  | inl x ↦ elim (Bool-cases (k.processes i).ready) [
    | inl y ↦ cc (rw (x, y) at e)
    | inr y ↦ absurd (cc (rw (x, y) at e))
  ]
  | inr x ↦ absurd (cc (rw x at e))
]

-- What a write leaves in the buffer before a reader is woken.
abbrev written : Kernel → ℕ → List ℕ → PipeBuffer
written k b buf =
    let p = k.pipes b in
    record p { len = (p.len + length buf) % u32_mod; contents = take p.len p.contents ++ buf }

written_lem :
    (k : Kernel) (b : ℕ) (buf : List ℕ)
    → IsBuffer (k.pipes b)
    → (k.pipes b).len + length buf ≤ (k.pipes b).alloc
    → take (written k b buf).len (written k b buf).contents ≡ queue k b ++ buf
written_lem k b buf h room =
    let p = k.pipes b in
    take-all ((p.len + length buf) % u32_mod) (take p.len p.contents ++ buf) (
      omega (
        arith,
        length-append (take p.len p.contents) buf,
        length-take p.len p.contents h.holds,
        h.small,
      ))

-- A write that fits into the buffer needs no other buffer.
write_to_pipe-fits :
    (k : Kernel) (b : ℕ) (buf : List ℕ)
    → IsBuffer (k.pipes b)
    → (k.pipes b).len + length buf ≤ (k.pipes b).alloc
    → write_to_pipe k b buf ≡ wake_up_reader (set_pipe k b (written k b buf)) b
unfolding write_to_pipe make_room
write_to_pipe-fits k b buf h room =
    rw
      (le→ltb (k.pipes b).alloc (((k.pipes b).len + length buf) % u32_mod) (omega (arith, h.small)))
      refl

wake_up_reader-none :
    (k : Kernel) (b : ℕ) → (k.pipes b).readpid ≡ none → wake_up_reader k b ≡ done k
unfolding wake_up_reader
wake_up_reader-none k b e = rw (wake_up_reader, e) refl

wake_up_reader-some :
    (k k' : Kernel) (b i : ℕ)
    → (k.pipes b).readpid ≡ some i
    → resume_process k i ≡ done k'
    → wake_up_reader k b ≡ done (set_pipe k' b (record (k'.pipes b) { readpid = none }))
unfolding wake_up_reader
wake_up_reader-some k k' b i e r = rw (wake_up_reader, e, r) refl

-- With nobody waiting, a write that fits into the buffer succeeds and puts its bytes behind those
-- that are there.
pub write_to_pipe-queue :
    (k : Kernel) (b : ℕ) (buf : List ℕ)
    → IsBuffer (k.pipes b)
    → (k.pipes b).len + length buf ≤ (k.pipes b).alloc
    → (k.pipes b).readpid ≡ none
    → (k' : Kernel) × (write_to_pipe k b buf ≡ done k') × (queue k' b ≡ queue k b ++ buf)
write_to_pipe-queue k b buf h room nobody =
    let k' = set_pipe k b (written k b buf) in
    let here : k'.pipes b ≡ written k b buf = update_self k.pipes b (written k b buf) in
    (
      k',
      write_to_pipe-fits k b buf h room
          ∙ wake_up_reader-none k' b (ap PipeBuffer.readpid here ∙ nobody),
      ap (λ p. take (PipeBuffer.len p) (PipeBuffer.contents p)) here ∙ written_lem k b buf h room,
    )

-- If a suspended process waits for the pipe and the lists are well formed, a write that fits into
-- the buffer succeeds and puts its bytes behind those that are there; the process moves to the head
-- of the ready list, and no process waits for the pipe any more.
pub write_to_pipe-wakes :
    (k : Kernel) (b i : ℕ) (buf rs xs ys : List ℕ)
    → IsBuffer (k.pipes b)
    → (k.pipes b).len + length buf ≤ (k.pipes b).alloc
    → (k.pipes b).readpid ≡ some i
    → IsScheduled k rs (xs ++ i ∷ ys)
    → (k' : Kernel) × (write_to_pipe k b buf ≡ done k')
      × (queue k' b ≡ queue k b ++ buf)
      × ((k'.pipes b).readpid ≡ none)
      × IsScheduled k' (i ∷ rs) (xs ++ ys)
write_to_pipe-wakes k b i buf rs xs ys h room waits sched =
    let w = written k b buf in
    let k1 = set_pipe k b w in
    let here : k1.pipes b ≡ w = update_self k.pipes b w in
    let (k2, e, sched2) =
      resume_process-IsScheduled k1 rs xs ys i (IsScheduled-pipe k b w rs (xs ++ i ∷ ys) sched) in
    let same : k2.pipes b ≡ w = ap (λ t. t b) (resume_process-pipes k1 k2 i e) ∙ here in
    let p : PipeBuffer = record (k2.pipes b) { readpid = none } in
    let k3 = set_pipe k2 b p in
    let after : k3.pipes b ≡ p = update_self k2.pipes b p in
    (
      k3,
      write_to_pipe-fits k b buf h room
          ∙ wake_up_reader-some k1 k2 b i (ap PipeBuffer.readpid here ∙ waits) e,
      ap (λ p. take (PipeBuffer.len p) (PipeBuffer.contents p)) after
          ∙ ap (λ p. take (PipeBuffer.len p) (PipeBuffer.contents p)) same
          ∙ written_lem k b buf h room,
      ap PipeBuffer.readpid after,
      IsScheduled-pipe k2 b p (i ∷ rs) (xs ++ ys) sched2,
    )

drop-queue :
    (n l : ℕ) (xs : List ℕ)
    → n ≤ l
    → l ≤ length xs
    → take (l - n) (drop n (take l xs)) ≡ drop n (take l xs)
drop-queue n l xs le have =
    take-all (l - n) (drop n (take l xs))
      (omega (arith, length-drop n (take l xs), length-take l xs have))

-- A read of a pipe that holds data and that nobody waits for, by a process that may write to the
-- memory it names, succeeds: it gives the oldest bytes, as many as were asked for or as there are.
-- The memory is then as the processor leaves it that stores these bytes at the address of the call,
-- and exactly these bytes are taken out.
pub pipe_reader_read-queue :
    (k k1 : Kernel) (fh buf count : ℕ)
    → IsBuffer (k.pipes (k.handles fh).p)
    → (k.pipes (k.handles fh).p).readpid ≡ none
    → 0 < (k.pipes (k.handles fh).p).len
    → (n : ℕ)
    → n
      ≡ (if ltb count (k.pipes (k.handles fh).p).len then count else (k.pipes (k.handles fh).p).len)
    → copy_out k buf (take n (queue k (k.handles fh).p)) ≡ done k1
    → (k' : Kernel) × (pipe_reader_read k fh buf count ≡ done (value n, k'))
      × (k'.pages ≡ k1.pages)
      × (queue k' (k.handles fh).p ≡ drop n (queue k (k.handles fh).p))
unfolding pipe_reader_read read_data
pipe_reader_read-queue k k1 fh buf count h nobody some_data n en copied =
    let b = (k.handles fh).p in
    let p = k.pipes b in
    let p' : PipeBuffer = record p { len = p.len - n; contents = drop n (take p.len p.contents) } in
    let n_le : n ≤ p.len = ground arith in
    let copied' = rw (take-take n p.len p.contents n_le) at copied in
    let here : (set_pipe k1 b p').pipes b ≡ p' = update_self k1.pipes b p' in
    (
      set_pipe k1 b p',
      rw (nobody, lt→ltb 0 p.len some_data, ← en, copied') refl,
      refl,
      ap (λ p. take (PipeBuffer.len p) (PipeBuffer.contents p)) here
          ∙ drop-queue n p.len p.contents n_le h.holds,
    )

read_wait-suspends :
    (k k' : Kernel) (b i : ℕ)
    → k.current ≡ some i
    → suspend_process (set_pipe k b (record (k.pipes b) { readpid = some (k.processes i).pid })) i
      ≡ done k'
    → read_wait k b ≡ done (suspended, k')
unfolding read_wait
read_wait-suspends k k' b i now e =
    >>=-done (current_pid k)
      (λ i.
        suspend_process (set_pipe k b (record (k.pipes b) { readpid = some (k.processes i).pid })) i
        >>= λ k. done (suspended, k))
      i (ap (λ c. elim c [ none ↦ stop null_access | some i ↦ done i ]) now)
    ∙ >>=-done
        (suspend_process (set_pipe k b (record (k.pipes b) { readpid = some (k.processes i).pid }))
          i)
        (λ k. done (suspended, k)) k' e

pipe_reader_read-empty :
    (k : Kernel) (fh buf count : ℕ)
    → (k.pipes (k.handles fh).p).readpid ≡ none
    → (k.pipes (k.handles fh).p).len ≡ 0
    → (k.pipes (k.handles fh).p).writing ≡ true
    → pipe_reader_read k fh buf count ≡ read_wait k (k.handles fh).p
unfolding pipe_reader_read
pipe_reader_read-empty k fh buf count nobody empty writer =
    rw (nobody, le→ltb 0 (k.pipes (k.handles fh).p).len (omega arith), writer) refl

-- A read of an empty pipe that has a writer and that nobody waits for suspends the current process,
-- where it is runnable and the lists are well formed: it moves to the head of the suspended list,
-- and the pipe keeps its pid.
pub pipe_reader_read-waits :
    (k : Kernel) (fh buf count i : ℕ) (xs ys ss : List ℕ)
    → (k.pipes (k.handles fh).p).readpid ≡ none
    → (k.pipes (k.handles fh).p).len ≡ 0
    → (k.pipes (k.handles fh).p).writing ≡ true
    → k.current ≡ some i
    → IsScheduled k (xs ++ i ∷ ys) ss
    → (k' : Kernel) × (pipe_reader_read k fh buf count ≡ done (suspended, k'))
      × ((k'.pipes (k.handles fh).p).readpid ≡ some (k.processes i).pid)
      × IsScheduled k' (xs ++ ys) (i ∷ ss)
pipe_reader_read-waits k fh buf count i xs ys ss nobody none_there writer now sched =
    let b = (k.handles fh).p in
    let p : PipeBuffer = record (k.pipes b) { readpid = some (k.processes i).pid } in
    let k1 = set_pipe k b p in
    let (k2, e, sched2) =
      suspend_process-IsScheduled k1 xs ys ss i (IsScheduled-pipe k b p (xs ++ i ∷ ys) ss sched) in
    (
      k2,
      pipe_reader_read-empty k fh buf count nobody none_there writer
          ∙ read_wait-suspends k k2 b i now e,
      ap (λ t. PipeBuffer.readpid (t b)) (suspend_process-pipes k1 k2 i e)
          ∙ ap PipeBuffer.readpid (update_self k.pipes b p),
      sched2,
    )
