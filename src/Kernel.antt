-- ===== src/Kernel.antt =====
-- The data of source/kernel.h and source/user.h, and the state that the files of the kernel share.
-- A `process *` is an index into `processes`; an object of the kernel's heap is found by its address.
-- -1 as a pid, and NULL as a pointer, are `none`.
use adelaideos.Common.{ℕ, Bool, false, List, [], Option, none, some, replicate, update}
use adelaideos.Buddy.{MemArea}
use adelaideos.Page.{Pages}
use adelaideos.Screen.{Screen}

pub record Regs : Type 0 where
  pub fstate : List ℕ
  pub gs : ℕ
  pub fs : ℕ
  pub es : ℕ
  pub ds : ℕ
  pub edi : ℕ
  pub esi : ℕ
  pub ebp : ℕ
  pub esp : ℕ
  pub ebx : ℕ
  pub edx : ℕ
  pub ecx : ℕ
  pub eax : ℕ
  pub int_no : ℕ
  pub err_code : ℕ
  pub eip : ℕ
  pub cs : ℕ
  pub eflags : ℕ
  pub useresp : ℕ
  pub ss : ℕ

abbrev pub zero_regs : Regs
zero_regs = record {
  fstate = replicate 27 0;
  gs = 0;
  fs = 0;
  es = 0;
  ds = 0;
  edi = 0;
  esi = 0;
  ebp = 0;
  esp = 0;
  ebx = 0;
  edx = 0;
  ecx = 0;
  eax = 0;
  int_no = 0;
  err_code = 0;
  eip = 0;
  cs = 0;
  eflags = 0;
  useresp = 0;
  ss = 0;
}

-- `address` is the array `data`, and `contents` are its bytes, of which the first `len` count.
pub record PipeBuffer : Type 0 where
  pub reading : Bool
  pub writing : Bool
  pub alloc : ℕ
  pub len : ℕ
  pub readpid : Option ℕ
  pub address : ℕ
  pub contents : List ℕ

-- The type of a handle decides its three functions `write`, `read` and `destroy`.
pub data HandleType : Type 0 where
  screen pipe_writer pipe_reader file dir : HandleType

-- `p` is the address of a pipe buffer, `entry` the offset of a directory entry in the file system.
pub record FileHandle : Type 0 where
  pub type : HandleType
  pub refcount : ℕ
  pub p : ℕ
  pub entry : ℕ
  pub pos : ℕ
  pub entryno : ℕ

abbrev pub zero_pipe : PipeBuffer
zero_pipe = record {
  reading = false;
  writing = false;
  alloc = 0;
  len = 0;
  readpid = some 0;
  address = 0;
  contents = [];
}

abbrev pub zero_handle : FileHandle
zero_handle = record { type = screen; refcount = 0; p = 0; entry = 0; pos = 0; entryno = 0 }

pub record Message : Type 0 where
  pub from : ℕ
  pub tag : ℕ
  pub size : ℕ
  pub bytes : List ℕ

abbrev pub max_processes : ℕ
max_processes = 32

abbrev pub max_fds : ℕ
max_fds = 16

-- `messages` are the first `mailbox_size` elements of the array at `mailbox`.
-- `slots i` is what the array `data` of 1024 bytes holds in the slot `i` of the mailbox, or will hold
-- when the mailbox is allocated.
pub record Process : Type 0 where
  pub pid : ℕ
  pub exists : Bool
  pub saved_regs : Regs
  pub ready : Bool
  pub prev : Option ℕ
  pub next : Option ℕ
  pub pdir : ℕ
  pub in_syscall : ℕ
  pub last_errno : ℕ
  pub filedesc : List (Option ℕ)
  pub cwd : List ℕ
  pub stack_start : ℕ
  pub stack_end : ℕ
  pub data_start : ℕ
  pub data_end : ℕ
  pub text_start : ℕ
  pub text_end : ℕ
  pub parent_pid : Option ℕ
  pub exit_status : ℕ
  pub exited : Bool
  pub waiting_on : Option ℕ
  pub mailbox : Option ℕ
  pub messages : List Message
  pub mailbox_size : ℕ
  pub mailbox_alloc : ℕ
  pub slots : ℕ → List ℕ
  pub receive_blocked : Bool

-- memset(proc,0,sizeof(process)): the pids in it are 0, not -1.
abbrev pub zero_process : Process
zero_process = record {
  pid = 0;
  exists = false;
  saved_regs = zero_regs;
  ready = false;
  prev = none;
  next = none;
  pdir = 0;
  in_syscall = 0;
  last_errno = 0;
  filedesc = replicate max_fds none;
  cwd = [];
  stack_start = 0;
  stack_end = 0;
  data_start = 0;
  data_end = 0;
  text_start = 0;
  text_end = 0;
  parent_pid = some 0;
  exit_status = 0;
  exited = false;
  waiting_on = some 0;
  mailbox = none;
  messages = [];
  mailbox_size = 0;
  mailbox_alloc = 0;
  slots = λ _. replicate 1024 0;
  receive_blocked = false;
}

pub record ProcessList : Type 0 where
  pub first : Option ℕ
  pub last : Option ℕ

-- The global variables: `processes`, `current_process`, the two lists of source/process.c, the
-- objects of the kernel's heap by their addresses with the heap itself (`kernel_memarea`), the pages,
-- the page directory in force (`none` while paging is disabled), the screen, and the bytes of the
-- file system image.
pub record Kernel : Type 0 where
  pub processes : ℕ → Process
  pub current : Option ℕ
  pub ready : ProcessList
  pub suspended : ProcessList
  pub pipes : ℕ → PipeBuffer
  pub handles : ℕ → FileHandle
  pub heap : MemArea
  pub pages : Pages
  pub paging : Option ℕ
  pub display : Screen
  pub filesystem : ℕ → ℕ

abbrev pub set_process : Kernel → ℕ → Process → Kernel
set_process k i p = record k { processes = update k.processes i p }

abbrev pub set_handle : Kernel → ℕ → FileHandle → Kernel
set_handle k a fh = record k { handles = update k.handles a fh }

abbrev pub set_pipe : Kernel → ℕ → PipeBuffer → Kernel
set_pipe k a b = record k { pipes = update k.pipes a b }
