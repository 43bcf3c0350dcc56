-- ===== src/Interrupts.antt =====
-- source/interrupts.c: the interrupt descriptor table and interrupt_handler, with timer_handler and
-- keyboard_handler of source/main.c up to their end.
pub mod Tick
pub mod Fairness
use adelaideos.Common.{
  ℕ, zero, suc, ◌+◌, ◌-◌, ◌*◌, ◌/◌, ◌%◌, ◌^◌, Bool, true, false, not, ◌&&◌, Option, none, some,
  List, [], ◌∷◌, get_or, take, ltb, leb, ◌==◌, if◌then◌else◌, update, u32_mod, for_below, codes,
  Run, done, ◌>>=◌,
}
use adelaideos.Screen.{Screen, outb, addstr}
use adelaideos.Kernel.{Regs, Kernel}
use adelaideos.Process.Kill.{kill_process}
use adelaideos.Process.Switch.{Idle, context_switch}
use adelaideos.Keyboard
use adelaideos.Keyboard.{Keyboard}
use adelaideos.Console.{kprintf, words_of, print_regs}
use adelaideos.Syscall.Dispatch.{syscall}

pub record IdtEntry : Type 0 where
  pub base_lo : ℕ
  pub sel : ℕ
  pub always0 : ℕ
  pub flags : ℕ
  pub base_hi : ℕ

abbrev pub Idt : Type 0
Idt = ℕ → IdtEntry

-- `sel` has 16 bits, `flags` 8.
unfoldable pub idt_set_gate : Idt → ℕ → ℕ → ℕ → ℕ → Idt
idt_set_gate idt num base sel flags = update idt num (record {
  base_lo = base % 2 ^ 16;
  sel = sel % 2 ^ 16;
  always0 = 0;
  flags = flags % 2 ^ 8;
  base_hi = base / 2 ^ 16 % 2 ^ 16;
})

-- The table, and the register that `idt_load` loads.
pub record Interrupts : Type 0 where
  pub idt : Idt
  pub limit : ℕ
  pub base : ℕ

abbrev zero_gate : IdtEntry
zero_gate = record { base_lo = 0; sel = 0; always0 = 0; flags = 0; base_hi = 0 }

-- The writes that set up the two interrupt controllers, and the clock at 50 interrupts a second.
abbrev setup_ports : Screen → Screen
setup_ports s =
    let div : ℕ = 1193180 / 50 in
    let s = outb 0xA0 0x11 (outb 0x20 0x11 s) in
    let s = outb 0xA1 0x28 (outb 0x21 0x20 s) in
    let s = outb 0xA1 0x02 (outb 0x21 0x04 s) in
    let s = outb 0xA1 0x01 (outb 0x21 0x01 s) in
    let s = outb 0xA1 0x0 (outb 0x21 0x0 s) in
    outb 0x40 (div / 2 ^ 8) (outb 0x40 (div % 2 ^ 8) (outb 0x43 0x36 s))

-- `handlers` are the addresses in `interrupt_handlers` of source/start.s, `idt_at` is that of `idt`.
unfoldable pub setup_interrupts : (ℕ → ℕ) → ℕ → Screen → Interrupts × Screen
setup_interrupts handlers idt_at s =
    let cleared : Idt = λ _. zero_gate in
    let gates = for_below 48 (λ i t. idt_set_gate t i (handlers i) 0x08 0x8E) cleared in
    (
      record {
        idt = idt_set_gate gates 48 (handlers 48) 0x08 0xEE;
        limit = 8 * 256 - 1;
        base = idt_at;
      },
      setup_ports s,
    )

-- What the handlers of interrupts share beside the kernel: `shift_pressed` and `input_pipe`,
-- `timer_ticks`, and the buffer of the floating point unit.
pub record Machine : Type 0 where
  pub kernel : Kernel
  pub keyboard : Keyboard
  pub timer_ticks : ℕ
  pub fpustate : List ℕ

-- What the handler of an interrupt gets from outside: the idle routine, the key code, the address of
-- the last page fault, and the first contents of the buffer of kprintf.
pub record Hardware : Type 0 where
  pub idle : Idle
  pub scancode : ℕ
  pub cr2 : ℕ
  pub stack : List ℕ

-- The frame and the state with which the processor goes on; or it halts.
pub data Outcome : Type 0 where
  go_on : Regs → Machine → Outcome
  halted : Machine → Outcome

abbrev with_kernel : Machine → Run (Regs × Kernel) → Run Outcome
with_kernel m run = do (r, k) ← run; done (go_on r (record m { kernel = k }))

-- A call that is resumed: `fuel` bounds how many calls are made one after the other.
abbrev pub switch : ℕ → Idle → Regs → Kernel → Run (Regs × Kernel)
switch fuel idle r k = context_switch (syscall fuel idle) idle r k

unfoldable pub timer_handler : ℕ → Idle → Regs → Machine → Run Outcome
timer_handler fuel idle r m =
    let m = record m { timer_ticks = (m.timer_ticks + 1) % u32_mod } in
    with_kernel m (switch fuel idle r m.kernel)

unfoldable pub keyboard_interrupt : ℕ → Idle → ℕ → Regs → Machine → Run Outcome
keyboard_interrupt fuel idle scancode r m = do
  (kb, k) ← Keyboard.keyboard_handler m.keyboard m.kernel scancode
  with_kernel (record m { keyboard = kb }) (switch fuel idle r k)

abbrev exception_messages : List (List ℕ)
exception_messages =
    codes "Division By Zero"
    ∷ codes "Debug"
    ∷ codes "Non Maskable Interrupt"
    ∷ codes "Breakpoint"
    ∷ codes "Into Detected Overflow"
    ∷ codes "Out of Bounds"
    ∷ codes "Invalid Opcode"
    ∷ codes "No Coprocessor"
    ∷ codes "Double Fault"
    ∷ codes "Coprocessor Segment Overrun"
    ∷ codes "Bad TSS"
    ∷ codes "Segment Not Present"
    ∷ codes "Stack Fault"
    ∷ codes "General Protection Fault"
    ∷ codes "Page Fault"
    ∷ codes "Unknown Interrupt"
    ∷ codes "Coprocessor Fault"
    ∷ codes "Alignment Check"
    ∷ codes "Machine Check"
    ∷ []

-- The messages from 19 on are all the same.
unfoldable pub exception_message : ℕ → List ℕ
exception_message n = get_or exception_messages n (codes "Reserved")

abbrev set_display : Machine → Screen → Machine
set_display m s = record m { kernel = record m.kernel { display = s } }

-- A page fault of a process: it is killed.
unfoldable pub kill_faulting : ℕ → Hardware → Regs → Machine → ℕ → Run Outcome
kill_faulting fuel hw r m i = do
  let k = m.kernel
  s ←
      kprintf false hw.stack (words_of ((k.processes i).pid ∷ hw.cr2 ∷ []))
        (codes "Process %d: page fault exception at address %p\n") k.display
  k ← kill_process (record k { display = s }) i
  with_kernel m (switch fuel hw.idle r k)

unfoldable pub exception : Hardware → Regs → Machine → Run Outcome
exception hw r m = do
  s ← print_regs hw.stack r hw.cr2 m.kernel.display
  let (x, s) = addstr 0 (exception_message r.int_no) s
  let (x, s) = addstr x (codes " exception. System halted!") s
  done (halted (set_display m s))

-- The process that a page fault is to be blamed on.
unfoldable pub faulting : Regs → Kernel → Option ℕ
faulting r k = elim k.current [
  | none ↦ none
  | some i ↦ if (14 == r.int_no) && ((k.processes i).in_syscall == 0) then some i else none
]

unfoldable pub other_interrupt : ℕ → Hardware → Regs → Machine → Run Outcome
other_interrupt fuel hw r m = elim (faulting r m.kernel) [
  | some i ↦ kill_faulting fuel hw r m i
  | none ↦ if leb r.int_no 31 then exception hw r m else done (go_on r m)
]

-- switch (int_no)
unfoldable pub dispatch : ℕ → Hardware → Regs → Machine → Run Outcome
dispatch fuel hw r m =
    if r.int_no == 32
    then timer_handler fuel hw.idle r m
    else if r.int_no == 33
    then keyboard_interrupt fuel hw.idle hw.scancode r m
    else if r.int_no == 48
    then with_kernel m (syscall fuel hw.idle r m.kernel)
    else other_interrupt fuel hw r m

-- What the interrupt controllers are told.
unfoldable pub acknowledge : ℕ → Screen → Screen
acknowledge int_no s =
    if leb 32 int_no && ltb int_no 48
    then outb 0x20 0x20 (if leb 40 int_no then outb 0xA0 0x20 s else s)
    else s

-- The end of interrupt_handler.
abbrev leave_interrupt : ℕ → Outcome → Outcome
leave_interrupt int_no (go_on r m) =
    let m = set_display m (acknowledge int_no m.kernel.display) in
    go_on r (record m { fpustate = take 27 r.fstate })
leave_interrupt int_no (halted m) = halted m

unfoldable pub interrupt_handler : ℕ → Hardware → Regs → Machine → Run Outcome
interrupt_handler fuel hw r m = do
  out ← dispatch fuel hw (record r { fstate = take 27 m.fpustate }) m
  done (leave_interrupt r.int_no out)
