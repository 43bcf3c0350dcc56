-- ===== src/Tests/Timer.antt =====
-- An example for the interrupts of the timer: two processes are ready.
use adelaideos.Common.{refl, [], ◌∷◌, All, none, false}
use adelaideos.Interrupts.{Machine, Hardware}
use adelaideos.Interrupts.Tick.{IsRunning}
use adelaideos.Interrupts.Fairness.{GetsTurn, run_timer-GetsTurn}
use adelaideos.Tests.States.{pipe_with, kernel_with, kernel_with-IsScheduled}

abbrev hardware : Hardware
hardware = record { idle = record { stack_end = 0; start = 0 }; scancode = 0; cr2 = 0; stack = [] }

abbrev machine : Machine
machine = record {
  kernel = kernel_with (pipe_with [] 0 none);
  keyboard = record {
    shift_pressed = false;
    input_pipe = none;
    kbdmap = λ _. 0;
    kbdmap_shift = λ _. 0;
  };
  timer_ticks = 0;
  fpustate = [];
}

machine-IsRunning : IsRunning machine.kernel (1 ∷ 2 ∷ []) (3 ∷ []) 1
machine-IsRunning = record {
  scheduled = kernel_with-IsScheduled (pipe_with [] 0 none);
  running = refl;
  user_mode = (refl, (refl, tt));
}

run_timer-GetsTurn_example : All (GetsTurn 1 hardware machine 2) (1 ∷ 2 ∷ [])
run_timer-GetsTurn_example =
    run_timer-GetsTurn 1 hardware machine [] (2 ∷ []) (3 ∷ []) 1 machine-IsRunning
