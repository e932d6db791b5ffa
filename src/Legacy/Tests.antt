-- ===== src/Legacy/Tests.antt =====
-- A line feed and a character on the last row of the text screen; the older kernel with addresses, a
-- loader's table and controllers that are made up.
use bbn_os.Base.{ℕ, ◌+◌, ◌*◌, ◌≡◌, refl, true, none, [], ◌∷◌, arith, ◌==◌, if◌then◌else◌}
use bbn_os.Legacy.{Screen, put_all}
use bbn_os.Legacy.Bounds.{IsKept, put_all-IsKept}
use bbn_os.Legacy.Descriptor.{Gdt, init_descriptor, seg2phys, seg2phys-init_descriptor}
use bbn_os.Legacy.Gate.{Gate, Handlers, init_idt, IsEntry, entry, init_idt-IsEntry}
use bbn_os.Legacy.Irq.{IrqCalls}
use bbn_os.Legacy.Task.{Process, Linked, Kernel, zero_tss}
use bbn_os.Legacy.Start.{cstart, kmain}
use bbn_os.Legacy.Tasks.{IsReady, kmain-IsReady}

abbrev last_row : Screen
last_row = record { memory = λ a. 0; ports = []; x_pos = 79; y_pos = 24; clear = true }

put_all-IsKept_example : IsKept last_row (put_all (b'a' ∷ 10 ∷ 9 ∷ b'b' ∷ []) last_row)
put_all-IsKept_example =
    put_all-IsKept (b'a' ∷ 10 ∷ 9 ∷ b'b' ∷ []) last_row (omega arith, omega arith)

-- The loader's table: flat segments of code and data at 0x100000.
abbrev loader_gdt : Gdt
loader_gdt i =
    if i == 1
    then init_descriptor 0x100000 0xFFFFF 0xC09A
    else init_descriptor 0x100000 0xFFFFF 0xC092

seg2phys-init_descriptor_example : seg2phys loader_gdt 0x13 ≡ 0x100000
seg2phys-init_descriptor_example =
    seg2phys-init_descriptor loader_gdt 0x13 0x100000 0xFFFFF 0xC092 (omega arith) refl

abbrev handlers : Handlers
handlers = record {
  divide_error = 0x30400;
  single_step_error = 0x30404;
  nmi = 0x30408;
  breakpoint_exception = 0x3040C;
  overflow = 0x30410;
  bounds_check = 0x30414;
  inval_opcode = 0x30418;
  copr_not_available = 0x3041C;
  double_fault = 0x30420;
  copr_seg_overrun = 0x30424;
  inval_tss = 0x30428;
  segment_not_present = 0x3042C;
  stack_exception = 0x30430;
  general_protection = 0x30434;
  page_fault = 0x30438;
  copr_error = 0x3043C;
  hwint = λ i. 0x30500 + 16 * i;
  sys_call = 0x30700;
}

abbrev no_gate : Gate
no_gate = record { base_low = 0; sel = 0; always0 = 0; flags = 0; base_high = 0 }

init_idt-IsEntry_example :
    IsEntry (entry handlers 0x21) no_gate (init_idt handlers (λ v. no_gate) 0x21)
init_idt-IsEntry_example = init_idt-IsEntry handlers (λ v. no_gate) 0x21

abbrev linked : Linked
linked = record {
  gdt = 0x31000;
  tss = 0x31400;
  idt = 0x31800;
  ldts = λ i. 0x32000 + 120 * i;
  task_stack = 0x40000;
  test_a = 0x30800;
  test_b = 0x30900;
  test_c = 0x30A00;
}

-- Ports that read as 0 and ignore what is written.
abbrev calls : IrqCalls ℕ
calls = record {
  ports = record { inb = λ port d. (0, d); outb = λ port v d. d };
  disable_irq = λ irq d. d;
  enable_irq = λ irq d. d;
}

abbrev no_process : Process
no_process = record {
  registers = record {
    gs = 0;
    fs = 0;
    es = 0;
    ds = 0;
    edi = 0;
    esi = 0;
    ebp = 0;
    kernel_esp = 0;
    ebx = 0;
    edx = 0;
    ecx = 0;
    eax = 0;
    retaddr = 0;
    eip = 0;
    cs = 0;
    eflags = 0;
    esp = 0;
    ss = 0;
  };
  ldt_sel = 0;
  code = init_descriptor 0 0 0;
  data_segment = init_descriptor 0 0 0;
  pid = 0;
  p_name = λ i. 0;
}

abbrev booted : Kernel ℕ
booted = record {
  lines = record { devices = 0; irq_table = λ i. none; p_proc_ready = 0; clock_int_enter_time = 0 };
  gdt = λ i. init_descriptor 0 0 0;
  gdt_limit = 0x1F;
  gdt_base = 0;
  idt = λ v. no_gate;
  idt_limit = 0;
  idt_base = 0;
  tss = zero_tss;
  proc_table = λ i. no_process;
}

abbrev running : Kernel ℕ
running = kmain calls linked (cstart calls linked handlers loader_gdt booted)

kmain-IsReady_example : IsReady linked loader_gdt running.gdt 2 (running.proc_table 2)
kmain-IsReady_example =
    kmain-IsReady calls linked handlers loader_gdt booted 2 (omega arith) (omega arith)
      (omega arith)
