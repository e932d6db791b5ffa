-- ===== src/Legacy/Tasks.antt =====
-- kernel/legacy/kmain.c: what the first switch to a task finds.
use bbn_os.Base.{
  ℕ, ◌+◌, ◌-◌, ◌*◌, ◌/◌, ◌%◌, ◌^◌, ◌≤◌, ◌<◌, ◌≡◌, ◌⊎◌, inl, inr, refl, ap, ◌∙◌, some, List, [], ◌∷◌,
  arith, ◌==◌, if◌then◌else◌,
}
use bbn_os.Base.Loop.{count_up}
use bbn_os.Legacy.Descriptor.{
  Descriptor, Gdt, init_descriptor, seg2phys, segment_base, segment_limit, privilege,
  init_descriptor_lem,
}
use bbn_os.Legacy.Gate.{Handlers}
use bbn_os.Legacy.Irq.{IrqCalls, Lines}
use bbn_os.Legacy.Served.{handler_of, serve, keys_read}
use bbn_os.Legacy.Task.{Process, Task, Linked, Kernel, task_table}
use bbn_os.Legacy.Start.{
  copy_gdt, set_descriptor, kernel_address, load_tss, load_ldt, load_ldts, cstart, fill_process,
  fill_processes, kmain,
}

-- The address that the loader's segment of data gives an address of the kernel.
abbrev pub loaded_at : Gdt → ℕ → ℕ
loaded_at old address = (seg2phys old 0x10 + address) % 2 ^ 32

-- The entry point of the task `i`.
abbrev pub entry_point : Linked → (i : ℕ) → ℕ
entry_point at i = if i == 0 then at.test_a else if i == 1 then at.test_b else at.test_c

-- Whether the processor finds a descriptor present, and the five bits that say what it describes: 2 is
-- a local table, 0x12 a segment of data that is written, and 0x18 one of code.
abbrev present : Descriptor → ℕ
present d = d.attr1 / 2 ^ 7 % 2

abbrev kind : Descriptor → ℕ
kind d = d.attr1 % 2 ^ 5

-- The process `i` is ready to run: its selector finds a present descriptor of its own local table, of two
-- descriptors; these are the loader's segments, of code and of data, present and at the tasks' level of
-- privilege, and all selectors but `gs` choose them at that level; `gs` chooses the global descriptor of
-- the video memory; interrupts are let through, and input and output are allowed at that level; the
-- stack ends on the last byte of its own part.
pub record IsReady (at : Linked) (old gdt : Gdt) (i : ℕ) (p : Process) : Type 0 where
  pub own_table : segment_base (gdt (p.ldt_sel / 8)) ≡ loaded_at old (at.ldts i)
  pub own_selector : p.ldt_sel % 8 ≡ 0
  pub own_kind : (present (gdt (p.ldt_sel / 8)) ≡ 1) × (kind (gdt (p.ldt_sel / 8)) ≡ 2)
  pub two_descriptors : segment_limit (gdt (p.ldt_sel / 8)) + 1 ≡ 2 * 8
  pub code_base : segment_base p.code ≡ segment_base (old 1)
  pub data_base : segment_base p.data_segment ≡ segment_base (old 2)
  pub limits :
      (segment_limit p.code ≡ segment_limit (old 1))
      × (segment_limit p.data_segment ≡ segment_limit (old 2))
  pub code_kind : (present p.code ≡ 1) × (kind p.code ≡ 0x18)
  pub data_kind : (present p.data_segment ≡ 1) × (kind p.data_segment ≡ 0x12)
  pub levels : (privilege p.code ≡ 1) × (privilege p.data_segment ≡ 1)
  pub code_selector : (p.registers.cs / 8 ≡ 0) × (p.registers.cs % 8 ≡ 4 + 1)
  pub stack_selector : (p.registers.ss / 8 ≡ 1) × (p.registers.ss % 8 ≡ 4 + 1)
  pub data_selectors :
      (p.registers.ds ≡ p.registers.ss)
      × (p.registers.es ≡ p.registers.ss)
      × (p.registers.fs ≡ p.registers.ss)
  pub video_selector : (p.registers.gs / 8 ≡ 3) × (p.registers.gs % 8 ≡ 1)
  pub interruptible : p.registers.eflags / 2 ^ 9 % 2 ≡ 1
  pub io_level : p.registers.eflags / 2 ^ 12 % 2 ^ 2 ≡ 1
  pub stack : p.registers.esp + 1 ≡ at.task_stack + (i + 1) * 0x8000
  pub start : p.registers.eip ≡ entry_point at i % 2 ^ 32
  pub number : p.pid ≡ i

below_three : (i : ℕ) → i < 3 → (i ≡ 0) ⊎ ((i ≡ 1) ⊎ (i ≡ 2))
below_three i h = ground arith

tables_lem :
    (at : Linked) (g : Gdt) (i : ℕ)
    → i < 3
    → load_ldts at (load_tss at g) (5 + i) ≡ init_descriptor (kernel_address g (at.ldts i)) 15 0x82
unfolding load_ldts load_ldt load_tss set_descriptor kernel_address seg2phys count_up
tables_lem at g i h = elim (below_three i h) [
  | inl a ↦ rw a refl
  | inr (inl b) ↦ rw b refl
  | inr (inr c) ↦ rw c refl
]

others_lem : (at : Linked) (g : Gdt) (j : ℕ) → j < 4 → load_ldts at (load_tss at g) j ≡ g j
unfolding load_ldts load_ldt load_tss set_descriptor count_up
others_lem at g j h = ground arith

copied : (old gdt : Gdt) (limit j : ℕ) → j * 8 + 8 ≤ limit + 1 → copy_gdt old limit gdt j ≡ old j
unfolding copy_gdt
copied old gdt limit j h = ground arith

address_lem :
    (old moved : Gdt) (address : ℕ)
    → moved 2 ≡ old 2
    → kernel_address moved address ≡ loaded_at old address
unfolding kernel_address seg2phys
address_lem old moved address e = rw e refl

esp_lem :
    (stack size : ℕ)
    → 0 < size
    → stack + size ≤ 2 ^ 32
    → (stack % 2 ^ 32 + size + (2 ^ 32 - 1)) % 2 ^ 32 + 1 ≡ stack + size
esp_lem stack size s h = omega arith

-- The task `i` of the table.
abbrev task_at : Linked → (i : ℕ) → Task
task_at at i = record {
  initial_eip = entry_point at i;
  stack_size = 0x8000;
  name = (if i == 0 then 84 else 116) ∷ 101 ∷ 115 ∷ 116 ∷ (65 + i) ∷ [];
}

processes_lem :
    (at : Linked) (g : Gdt) (procs : ℕ → Process) (i : ℕ)
    → i < 3
    → fill_processes g 0 (task_table at) at.task_stack 0x28 procs i
      ≡ fill_process g i (task_at at i) (at.task_stack + i * 0x8000) (0x28 + i * 8) (procs i)
unfolding fill_processes
processes_lem at g procs i h = elim (below_three i h) [
  | inl a ↦ rw a (ap (λ st. fill_process g 0 (task_at at 0) st 0x28 (procs 0)) (omega arith))
  | inr (inl b) ↦ rw b (ap (λ st. fill_process g 1 (task_at at 1) st 0x30 (procs 1)) (omega arith))
  | inr (inr c) ↦ rw c (ap (λ st. fill_process g 2 (task_at at 2) st 0x38 (procs 2)) (omega arith))
]

kind_lem :
    (base : ℕ)
    → (present (init_descriptor base 15 0x82) ≡ 1) × (kind (init_descriptor base 15 0x82) ≡ 2)
unfolding init_descriptor
kind_lem base = (refl, refl)

-- A process that the loop filled from a table with the loader's segments and its own descriptor.
filled-IsReady :
    (at : Linked) (old g : Gdt) (i : ℕ) (p : Process)
    → i < 3
    → at.task_stack + 3 * 0x8000 ≤ 2 ^ 32
    → g 1 ≡ old 1
    → g 2 ≡ old 2
    → g (5 + i) ≡ init_descriptor (loaded_at old (at.ldts i)) 15 0x82
    → IsReady at old g i
        (fill_process g i (task_at at i) (at.task_stack + i * 0x8000) (0x28 + i * 8) p)
unfolding fill_process
filled-IsReady at old g i p h room e1 e2 own =
    let index : (0x28 + i * 8) / 8 ≡ 5 + i = omega arith in
    let reads =
      init_descriptor_lem (loaded_at old (at.ldts i)) 15 0x82 (omega arith) (omega arith) in
    record {
      own_table = rw (index, own) reads.0;
      own_selector = omega arith;
      own_kind = rw (index, own) (kind_lem (loaded_at old (at.ldts i)));
      two_descriptors = rw (index, own) (ap (λ l. l + 1) reads.1);
      code_base = ap segment_base e1;
      data_base = ap segment_base e2;
      limits = (ap segment_limit e1, ap segment_limit e2);
      code_kind = (refl, refl);
      data_kind = (refl, refl);
      levels = (refl, refl);
      code_selector = (refl, refl);
      stack_selector = (refl, refl);
      data_selectors = (refl, refl, refl);
      video_selector = (refl, refl);
      interruptible = refl;
      io_level = refl;
      stack = esp_lem (at.task_stack + i * 0x8000) 0x8000 (omega arith) (omega arith) ∙ omega arith;
      start = refl;
      number = refl;
    }

-- When the older kernel switches to its first task, each of the three processes is ready to run, when the
-- loader's table held at least the code and the data segment, and the stacks end within the addresses. It
-- has: a selector of the present descriptor of its own local table; there, present and at level 1, the
-- loader's segments of code and of data; selectors of these, and in `gs` of the fourth global descriptor,
-- at level 1; flags that let interrupts through and allow input and output at level 1; a stack of its
-- own, and the task's entry point.
pub kmain-IsReady :
    {D : Type 0} (calls : IrqCalls D) (at : Linked) (h : Handlers) (old : Gdt) (s : Kernel D)
    (i : ℕ)
    → i < 3
    → 3 * 8 ≤ s.gdt_limit + 1
    → at.task_stack + 3 * 0x8000 ≤ 2 ^ 32
    → let k = kmain calls at (cstart calls at h old s) in IsReady at old k.gdt i (k.proc_table i)
unfolding kmain cstart
kmain-IsReady calls at h old s i below covered room =
    let moved : Gdt = copy_gdt old s.gdt_limit s.gdt in
    let g : Gdt = load_ldts at (load_tss at moved) in
    let code = copied old s.gdt s.gdt_limit 1 (omega arith) in
    let data_segment = copied old s.gdt s.gdt_limit 2 (omega arith) in
    let own =
      tables_lem at moved i below
      ∙ ap (λ b. init_descriptor b 15 0x82) (address_lem old moved (at.ldts i) data_segment) in
    rw (processes_lem at g s.proc_table i below) (
      filled-IsReady at old g i (s.proc_table i) below room
        (others_lem at moved 1 (omega arith) ∙ code)
        (others_lem at moved 2 (omega arith) ∙ data_segment) own)

-- The older kernel has served interrupts: nothing went astray, the handlers are the clock's on line 0, the
-- keyboard's on line 1 and the common one on the others, a scan code was read for each interrupt of
-- the keyboard, and the first task is the ready one.
pub record IsServing {D : Type 0} (calls : IrqCalls D) (irqs : List ℕ) (s : Lines D) : Type 0 where
  pub last : Lines D
  pub done : serve calls irqs s ≡ some last
  pub table : (irq : ℕ) → irq < 16 → last.irq_table irq ≡ some (handler_of irq)
  pub devices : last.devices ≡ keys_read calls irqs s.devices
  pub ready : last.p_proc_ready ≡ 0
