-- ===== src/Legacy/Start.antt =====
-- kernel/legacy/kmain.c: `cstart` and `kmain` of the older kernel. What they print is left out, and so is
-- `restart`, which is assembly.
use bbn_os.Base.{
  ℕ, ◌+◌, ◌-◌, ◌*◌, ◌/◌, ◌%◌, ◌^◌, List, [], ◌∷◌, ◌==◌, ltb, if◌then◌else◌, bit_and, bit_or,
}
use bbn_os.Base.Loop.{count_up}
use bbn_os.Legacy.Descriptor.{Descriptor, Gdt, init_descriptor, seg2phys, vir2phys}
use bbn_os.Legacy.Gate.{Handlers, init_idt, selector_kernel_cs}
use bbn_os.Legacy.Irq.{IrqCalls, init_8259a, start_lines, max_thread}
use bbn_os.Legacy.Task.{
  Process, Task, Linked, Kernel, selector_kernel_ds, selector_kernel_gs, index_ldt_first,
  task_table, strcpy, zero_tss, tss_size,
}

-- The descriptors of the loader's table, of which the limit is the offset of the last byte.
unfoldable pub copy_gdt : (old : Gdt) (limit : ℕ) → Gdt → Gdt
copy_gdt old limit gdt i = if ltb i ((limit + 1) / 8) then old i else gdt i

unfoldable pub set_descriptor : (index : ℕ) → Descriptor → Gdt → Gdt
set_descriptor index d gdt i = if i == index then d else gdt i

-- `vir2phys(seg2phys(SELECTOR_KERNEL_DS), address)`.
unfoldable pub kernel_address : Gdt → (address : ℕ) → ℕ
kernel_address gdt address = vir2phys (seg2phys gdt selector_kernel_ds) address

-- The descriptor of the task state, with `DA_386TSS`.
unfoldable pub load_tss : Linked → Gdt → Gdt
load_tss at gdt =
    set_descriptor 4 (init_descriptor (kernel_address gdt at.tss) (tss_size - 1) 0x89) gdt

-- A round of the loop over the tasks, with the selector of the round and `DA_LDT`.
unfoldable pub load_ldt : Linked → (i : ℕ) → Gdt → Gdt
load_ldt at i gdt =
    set_descriptor ((index_ldt_first * 2 ^ 3 + i * 2 ^ 3) / 2 ^ 3)
      (init_descriptor (kernel_address gdt (at.ldts i)) (2 * 8 - 1) 0x82) gdt

unfoldable pub load_ldts : Linked → Gdt → Gdt
load_ldts at gdt = count_up max_thread 0 (λ i g. load_ldt at i g) gdt

-- `old` is the table at the address that `sgdt` left in `gdt_ptr`.
unfoldable pub cstart :
    {D : Type 0} → IrqCalls D → Linked → Handlers → (old : Gdt) → Kernel D → Kernel D
cstart calls at h old s =
    let moved = copy_gdt old s.gdt_limit s.gdt in
    record s {
      lines = init_8259a calls s.lines;
      gdt = load_ldts at (load_tss at moved);
      gdt_limit = 128 * 8 - 1;
      gdt_base = kernel_address moved at.gdt;
      tss = record zero_tss { ss0 = selector_kernel_ds; iobase = tss_size };
      idt = init_idt h s.idt;
      idt_limit = 256 * 8 - 1;
      idt_base = at.idt % 2 ^ 32;
    }

-- The selectors of a task: an index, its table and its level of privilege.
abbrev pub ldt_selector : (index : ℕ) → ℕ
ldt_selector index = bit_or (bit_or (bit_and (bit_and (8 * index) 0xFFFC) 0xFFFB) 4) 1

-- The body of the loop of `kmain`, with `DA_C` and `DA_DRW`; `stack` and `sel` are the round's
-- `p_task_stack` and `selector_ldt`.
unfoldable pub fill_process : Gdt → (i : ℕ) → Task → (stack sel : ℕ) → Process → Process
fill_process gdt i task stack sel p = record p {
  p_name = strcpy p.p_name task.name;
  pid = i;
  ldt_sel = sel;
  code = record (gdt (selector_kernel_cs / 2 ^ 3)) { attr1 = bit_or 0x98 (1 * 2 ^ 5) };
  data_segment = record (gdt (selector_kernel_ds / 2 ^ 3)) { attr1 = bit_or 0x92 (1 * 2 ^ 5) };
  registers = record p.registers {
    cs = ldt_selector 0;
    ds = ldt_selector 1;
    es = ldt_selector 1;
    fs = ldt_selector 1;
    ss = ldt_selector 1;
    gs = bit_or (bit_and selector_kernel_gs 0xFFFC) 1;
    eip = task.initial_eip % 2 ^ 32;
    esp = (stack % 2 ^ 32 + task.stack_size + (2 ^ 32 - 1)) % 2 ^ 32;
    eflags = 0x1202;
  };
}

-- The loop: a round for each task of the table.
unfoldable pub fill_processes :
    Gdt → (i : ℕ) → List Task → (stack sel : ℕ) → (ℕ → Process) → ℕ → Process
fill_processes gdt i [] stack sel procs = procs
fill_processes gdt i (task ∷ tasks) stack sel procs =
    fill_processes gdt (i + 1) tasks (stack + task.stack_size) ((sel + 2 ^ 3) % 2 ^ 16)
      (λ j. if j == i then fill_process gdt i task stack sel (procs j) else procs j)

-- `kmain` up to `restart`.
unfoldable pub kmain : {D : Type 0} → IrqCalls D → Linked → Kernel D → Kernel D
kmain calls at s = record s {
  lines = start_lines calls s.lines;
  proc_table = fill_processes s.gdt 0 (task_table at) at.task_stack 0x28 s.proc_table;
}
