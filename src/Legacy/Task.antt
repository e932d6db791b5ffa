-- ===== src/Legacy/Task.antt =====
-- kernel/legacy/kmain.c and kernel/legacy/global.c: what the older kernel sets up before its first task
-- runs. What it prints is left out.
use bbn_os.Base.{ℕ, ◌+◌, List, [], ◌∷◌, ltb, if◌then◌else◌, length, get_or}
use bbn_os.Legacy.Descriptor.{Descriptor, Gdt}
use bbn_os.Legacy.Gate.{Idt}
use bbn_os.Legacy.Irq.{Lines}

pub record Tss : Type 0 where
  pub backlink : ℕ
  pub esp0 : ℕ
  pub ss0 : ℕ
  pub esp1 : ℕ
  pub ss1 : ℕ
  pub esp2 : ℕ
  pub ss2 : ℕ
  pub cr3 : ℕ
  pub eip : ℕ
  pub flags : ℕ
  pub eax : ℕ
  pub ecx : ℕ
  pub edx : ℕ
  pub ebx : ℕ
  pub esp : ℕ
  pub ebp : ℕ
  pub esi : ℕ
  pub edi : ℕ
  pub es : ℕ
  pub cs : ℕ
  pub ss : ℕ
  pub ds : ℕ
  pub fs : ℕ
  pub gs : ℕ
  pub ldt : ℕ
  pub trap : ℕ
  pub iobase : ℕ

pub record StackFrame : Type 0 where
  pub gs : ℕ
  pub fs : ℕ
  pub es : ℕ
  pub ds : ℕ
  pub edi : ℕ
  pub esi : ℕ
  pub ebp : ℕ
  pub kernel_esp : ℕ
  pub ebx : ℕ
  pub edx : ℕ
  pub ecx : ℕ
  pub eax : ℕ
  pub retaddr : ℕ
  pub eip : ℕ
  pub cs : ℕ
  pub eflags : ℕ
  pub esp : ℕ
  pub ss : ℕ

-- `code` and `data` are the two descriptors of `ldts`, and `p_name` the sixteen bytes by their offset.
pub record Process : Type 0 where
  pub registers : StackFrame
  pub ldt_sel : ℕ
  pub code : Descriptor
  pub data_segment : Descriptor
  pub pid : ℕ
  pub p_name : ℕ → ℕ

pub record Task : Type 0 where
  pub initial_eip : ℕ
  pub stack_size : ℕ
  pub name : List ℕ

-- The addresses that the linker gives the kernel's variables and test functions.
pub record Linked : Type 0 where
  pub gdt : ℕ
  pub tss : ℕ
  pub idt : ℕ
  pub ldts : ℕ → ℕ
  pub task_stack : ℕ
  pub test_a : ℕ
  pub test_b : ℕ
  pub test_c : ℕ

-- The variables of global.h. `gdt_limit`, `gdt_base`, `idt_limit` and `idt_base` are the parts of
-- `gdt_ptr` and `idt_ptr`.
pub record Kernel (D : Type 0) : Type 0 where
  pub lines : Lines D
  pub gdt : Gdt
  pub gdt_limit : ℕ
  pub gdt_base : ℕ
  pub idt : Idt
  pub idt_limit : ℕ
  pub idt_base : ℕ
  pub tss : Tss
  pub proc_table : ℕ → Process

abbrev pub selector_kernel_ds : ℕ
selector_kernel_ds = 0x10

abbrev pub selector_kernel_gs : ℕ
selector_kernel_gs = 0x18 + 3

abbrev pub index_ldt_first : ℕ
index_ldt_first = 5

abbrev pub task_table : Linked → List Task
task_table at =
    record { initial_eip = at.test_a; stack_size = 0x8000; name = 84 ∷ 101 ∷ 115 ∷ 116 ∷ 65 ∷ [] }
    ∷ record {
      initial_eip = at.test_b;
      stack_size = 0x8000;
      name = 116 ∷ 101 ∷ 115 ∷ 116 ∷ 66 ∷ [];
    }
    ∷ record {
      initial_eip = at.test_c;
      stack_size = 0x8000;
      name = 116 ∷ 101 ∷ 115 ∷ 116 ∷ 67 ∷ [];
    }
    ∷ []

-- `strcpy`, which writes no end: the bytes behind the source keep their values.
unfoldable pub strcpy : (dst : ℕ → ℕ) → List ℕ → ℕ → ℕ
strcpy dst src i = if ltb i (length src) then get_or src i 0 else dst i

-- `memset(&tss, 0, sizeof(TSS))`.
abbrev pub zero_tss : Tss
zero_tss = record {
  backlink = 0;
  esp0 = 0;
  ss0 = 0;
  esp1 = 0;
  ss1 = 0;
  esp2 = 0;
  ss2 = 0;
  cr3 = 0;
  eip = 0;
  flags = 0;
  eax = 0;
  ecx = 0;
  edx = 0;
  ebx = 0;
  esp = 0;
  ebp = 0;
  esi = 0;
  edi = 0;
  es = 0;
  cs = 0;
  ss = 0;
  ds = 0;
  fs = 0;
  gs = 0;
  ldt = 0;
  trap = 0;
  iobase = 0;
}

-- `sizeof(TSS)`.
abbrev pub tss_size : ℕ
tss_size = 104
