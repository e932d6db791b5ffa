-- ===== src/Legacy/Gate.antt =====
-- kernel/legacy/isr.c: the interrupt descriptor table of the older kernel.
use bbn_os.Base.{
  ℕ, zero, suc, ◌+◌, ◌-◌, ◌*◌, ◌/◌, ◌%◌, ◌^◌, ◌≡◌, inl, inr, refl, sym, ◌∙◌, Bool, true, false,
  ◌&&◌, Option, none, some, List, [], ◌∷◌, arith, ◌==◌, ltb, leb, if◌then◌else◌, Bool-cases, bit_or,
}

pub record Gate : Type 0 where
  pub base_low : ℕ
  pub sel : ℕ
  pub always0 : ℕ
  pub flags : ℕ
  pub base_high : ℕ

abbrev pub Idt : Type 0
Idt = ℕ → Gate

abbrev pub selector_kernel_cs : ℕ
selector_kernel_cs = 0x08

-- `DA_386IGate`, and the two levels of privilege that are used.
abbrev pub interrupt_gate : ℕ
interrupt_gate = 0x8E

abbrev pub kernel_level : ℕ
kernel_level = 0

abbrev pub user_level : ℕ
user_level = 3

-- The fields that `init_idt_desc` sets; `always0` keeps its value.
unfoldable pub set_gate : Gate → (desc_type handler privilege : ℕ) → Gate
set_gate g desc_type handler privilege = record g {
  base_low = handler % 2 ^ 16;
  sel = selector_kernel_cs;
  base_high = handler / 2 ^ 16 % 2 ^ 16;
  flags = bit_or desc_type (privilege * 2 ^ 5) % 2 ^ 8;
}

unfoldable pub init_idt_desc : Idt → (vector desc_type handler privilege : ℕ) → Idt
init_idt_desc idt vector desc_type handler privilege v =
    if v == vector then set_gate (idt v) desc_type handler privilege else idt v

-- The addresses of the handlers, which kernel.asm, irq.asm and syscall.asm define.
pub record Handlers : Type 0 where
  pub divide_error : ℕ
  pub single_step_error : ℕ
  pub nmi : ℕ
  pub breakpoint_exception : ℕ
  pub overflow : ℕ
  pub bounds_check : ℕ
  pub inval_opcode : ℕ
  pub copr_not_available : ℕ
  pub double_fault : ℕ
  pub copr_seg_overrun : ℕ
  pub inval_tss : ℕ
  pub segment_not_present : ℕ
  pub stack_exception : ℕ
  pub general_protection : ℕ
  pub page_fault : ℕ
  pub copr_error : ℕ
  pub hwint : ℕ → ℕ
  pub sys_call : ℕ

-- The vectors and handlers of the exceptions, in the order of the calls.
abbrev pub exceptions : Handlers → List (ℕ × ℕ)
exceptions h =
    (0x0, h.divide_error)
    ∷ (0x1, h.single_step_error)
    ∷ (0x2, h.nmi)
    ∷ (0x3, h.breakpoint_exception)
    ∷ (0x4, h.overflow)
    ∷ (0x5, h.bounds_check)
    ∷ (0x6, h.inval_opcode)
    ∷ (0x7, h.copr_not_available)
    ∷ (0x8, h.double_fault)
    ∷ (0x9, h.copr_seg_overrun)
    ∷ (0xA, h.inval_tss)
    ∷ (0xB, h.segment_not_present)
    ∷ (0xC, h.stack_exception)
    ∷ (0xD, h.general_protection)
    ∷ (0xE, h.page_fault)
    ∷ (0x10, h.copr_error)
    ∷ []

-- The sixteen lines of the controllers, from `INT_VECTOR_IRQ0` on.
unfoldable pub irq_gates : (n i : ℕ) → (ℕ → ℕ) → List (ℕ × ℕ)
irq_gates zero i hwint = []
irq_gates (suc n) i hwint = (0x20 + i, hwint i) ∷ irq_gates n (i + 1) hwint

unfoldable pub init_gates : List (ℕ × ℕ) → Idt → Idt
init_gates [] idt = idt
init_gates ((vector, handler) ∷ gates) idt =
    init_gates gates (init_idt_desc idt vector interrupt_gate handler kernel_level)

-- `init_prot`, behind `init_8259A`.
unfoldable pub init_idt : Handlers → Idt → Idt
init_idt h idt =
    init_idt_desc (init_gates (irq_gates 16 0 h.hwint) (init_gates (exceptions h) idt)) 0x90
      interrupt_gate h.sys_call user_level

-- The handler that a list of gates gives a vector: the last one for it.
abbrev pub listed : List (ℕ × ℕ) → ℕ → Option ℕ
listed [] v = none
listed ((vector, handler) ∷ gates) v = elim (listed gates v) [
  | some later ↦ some later
  | none ↦ if v == vector then some handler else none
]

-- The gate leads to the handler, an interrupt gate of the level in the kernel's code segment.
abbrev pub IsGate : (handler level : ℕ) → Gate → Type 0
IsGate handler level g =
    (g.base_low + g.base_high * 2 ^ 16 ≡ handler % 2 ^ 32)
    × ((g.sel ≡ selector_kernel_cs) × (g.flags ≡ interrupt_gate + level * 2 ^ 5))

-- Where a handler is listed, the gate leads there; else it is the one from before.
abbrev pub IsLaid : Option ℕ → (level : ℕ) → (before after : Gate) → Type 0
IsLaid none level before after = after ≡ before
IsLaid (some handler) level before after = IsGate handler level after

kernel_gate :
    (g : Gate) (handler : ℕ) → IsGate handler 0 (set_gate g interrupt_gate handler kernel_level)
unfolding set_gate
kernel_gate g handler = (omega arith, (refl, refl))

user_gate :
    (g : Gate) (handler : ℕ) → IsGate handler 3 (set_gate g interrupt_gate handler user_level)
unfolding set_gate
user_gate g handler = (omega arith, (refl, refl))

gate_at :
    (idt : Idt) (vector handler v : ℕ) (after : Gate)
    → after ≡ init_idt_desc idt vector interrupt_gate handler kernel_level v
    → IsLaid (if v == vector then some handler else none) 0 (idt v) after
unfolding init_idt_desc
gate_at idt vector handler v after e = elim (Bool-cases (v == vector)) [
  | inl same ↦ rw (e, same) (kernel_gate (idt v) handler)
  | inr other ↦ rw (e, other) refl
]

init_gates-IsLaid :
    (gates : List (ℕ × ℕ)) (idt : Idt) (v : ℕ)
    → IsLaid (listed gates v) 0 (idt v) (init_gates gates idt v)
unfolding init_gates
init_gates-IsLaid [] idt v = refl
init_gates-IsLaid ((vector, handler) ∷ gates) idt v =
    go (listed gates v)
      (init_gates-IsLaid gates (init_idt_desc idt vector interrupt_gate handler kernel_level) v)
  where
    go :
        (later : Option ℕ)
        → IsLaid later 0
            (init_idt_desc idt vector interrupt_gate handler kernel_level v)
            (init_gates gates (init_idt_desc idt vector interrupt_gate handler kernel_level) v)
        → IsLaid
            (elim later as (λ _. Option ℕ) [
              | some there ↦ some there
              | none ↦ if v == vector then some handler else none
            ])
            0
            (idt v)
            (init_gates gates (init_idt_desc idt vector interrupt_gate handler kernel_level) v)
    go (some there) h = h
    go none h = gate_at idt vector handler v _ h

next_line :
    (n i v : ℕ) (hwint : ℕ → ℕ)
    → elim (if leb (0x20 + (i + 1)) v && ltb v (0x20 + (i + 1) + n)
          then some (hwint (v - 0x20))
          else none)
        as (λ _. Option ℕ) [
          | some later ↦ some later
          | none ↦ if v == 0x20 + i then some (hwint i) else none
        ]
      ≡ (if leb (0x20 + i) v && ltb v (0x20 + i + suc n) then some (hwint (v - 0x20)) else none)
next_line n i v hwint = ground arith

listed-irq_gates :
    (n i v : ℕ) (hwint : ℕ → ℕ)
    → listed (irq_gates n i hwint) v
      ≡ (if leb (0x20 + i) v && ltb v (0x20 + i + n) then some (hwint (v - 0x20)) else none)
unfolding irq_gates
listed-irq_gates zero i v hwint = ground arith
listed-irq_gates (suc n) i v hwint = rw (listed-irq_gates n (i + 1) v hwint) (next_line n i v hwint)

-- The handlers of the exceptions, as Intel numbers them; 15 is reserved, and the code stops at 16.
abbrev pub exception_of : Handlers → (v : ℕ) → Option ℕ
exception_of h v =
    if v == 0
    then some h.divide_error
    else if v == 1
    then some h.single_step_error
    else if v == 2
    then some h.nmi
    else if v == 3
    then some h.breakpoint_exception
    else if v == 4
    then some h.overflow
    else if v == 5
    then some h.bounds_check
    else if v == 6
    then some h.inval_opcode
    else if v == 7
    then some h.copr_not_available
    else if v == 8
    then some h.double_fault
    else if v == 9
    then some h.copr_seg_overrun
    else if v == 10
    then some h.inval_tss
    else if v == 11
    then some h.segment_not_present
    else if v == 12
    then some h.stack_exception
    else if v == 13
    then some h.general_protection
    else if v == 14
    then some h.page_fault
    else if v == 16
    then some h.copr_error
    else none

listed-exceptions : (h : Handlers) (v : ℕ) → listed (exceptions h) v ≡ exception_of h v
listed-exceptions h v = ground arith

-- What the table of interrupts gives a vector, as an independent description.
abbrev pub entry : Handlers → (v : ℕ) → Option (ℕ × ℕ)
entry h v =
    if v == 0x90
    then some (h.sys_call, user_level)
    else if leb 0x20 v && ltb v 0x30
    then some (h.hwint (v - 0x20), kernel_level)
    else elim (exception_of h v) [ some handler ↦ some (handler, kernel_level) | none ↦ none ]

-- The gate is the one of the entry, or the one from before where there is none.
abbrev pub IsEntry : Option (ℕ × ℕ) → (before after : Gate) → Type 0
IsEntry none before after = after ≡ before
IsEntry (some (handler, level)) before after = IsGate handler level after

-- The entries of the lines lie over the ones of the exceptions.
lines_over :
    (line : Bool) (hwint : ℕ) (e : Option ℕ) (before between after : Gate)
    → IsLaid (if line then some hwint else none) 0 between after
    → IsLaid e 0 before between
    → IsEntry
        (if line then some (hwint, kernel_level) else elim e as (λ _. Option (ℕ × ℕ)) [
          | some handler ↦ some (handler, kernel_level)
          | none ↦ none
        ])
        before
        after
lines_over true hwint e before between after a b = a
lines_over false hwint none before between after a b = a ∙ b
lines_over false hwint (some handler) before between after a b = rw a b

-- After `init_prot` the gate of each vector is the one of the description: vector 0x90 leads to the system
-- call at the user's level, 0x20 to 0x2F to the sixteen lines, and 0 to 14 and 16 each to the handler of
-- the exception with that number, at the kernel's level, all as interrupt gates in the kernel's code segment with the address
-- split in two; every other gate is as before.
pub init_idt-IsEntry :
    (h : Handlers) (idt : Idt) (v : ℕ) → IsEntry (entry h v) (idt v) (init_idt h idt v)
unfolding init_idt init_idt_desc
init_idt-IsEntry h idt v = elim (Bool-cases (v == 0x90)) [
  | inl call ↦ rw call (user_gate _ h.sys_call)
  | inr other ↦ rw other (
      lines_over (leb 0x20 v && ltb v 0x30) (h.hwint (v - 0x20)) (exception_of h v) (idt v)
        (init_gates (exceptions h) idt v) _
        (rw (sym (listed-irq_gates 16 0 v h.hwint))
          (init_gates-IsLaid (irq_gates 16 0 h.hwint) (init_gates (exceptions h) idt) v))
        (rw (sym (listed-exceptions h v)) (init_gates-IsLaid (exceptions h) idt v)))
]
