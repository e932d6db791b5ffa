-- ===== src/Interrupts/Tests.antt =====
-- A machine with two interrupt controllers, of which the mask and the number of initialisation words
-- still to come are kept.
use bbn_os.Base.{
  Bool, ◌&&◌, Option, none, some, ltb, ◌∷◌, false, [], true, ℕ, ◌-◌, ◌%◌, ◌^◌, ◌≡◌, ◌≢◌, refl,
  arith,
}
use bbn_os.Base.{◌==◌, if◌then◌else◌}
use bbn_os.Io.{Ports, out_all}
use bbn_os.Pic.{PicLaws}
use bbn_os.Mem.State.{initial_mem_info}
use bbn_os.Idt.{idt_desc_by_index, int_assign_func, read_idt_desc}
use bbn_os.Idt.Gates.{gate, read_idt_desc-int_assign_func}
use bbn_os.Interrupts.{Handlers, Machine}
use bbn_os.Keyboard.{Keyboard}
use bbn_os.Mouse.{Mouse}
use bbn_os.Interrupts.Ready.{IsPrepared, prepare_interrupts-IsPrepared}
use bbn_os.Interrupts.Session.{
  from_keyboard, from_mouse, ServiceLaws, IsDelivered, interrupts-IsDelivered,
}

pub record Pics : Type 0 where
  pub mask_1 : ℕ
  pub mask_2 : ℕ
  pub words_1 : ℕ
  pub words_2 : ℕ

abbrev pub pics_in : ℕ → Pics → ℕ
pics_in port d =
    if port == 0x21 then d.mask_1 % 2 ^ 8 else if port == 0xA1 then d.mask_2 % 2 ^ 8 else 0

abbrev pub pics_out : ℕ → ℕ → Pics → Pics
pics_out port v d =
    if port == 0x20
    then (if v == 0x11 then record d { words_1 = 3 } else d)
    else if port == 0x21
    then (if d.words_1 == 0 then record d { mask_1 = v } else record d { words_1 = d.words_1 - 1 })
    else if port == 0xA0
    then (if v == 0x11 then record d { words_2 = 3 } else d)
    else if port == 0xA1
    then (if d.words_2 == 0 then record d { mask_2 = v } else record d { words_2 = d.words_2 - 1 })
    else d

abbrev pub pics : Ports Pics
pics = record { inb = λ port d. (pics_in port d, d); outb = pics_out }

abbrev Settled : Pics → ℕ → ℕ → Type 0
Settled d a b = (d.mask_1 % 2 ^ 8 ≡ a) × (d.mask_2 % 2 ^ 8 ≡ b) × (d.words_1 ≡ 0) × (d.words_2 ≡ 0)

elsewhere :
    (port v : ℕ) (d : Pics)
    → port ≢ 0x20
    → port ≢ 0x21
    → port ≢ 0xA0
    → port ≢ 0xA1
    → pics_out port v d ≡ d
elsewhere port v d h1 h2 h3 h4 = ground arith

set_mask1 : (v : ℕ) (d : Pics) → d.words_1 ≡ 0 → pics_out 0x21 v d ≡ record d { mask_1 = v }
set_mask1 v d h = ground arith

set_mask2 : (v : ℕ) (d : Pics) → d.words_2 ≡ 0 → pics_out 0xA1 v d ≡ record d { mask_2 = v }
set_mask2 v d h = ground arith

pub pics_laws : PicLaws pics
unfolding out_all
pics_laws = record {
  Shows = Settled;
  inb_byte = λ port d. ground arith;
  inb_mask1 = λ d a b shows. shows.0;
  inb_mask2 = λ d a b shows. shows.1;
  inb_keeps = λ port d a b shows. shows;
  outb_mask1 =
      λ v d a b small shows. rw (set_mask1 v d shows.2) (omega arith, shows.1, shows.2, shows.3);
  outb_mask2 =
      λ v d a b small shows. rw (set_mask2 v d shows.3) (shows.0, omega arith, shows.2, shows.3);
  outb_other = λ port v d a b h1 h2 h3 h4 shows. rw (elsewhere port v d h1 h2 h3 h4) shows;
  initialised = λ offset_1 offset_2 a b d ha hb. (omega arith, omega arith, refl, refl);
}

abbrev pub handlers : Handlers
handlers = record {
  ex_handler_df = 0x100100;
  ex_handler_gp = 0x100200;
  ex_handler_pf = 0x100300;
  int_handler_kb = 0xFFFF800000100400;
  int_handle_ps2_mouse = 0x100500;
}

-- Frame 0 is taken, and frame 1 is free.
abbrev machine : Machine Pics
machine = record {
  kernel = record {
    memory = λ a. if a == 0x5000 then 0x80 else 0;
    mem_info = record initial_mem_info { mem_bit_map = record { size = 2; buffer = 0x5000 } };
    initialized = true;
    log = [];
  };
  idtr = record { limit = 0; base = 0 };
  device = record { mask_1 = 0xB8; mask_2 = 0x8E; words_1 = 0; words_2 = 0 };
}

prepare_interrupts-IsPrepared_example : IsPrepared pics pics_laws handlers machine
prepare_interrupts-IsPrepared_example =
    prepare_interrupts-IsPrepared pics pics_laws handlers machine
      (omega arith, omega arith, omega arith, omega arith, omega arith)

read_idt_desc-int_assign_func_example :
    read_idt_desc (int_assign_func (λ a. 7) 0x1000 14 0x100300) (idt_desc_by_index 0x1000 14)
    ≡ gate (read_idt_desc (λ a. 7) (idt_desc_by_index 0x1000 14)) 0x100300
read_idt_desc-int_assign_func_example =
    read_idt_desc-int_assign_func (λ a. 7) 0x1000 14 0x100300 14 (omega arith) (omega arith)
      (omega arith)

abbrev keyboard : Keyboard
keyboard = record { lshift = true; rshift = false; e0_prefix = false }

abbrev mouse : Mouse
mouse = record {
  cycle = 1;
  packet_0 = 8;
  packet_1 = 0;
  packet_2 = 0;
  ready = false;
  pos_x = 5;
  pos_y = 6;
}

-- Controllers that hold an interrupt back while an earlier one has not ended, and a byte at port 0x60.
record Lines : Type 0 where
  pub first : Bool
  pub second : Bool
  pub byte : ℕ

abbrev lines : Ports Lines
lines = record {
  inb = λ port d. if port == 0x60 then (d.byte, d) else (0, d);
  outb = λ port v d.
      if port == 0x20 && v == 0x20
      then record d { first = false }
      else if port == 0xA0 && v == 0x20
      then record d { second = false }
      else d;
}

abbrev accept_line : ℕ → Lines → Option Lines
accept_line irq d =
    if d.first
    then none
    else if ltb irq 8
    then some (record d { first = true })
    else if d.second
    then none
    else some (record d { first = true; second = true })

line_laws : ServiceLaws lines accept_line
line_laws = record {
  InService = λ d a b. (d.first ≡ a) × (d.second ≡ b);
  accept_first = λ irq d below (e1, e2). (
    record d { first = true },
    rw e1 (let test : ltb irq 8 ≡ true = ground arith in rw test refl),
    (refl, e2),
  );
  accept_second = λ irq d above below (e1, e2). (
    record d { first = true; second = true },
    rw e1 (let test : ltb irq 8 ≡ false = ground arith in rw (test, e2) refl),
    (refl, refl),
  );
  read_keeps = λ d a b h. h;
  eoi1 = λ d a b h. (refl, h.1);
  eoi2 = λ d a b h. (h.0, refl);
}

abbrev idle : Lines
idle = record { first = false; second = false; byte = 0x2A }

-- A key, a byte of the mouse, and two keys.
interrupts-IsDelivered_example :
    IsDelivered lines accept_line line_laws
      (from_keyboard ∷ from_mouse ∷ from_keyboard ∷ from_keyboard ∷ [])
      keyboard
      mouse
      idle
unfolding line_laws
interrupts-IsDelivered_example =
    interrupts-IsDelivered lines accept_line line_laws
      (from_keyboard ∷ from_mouse ∷ from_keyboard ∷ from_keyboard ∷ []) keyboard mouse idle
      (refl, refl)
