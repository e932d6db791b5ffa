-- ===== src/Lib.antt =====
-- bbnOS: the kernel that UEFI boots (kernel/uefi, lib/uefi, include/uefi), its loader, and the
-- older kernel's text screen, tables and tasks.
--
-- The kernel takes over a machine from the UEFI loader. It sets up the page frames of the physical
-- memory (kernel/uefi/mem.c) over a bitmap (lib/uefi/bitmap.c). From then on it is driven by
-- interrupts: the keyboard's handler takes one scan code at a time (lib/uefi/keycode.c), and the
-- mouse's handler one byte of a packet (lib/uefi/mouse.c). The handlers are entered into the interrupt
-- descriptor table, and the interrupt controllers are programmed, by kernel/uefi/idt.c.
--
-- Memory.antt is the physical memory: a function from addresses to bytes, with `memset` of
-- lib/uefi/memop.c. Bitmap.antt is lib/uefi/bitmap.c; get_val and set_val are bitmapGetVal and
-- bitmapSetVal. Mem.antt is kernel/uefi/mem.c: Mem/State.antt has `mem_info` and the other state,
-- Mem/Pages.antt the operations on pages, Mem/Efi.antt the functions that read the UEFI memory map
-- of include/uefi/efi_mem.h. Mem/Spec.antt says what the page operations promise, as a set of taken
-- frames and three counters, with no bitmap. Keyboard.antt is lib/uefi/keycode.c: keyboard_handle is
-- keyboardHandle, and its result says what is printed. Mouse.antt is lib/uefi/mouse.c:
-- handle_ps2_mouse is handlePS2Mouse, and process_mouse_packet is ProcessMousePacket.
-- Io.antt stands for kernel/uefi/io.c: inb and outb are machine instructions, and the devices that
-- they reach are a parameter. Mouse/Setup.antt is PS2MouseInit. Pic.antt and Idt.antt are
-- kernel/uefi/idt.c, with the documented behaviour of the interrupt controllers as the laws PicLaws.
-- Console.antt is lib/uefi/fb.c: its fb_putchar has the source's name, and fb_put_char is _fbPutChar; it
-- draws into Memory.antt. Interrupts.antt is prepareInterrupts, and the handlers of interrupts of kernel/uefi/interrupts.c;
-- Interrupts/Session.antt runs these over a sequence of interrupts, with what the controllers document of their
-- end as the laws ServiceLaws;
-- Interrupts/Panic.antt has those of exceptions, with kPanic of kernel/uefi/kmisc.c.
-- Paging.antt is the end of kernel/uefi/mem.c: get_next_page_table is getNextPageTable, and
-- page_table_manager_map_memory is pageTableManagerMapMemory. Paging/Walk.antt says what a walk of the
-- tables finds.
--
-- Entry.antt is kernel/uefi/kernel.c: set_up_memory and set_up_paging are the parts of kmain that set
-- up the memory and the page tables. Its loops over addresses have 2^52 + 1 rounds, which is more than
-- there are pages. Entry/Started.antt and Entry/Paged.antt put the other components together, and
-- Entry/Kmain.antt is kmain with its calls in their order, up to the endless loop over mouse packets.
--
-- Legacy.antt is fb_putchar of lib/legacy/fb.c, the text screen of the older 32-bit kernel. Of that kernel,
-- Legacy/Descriptor.antt is kernel/legacy/dt.c, Legacy/Gate.antt the table of interrupts of
-- kernel/legacy/isr.c (init_idt is init_prot without the controllers), Legacy/Irq.antt
-- kernel/legacy/irq.c with Legacy/Served.antt, Legacy/Writer.antt the functions of lib/legacy/fb.c that print colours and numbers,
-- Legacy/Panic.antt exception_handler of kernel/legacy/isr.c, and Legacy/Start.antt cstart and kmain of kernel/legacy/kmain.c, over the
-- variables of Legacy/Task.antt. Assembly calls and the addresses of the linker are parameters.
--
-- Loader.antt is the UEFI loader, boot/uefi/gnu-efi/bootloader/uefi_main.c, which reads the kernel, the font
-- and the memory map and starts the kernel. The services of the firmware are a record of functions on
-- states of the machine, with the laws of Loader/Laws.antt and Loader/Retry.antt. So are
-- the layouts and constants of elf.h, which the repository does not have (ElfFormat). A pointer that is null
-- and followed is the result `none`. Loader/Files.antt has load_file and load_psf1_font, Loader/Elf.antt the
-- checks and the segments of the kernel, Loader/Start.antt the memory map and efi_main. The loop over the
-- segments has a round more than there are program headers; the rounds of the loop over the memory map are
-- a parameter, and Loader/Retry.antt says how many are enough.
--
-- Text.antt is lib/uefi/string.c, Printf.antt `__int_str` of lib/uefi/printf.c, and Format.antt the rest
-- of printf.c: Format/Directive.antt reads a conversion, Format/Convert.antt runs it, and vprintf is
-- the loop over a format. Format/Number.antt says what an integer conversion shows, Format/Pieces.antt
-- what a whole format shows. The loop over a format has one round more than the format has characters
-- (Format/Fuel.antt), a loop over a string as many as its array has, the loops over the digits 64, for
-- numbers of 64 bits, and the one that scales a double for `%e` 400, more than a double has decimal
-- exponents. Where such a loop does not end, the result is `none`.
--
-- State is passed from call to call: a function of mem.c takes a Kernel and returns the new one. What
-- the functions print is a list of messages in that state. A C `uint64_t` is a natural number, and
-- each operation that can wrap says so by `% 2 ^ 64`. Counted loops run by recursion on the rounds
-- that are left, so they need no fuel. The endless loop of _descAddMemSize and a division by zero are
-- the result `none` of the functions of Mem/Efi.antt; so is a row number that never passes its bound in
-- Console.antt. A wait for the mouse's controller gives up after 100000 rounds, as in the source.
--
-- Not modelled: the pixels that the messages of mem.c put into the frame buffer: the console is
-- modelled by itself, and the frame buffer is taken to lie outside the memory that the other
-- functions use; pointer arithmetic that passes the end of the address space, which C leaves
-- undefined; what kmain prints; in the loader, what it prints and the
-- information on the kernel's file, which it does not use. The assembly of both kernels, the rest of the
-- older one (its printf is an earlier form of the one that is modelled) and the copy of gnu-efi are not
-- modelled.
pub mod Base
pub mod Memory
pub mod Bitmap
pub mod Mem
pub mod Keyboard
pub mod Mouse
pub mod Io
pub mod Pic
pub mod Idt
pub mod Console
pub mod Interrupts
pub mod Paging
pub mod Text
pub mod Printf
pub mod Format
pub mod Entry
pub mod Legacy
pub mod Loader
