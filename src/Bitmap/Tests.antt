-- ===== src/Bitmap/Tests.antt =====
-- The bitmap at concrete memories.
use bbn_os.Base.{◌≡◌, refl, true, false, arith}
use bbn_os.Memory.{Memory, load8}
use bbn_os.Bitmap.{BitMap, get_val, set_val, test_bit, set_bit, clear_bit}
use bbn_os.Bitmap.Laws.{get_val-set_val, set_val-past_end}

-- Every byte is 0x55.
abbrev striped : Memory
striped a = 0x55

abbrev two_bytes : BitMap
two_bytes = record { size = 2; buffer = 100 }

reads : (get_val striped two_bytes 0 ≡ false) × (get_val striped two_bytes 9 ≡ true)
unfolding get_val test_bit
reads = (refl, refl)

set_val_run : load8 (set_val striped two_bytes 8 true).1 101 ≡ 0xd5
unfolding set_val set_bit clear_bit
set_val_run = refl

get_val-set_val_example : get_val (set_val striped two_bytes 9 false).1 two_bytes 9 ≡ false
get_val-set_val_example = get_val-set_val striped two_bytes 9 false 9 (omega arith)

set_val-past_end_example :
    ((set_val striped two_bytes 16 true).0 ≡ true)
    × (load8 (set_val striped two_bytes 16 true).1 102 ≡ 0xd5)
unfolding set_bit clear_bit
set_val-past_end_example = set_val-past_end striped two_bytes 0 true (omega arith)
