-- ===== src/Mem/Tests.antt =====
-- The page operations at small states.
use bbn_os.Base.{
  ℕ, ◌<◌, ◌≡◌, ◌⊎◌, refl, true, false, ◌&&◌, List, [], ◌∷◌, none, some, arith, if◌then◌else◌, not,
  every_below, test_of_every, ◌==◌,
}
use bbn_os.Base.Loop.{count_up}
use bbn_os.Bitmap.{get_val, set_val, test_bit, set_bit, clear_bit}
use bbn_os.Mem.State.{Kernel, get_free_mem_size, get_used_mem_size}
use bbn_os.Mem.Pages.{
  frame, lock_page, free_page, reserve_page, request_page, request_from, lock_pages, free_pages,
  reserve_pages,
}
use bbn_os.Mem.Spec
use bbn_os.Mem.Spec.{PageOp, reserve, free, lock, request}
use bbn_os.Mem.View.{frames, run}
use bbn_os.Mem.Run.{run_refines}
use bbn_os.Mem.Request.{Granted, request_page-first_fit}
use bbn_os.Mem.Account.{Balanced, run-Balanced}
use bbn_os.Mem.Range.{in_range, free_pages-lock_pages}

-- A bitmap of two bytes at 0x3000; the first three frames are taken.
abbrev small : Kernel
small = record {
  memory = λ a. if a == 0x3000 then 0xe0 else 0;
  mem_info = record {
    mem_bit_map = record { size = 2; buffer = 0x3000 };
    free_memory = 0xd000;
    reserved_memory = 0x1000;
    used_memory = 0x2000;
    mem_size_bytes = 0x10000;
  };
  initialized = true;
  log = [];
}

abbrev script : List PageOp
script = lock 0x5000 2 ∷ request ∷ reserve 0x3000 1 ∷ free 0x5000 1 ∷ request ∷ []

script_replies : (run script small).0 ≡ none ∷ some 0x3000 ∷ none ∷ none ∷ some 0x4000 ∷ []
unfolding run request_page request_from lock_pages free_pages reserve_pages lock_page free_page
    reserve_page count_up get_val set_val test_bit set_bit clear_bit
script_replies = refl

run_refines_example :
    let spec = Spec.run 24 16 script (frames small) in
    ((run script small).0 ≡ spec.0) × (frames (run script small).1 ≡ spec.1)
run_refines_example = run_refines script small

request_page-first_fit_example :
    ((k : ℕ) × (k < 16)
      × (frame small k ≡ false)
      × ((j : ℕ) → j < k → frame small j ≡ true)
      × Granted small k (request_page small))
    ⊎ (((j : ℕ) → j < 16 → frame small j ≡ true) × (request_page small ≡ (0, small)))
request_page-first_fit_example = request_page-first_fit small (omega arith)

run-Balanced_example : Balanced 24 (frames small) (frames (run script small).1)
run-Balanced_example = run-Balanced script small

clear_range : every_below 7 (λ j. not (in_range 4 3 j && frame small j)) ≡ true
unfolding every_below get_val test_bit
clear_range = refl

-- The frames 4, 5 and 6 are free.
free_from_four : (j : ℕ) → in_range 4 3 j ≡ true → frame small j ≡ false
free_from_four j h =
    ground (arith, test_of_every 7 (λ j. not (in_range 4 3 j && frame small j)) j clear_range)

free_pages-lock_pages_example :
    frames (free_pages (lock_pages small 0x4000 3) 0x4000 3) ≡ frames small
unfolding get_free_mem_size get_used_mem_size
free_pages-lock_pages_example =
    free_pages-lock_pages small 0x4000 3 (omega arith) (omega arith) (omega arith, omega arith)
      free_from_four
