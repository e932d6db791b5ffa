-- ===== src/Paging/Index.antt =====
-- The indices of an address, and the page they name.
mod Tests
use bbn_os.Base.{ℕ, ◌+◌, ◌*◌, ◌/◌, ◌%◌, ◌^◌, ◌<◌, ◌≡◌, refl, ap, arith}
use bbn_os.Base.{bit_and}
use bbn_os.Base.Bits.{bit_and-low}
use bbn_os.Paging.{PageMapIndexer, init_page_map_indexer}

-- Each index is that of an entry in a table of 512.
abbrev pub IsInTables : PageMapIndexer → Type 0
IsInTables t = (t.pdp_i < 512) × (t.pd_i < 512) × (t.pt_i < 512) × (t.p_i < 512)

-- The number of the page that the four indices lead to.
abbrev pub page_number : PageMapIndexer → ℕ
page_number t = ((t.pdp_i * 512 + t.pd_i) * 512 + t.pt_i) * 512 + t.p_i

-- The indices of an address lie in their tables, and they name the page of its low 48 bits.
pub init_page_map_indexer-IsInTables :
    (virtual_address : ℕ)
    → let t = init_page_map_indexer virtual_address in
      IsInTables t × (page_number t ≡ virtual_address % 2 ^ 48 / 2 ^ 12)
unfolding init_page_map_indexer
init_page_map_indexer-IsInTables a =
    let p = bit_and-low 9 (a / 2 ^ 12) in
    let pt = bit_and-low 9 (a / 2 ^ 12 / 2 ^ 9) in
    let pd = bit_and-low 9 (a / 2 ^ 12 / 2 ^ 9 / 2 ^ 9) in
    let pdp = bit_and-low 9 (a / 2 ^ 12 / 2 ^ 9 / 2 ^ 9 / 2 ^ 9) in
    (
      (omega (arith, pdp), omega (arith, pd), omega (arith, pt), omega (arith, p)),
      omega (arith, p, pt, pd, pdp),
    )

-- Two addresses below 2 ^ 48 have the same indices only if they lie in the same page.
pub init_page_map_indexer_same_page :
    (a b : ℕ)
    → a < 2 ^ 48
    → b < 2 ^ 48
    → init_page_map_indexer a ≡ init_page_map_indexer b
    → a / 2 ^ 12 ≡ b / 2 ^ 12
init_page_map_indexer_same_page a b ha hb same = omega (
  arith,
  (init_page_map_indexer-IsInTables a).1,
  (init_page_map_indexer-IsInTables b).1,
  ap (λ (t : PageMapIndexer). page_number t) same,
)
