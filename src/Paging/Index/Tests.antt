-- ===== src/Paging/Index/Tests.antt =====
-- An address in the upper half of the 48 bits.
use bbn_os.Base.{◌≡◌}
use bbn_os.Paging.{init_page_map_indexer}
use bbn_os.Paging.Index.{IsInTables, page_number, init_page_map_indexer-IsInTables}

init_page_map_indexer-IsInTables_example :
    let t = init_page_map_indexer 0x800000201ABC in IsInTables t × (page_number t ≡ 0x800000201)
init_page_map_indexer-IsInTables_example = init_page_map_indexer-IsInTables 0x800000201ABC
