-- ===== src/Paging/Tests.antt =====
-- Four tables at 0x10000, 0x20000, 0x30000 and 0x40000.
use nekrnl.Prelude.{ℕ, ◌≡◌, refl, true, ◌==◌, if◌then◌else◌, arith}
use nekrnl.Pmm.{Frames}
use nekrnl.Paging.Identity.{fill_directory, fill_directory-read_directory}
use nekrnl.Paging.{read_directory, get_page_addr, map_page_in, unmap_page}
use nekrnl.Paging.Walk.{HasTables}
use nekrnl.Paging.Mapping.{map_page_in-get_page_addr, map_page_in-unmap_page}

abbrev tables : ℕ → ℕ
tables a =
    if a == 0x10000
    then 0x20003
    else if a == 0x20000
    then 0x30003
    else if a == 0x30000
    then 0x40003
    else 0

abbrev state : Frames
state = record { base = 0; cursor = 0; end = 0; free_head = 0; free = 0; used = 0; mem = tables }

tables-HasTables : HasTables 0x10000 0x5123 0x20000 0x30000 0x40000 tables
tables-HasTables = record {
  root_pos = omega arith;
  to_t3 = record { present = refl; small = refl; table_eq = refl };
  to_t2 = record { present = refl; small = refl; table_eq = refl };
  to_t1 = record { present = refl; small = refl; table_eq = refl };
  apart_43 = omega arith;
  apart_42 = omega arith;
  apart_41 = omega arith;
  apart_32 = omega arith;
  apart_31 = omega arith;
  apart_21 = omega arith;
}

map_page_in-get_page_addr_example :
    ((map_page_in 0x10000 0x5123 0x7000 6 state).0 ≡ true)
    × (get_page_addr (map_page_in 0x10000 0x5123 0x7000 6 state).1.mem 0x10000 0x5123 ≡ 0x7123)
map_page_in-get_page_addr_example =
    map_page_in-get_page_addr 0x10000 0x5123 0x7000 6 0x20000 0x30000 0x40000 state tables-HasTables
      (omega arith) refl (omega arith) refl

map_page_in-unmap_page_example :
    ((unmap_page 0x10000 0x5123 (map_page_in 0x10000 0x5123 0x7000 6 state).1).0 ≡ 0x7000)
    × (get_page_addr
          (unmap_page 0x10000 0x5123 (map_page_in 0x10000 0x5123 0x7000 6 state).1).1.mem
          0x10000
          0x5123
        ≡ 0)
map_page_in-unmap_page_example =
    map_page_in-unmap_page 0x10000 0x5123 0x7000 6 0x20000 0x30000 0x40000 state tables-HasTables
      (omega arith) refl (omega arith) refl

-- The page directory of the second gigabyte, at 0x50000.
fill_directory-read_directory_example :
    read_directory (fill_directory 512 0 0x50000 0x40000000 tables) 0x50000 0x40321678 ≡ 0x40321678
fill_directory-read_directory_example =
    fill_directory-read_directory 0x50000 0x40000000 0x40321678 tables refl (omega arith)
      (omega arith) (omega arith)
