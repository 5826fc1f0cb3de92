-- ===== src/Flasher/Sdb.antt =====
-- The table `sdb_header` of software/tools/vme-flasher/svec-flasher.c.
use svec.Base.{ℕ, List, [], ◌∷◌, get_elem?, some, none}
use svec.Core.{Buffer}

abbrev pub sdb_header_bytes : List ℕ
sdb_header_bytes =
    0x53 ∷ 0x44 ∷ 0x42 ∷ 0x2d ∷ 0x00 ∷ 0x03 ∷ 0x01 ∷ 0x01 ∷ 0x00 ∷ 0x00 ∷ 0x00 ∷ 0x00 ∷ 0x00 ∷ 0x60
    ∷ 0x00 ∷ 0x00 ∷ 0x00 ∷ 0x00 ∷ 0x00 ∷ 0x00 ∷ 0x00 ∷ 0x60 ∷ 0x00 ∷ 0xc0 ∷ 0x00 ∷ 0x00 ∷ 0x00
    ∷ 0x00 ∷ 0x00 ∷ 0x00 ∷ 0xce ∷ 0x42 ∷ 0x00 ∷ 0x00 ∷ 0x5f ∷ 0xec ∷ 0x00 ∷ 0x00 ∷ 0x00 ∷ 0x01
    ∷ 0x00 ∷ 0x00 ∷ 0x00 ∷ 0x00 ∷ 0x2e ∷ 0x20 ∷ 0x20 ∷ 0x20 ∷ 0x20 ∷ 0x20 ∷ 0x20 ∷ 0x20 ∷ 0x20
    ∷ 0x20 ∷ 0x20 ∷ 0x20 ∷ 0x20 ∷ 0x20 ∷ 0x20 ∷ 0x20 ∷ 0x20 ∷ 0x20 ∷ 0x20 ∷ 0x00 ∷ 0x00 ∷ 0x00
    ∷ 0x00 ∷ 0x00 ∷ 0x00 ∷ 0x00 ∷ 0x00 ∷ 0x04 ∷ 0x00 ∷ 0x00 ∷ 0x00 ∷ 0x00 ∷ 0x00 ∷ 0x10 ∷ 0x00
    ∷ 0x00 ∷ 0x00 ∷ 0x00 ∷ 0x00 ∷ 0x00 ∷ 0x00 ∷ 0x2c ∷ 0x13 ∷ 0xe9 ∷ 0x46 ∷ 0x69 ∷ 0x6c ∷ 0x65
    ∷ 0x44 ∷ 0x61 ∷ 0x74 ∷ 0x61 ∷ 0x61 ∷ 0x66 ∷ 0x70 ∷ 0x67 ∷ 0x00 ∷ 0x00 ∷ 0x00 ∷ 0x01 ∷ 0x00
    ∷ 0x00 ∷ 0x00 ∷ 0x00 ∷ 0x61 ∷ 0x66 ∷ 0x70 ∷ 0x67 ∷ 0x61 ∷ 0x2e ∷ 0x62 ∷ 0x69 ∷ 0x6e ∷ 0x20
    ∷ 0x20 ∷ 0x20 ∷ 0x20 ∷ 0x20 ∷ 0x20 ∷ 0x20 ∷ 0x20 ∷ 0x20 ∷ 0x20 ∷ 0x01 ∷ 0x00 ∷ 0x00 ∷ 0x00
    ∷ 0x00 ∷ 0x00 ∷ 0x00 ∷ 0x00 ∷ 0x04 ∷ 0x00 ∷ 0x00 ∷ 0x00 ∷ 0x00 ∷ 0x00 ∷ 0x00 ∷ 0x00 ∷ 0x00
    ∷ 0x00 ∷ 0x00 ∷ 0x00 ∷ 0x00 ∷ 0x00 ∷ 0x05 ∷ 0x33 ∷ 0x93 ∷ 0x46 ∷ 0x69 ∷ 0x6c ∷ 0x65 ∷ 0x44
    ∷ 0x61 ∷ 0x74 ∷ 0x61 ∷ 0x62 ∷ 0x6f ∷ 0x6f ∷ 0x74 ∷ 0x00 ∷ 0x00 ∷ 0x00 ∷ 0x01 ∷ 0x00 ∷ 0x00
    ∷ 0x00 ∷ 0x00 ∷ 0x62 ∷ 0x6f ∷ 0x6f ∷ 0x74 ∷ 0x6c ∷ 0x64 ∷ 0x72 ∷ 0x2e ∷ 0x62 ∷ 0x69 ∷ 0x6e
    ∷ 0x20 ∷ 0x20 ∷ 0x20 ∷ 0x20 ∷ 0x20 ∷ 0x20 ∷ 0x20 ∷ 0x20 ∷ 0x01 ∷ []

abbrev pub byte_at : List ℕ → ℕ → ℕ
byte_at xs i = elim (get_elem? xs i) [ some b ↦ b | none ↦ 0 ]

-- The size of the table is 192, less than a page, so that no byte behind it is read.
unfoldable pub sdb_header : Buffer
sdb_header = record { mem = byte_at sdb_header_bytes; size = 192 }
