-- ===== src/Transfer/Tests.antt =====
-- Runs of the transfers at concrete inputs.
use ppi_chi_nettest.Base.{◌+◌, ◌≡◌, refl, [], ◌∷◌, map, some, arith}
use ppi_chi_nettest.Base.Text.{codes}
use ppi_chi_nettest.Archive.LittleEndian.{little_endian}
use ppi_chi_nettest.Transfer.{DataTransfer, SegmentedTransfer, Memory, serialize_segments}
use ppi_chi_nettest.Transfer.Laws.{without_pointer, serialize_segments-load}

abbrev one : DataTransfer
one = record { flags = 3; data_ptr = 4096; data_size = 10 }

abbrev two : DataTransfer
two = record { flags = 1; data_ptr = 8192; data_size = 20 }

abbrev pair : SegmentedTransfer
pair = record { ret_node = 2; bulk = one ∷ two ∷ []; md = codes "md" }

abbrev empty : SegmentedTransfer
empty = record { ret_node = 0; bulk = []; md = [] }

abbrev heap : Memory
heap = record { address = λ n. 16 + n; calls = 0; live = []; bytes = λ p. [] }

serialize_segments-load_example :
    (serialize_segments little_endian).load empty ((serialize_segments little_endian).save pair [])
    ≡ some (record pair { bulk = map (without_pointer 0) pair.bulk }, [])
serialize_segments-load_example =
    serialize_segments-load little_endian pair empty [] (omega arith) refl
