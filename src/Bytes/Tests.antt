-- ===== src/Bytes/Tests.antt =====
-- The round trip of the helpers, on a buffer of ten bytes.
use pst_dev.Prelude.{◌≡◌, arith, inl, length}
use pst_dev.Bytes.{byte_at, zeros, write_u64, read_u64}
use pst_dev.Bytes.Laws.{IsBytes, IsBytes-zeros}
use pst_dev.Bytes.Words.{read_u64-write_u64_frame}

read_u64-write_u64_frame_example :
    (read_u64 (write_u64 (zeros 10) 1 0x1122334455667788) 1 ≡ 0x1122334455667788)
    × (byte_at (write_u64 (zeros 10) 1 0x1122334455667788) 0 ≡ byte_at (zeros 10) 0)
    × (length (write_u64 (zeros 10) 1 0x1122334455667788) ≡ length (zeros 10))
    × IsBytes (write_u64 (zeros 10) 1 0x1122334455667788)
read_u64-write_u64_frame_example =
    read_u64-write_u64_frame (zeros 10) 1 0x1122334455667788 0 (IsBytes-zeros 10) (omega arith)
      (omega arith) (inl (omega arith))
