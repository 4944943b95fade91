-- ===== src/Block/Tests.antt =====
-- Small blocks of each kind.
use pst_dev.Prelude.{ℕ, ◌+◌, ◌*◌, ◌%◌, ◌<◌, ◌≤◌, ◌≡◌, refl, arith, List, [], ◌∷◌, length}
use pst_dev.Bytes.{byte_at, read_u16, read_u32, read_u64}
use pst_dev.Bytes.Laws.{IsBytes}
use pst_dev.Crc.{crc32}
use pst_dev.Crc.Detect.{AllBytes-IsBytes}
use pst_dev.Cipher.{cyclic}
use pst_dev.Ident.{Bid, Ib}
use pst_dev.Ndb.{compute_block_sig}
use pst_dev.Block.{
  round_block_size, SlEntry, SiEntry, build_internal_block, build_data_block, build_x_block,
  build_xx_block, build_sl_block, build_si_block, read_block_trailer,
}
use pst_dev.Block.Seal.{round_block_size_lem}
use pst_dev.Block.Payload.{read_payload, read_payload-build_data_block}
use pst_dev.Block.Entries.{IsFramed, build_internal_block-IsFramed}
use pst_dev.Block.Lists.{build_sl_block_entry, build_si_block_entry, build_x_block_entry}

abbrev payload : List ℕ
payload = 0x10 ∷ 0xff ∷ 0x00 ∷ []

payload-IsBytes : IsBytes payload
payload-IsBytes = AllBytes-IsBytes payload (omega arith, (omega arith, (omega arith, tt)))

abbrev a_bid : Bid
a_bid = record { value = 0x1234 }

abbrev an_ib : Ib
an_ib = record { value = 0x4a00 }

round_block_size_lem_example :
    (round_block_size 100 % 64 ≡ 0)
    × (100 + 16 ≤ round_block_size 100)
    × (round_block_size 100 < 100 + 16 + 64)
round_block_size_lem_example = round_block_size_lem 100 (omega arith)

read_payload-build_data_block_example :
    (read_payload (build_data_block payload a_bid an_ib cyclic) cyclic ≡ payload)
    × (length (build_data_block payload a_bid an_ib cyclic) ≡ round_block_size (length payload))
    × ((read_block_trailer
          (build_data_block payload a_bid an_ib cyclic)
          (round_block_size (length payload))).dw_crc
        ≡ crc32 (build_data_block payload a_bid an_ib cyclic) (length payload))
read_payload-build_data_block_example =
    read_payload-build_data_block payload a_bid an_ib cyclic payload-IsBytes (omega arith)
      (omega arith)

build_internal_block-IsFramed_example :
    IsFramed
      (build_internal_block 2 0 1 0 payload a_bid an_ib)
      2
      0
      1
      0
      payload
      (compute_block_sig a_bid an_ib)
      a_bid.value
build_internal_block-IsFramed_example =
    build_internal_block-IsFramed 2 0 1 0 payload a_bid an_ib (omega arith, omega arith)
      (omega arith, omega arith) payload-IsBytes (omega arith) (omega arith)

abbrev sl : SlEntry
sl = record {
  nid = record { value = 0x692 };
  bid_data = record { value = 0x40 };
  bid_sub = record { value = 0 };
}

abbrev sls : List SlEntry
sls = sl ∷ []

build_sl_block_entry_example :
    (read_u16 (build_sl_block sls a_bid an_ib) 2 ≡ length sls)
    × (read_u64 (build_sl_block sls a_bid an_ib) (8 + (0 * 24 + 0)) ≡ sl.nid.value)
    × (read_u64 (build_sl_block sls a_bid an_ib) (8 + (0 * 24 + 8)) ≡ sl.bid_data.value)
    × (read_u64 (build_sl_block sls a_bid an_ib) (8 + (0 * 24 + 16)) ≡ sl.bid_sub.value)
build_sl_block_entry_example =
    build_sl_block_entry sls a_bid an_ib (omega arith) (omega arith) 0 sl refl
      (omega arith, omega arith, omega arith)

abbrev si : SiEntry
si = record { nid = record { value = 0x692 }; bid = record { value = 0x46 } }

abbrev sis : List SiEntry
sis = si ∷ []

build_si_block_entry_example :
    (read_u16 (build_si_block sis a_bid an_ib) 2 ≡ length sis)
    × (read_u64 (build_si_block sis a_bid an_ib) (8 + (0 * 16 + 0)) ≡ si.nid.value)
    × (read_u64 (build_si_block sis a_bid an_ib) (8 + (0 * 16 + 8)) ≡ si.bid.value)
build_si_block_entry_example =
    build_si_block_entry sis a_bid an_ib (omega arith) (omega arith) 0 si refl
      (omega arith, omega arith)

abbrev bids : List Bid
bids = a_bid ∷ a_bid ∷ []

build_x_block_entry_example :
    ((byte_at (build_x_block bids 9000 a_bid an_ib) 1 ≡ 1)
      × (read_u16 (build_x_block bids 9000 a_bid an_ib) 2 ≡ length bids)
      × (read_u32 (build_x_block bids 9000 a_bid an_ib) 4 ≡ 9000)
      × (read_u64 (build_x_block bids 9000 a_bid an_ib) (8 + 1 * 8) ≡ a_bid.value))
    × ((byte_at (build_xx_block bids 9000 a_bid an_ib) 1 ≡ 2)
        × (read_u16 (build_xx_block bids 9000 a_bid an_ib) 2 ≡ length bids)
        × (read_u32 (build_xx_block bids 9000 a_bid an_ib) 4 ≡ 9000)
        × (read_u64 (build_xx_block bids 9000 a_bid an_ib) (8 + 1 * 8) ≡ a_bid.value))
build_x_block_entry_example =
    build_x_block_entry bids 9000 a_bid an_ib 1 a_bid (omega arith) (omega arith) (omega arith) refl
      (omega arith)
