-- ===== src/Ndb/Tests.antt =====
-- A sealed page, and the header of a new file.
use pst_dev.Prelude.{ℕ, ◌^◌, ◌<◌, refl, arith, replicate, get_or, zero, suc}
use pst_dev.Bytes.{zeros}
use pst_dev.Bytes.Laws.{IsBytes-zeros}
use pst_dev.Ident.{Bid, Ib, Bref}
use pst_dev.Ndb.{WriterState, ptype_nbt, write_page_trailer, serialize_header}
use pst_dev.Ndb.Trailer.{IsSealed, signature_of, write_page_trailer-IsSealed}
use pst_dev.Ndb.Header.{IsWriterState, IsHeaderOf, serialize_header-IsHeaderOf}

abbrev page_bid : Bid
page_bid = record { value = 0x24 }

abbrev page_ib : Ib
page_ib = record { value = 0x4600 }

write_page_trailer-IsSealed_example :
    IsSealed
      (write_page_trailer (zeros 512) ptype_nbt page_bid page_ib)
      ptype_nbt
      (signature_of ptype_nbt page_bid.value page_ib.value)
      page_bid.value
write_page_trailer-IsSealed_example =
    write_page_trailer-IsSealed (zeros 512) ptype_nbt page_bid page_ib refl (IsBytes-zeros 512)
      (omega arith) (omega arith)

abbrev a_bref : Bref
a_bref = record { bid = page_bid; ib = page_ib }

abbrev a_state : WriterState
a_state = record {
  root = record {
    ib_file_eof = record { value = 0x42400 };
    ib_amap_last = record { value = 0x4400 };
    cb_amap_free = 0;
    cb_pmap_free = 0;
    bref_nbt = a_bref;
    bref_bbt = a_bref;
    f_amap_valid = 2;
  };
  bid_next_p = record { value = 0x28 };
  bid_next_b = record { value = 0x2c };
  dw_unique = 1;
  rgnid = replicate 32 0x8082;
  dw_reserved1 = 0;
  dw_reserved2 = 0;
  bid_unused = 0;
}

replicate_at : (n i : ℕ) → get_or (replicate n 0x8082) i 0 < 2 ^ 32
replicate_at zero i = omega arith
replicate_at (suc n) zero = omega arith
replicate_at (suc n) (suc i) = replicate_at n i

a_state_valid : IsWriterState a_state
a_state_valid = record {
  reserved1 = omega arith;
  reserved2 = omega arith;
  unused = omega arith;
  next_p = omega arith;
  next_b = omega arith;
  unique = omega arith;
  nids = replicate_at 32;
  eof = omega arith;
  amap_last = omega arith;
  amap_free = omega arith;
  pmap_free = omega arith;
  nbt_bid = omega arith;
  nbt_ib = omega arith;
  bbt_bid = omega arith;
  bbt_ib = omega arith;
  amap_valid = omega arith;
}

serialize_header-IsHeaderOf_example : IsHeaderOf a_state (serialize_header a_state)
serialize_header-IsHeaderOf_example = serialize_header-IsHeaderOf a_state a_state_valid
