-- ===== src/Block/Payload.antt =====
-- The payload of a data block, from `buildDataBlock` of src/block.cpp to a reader of the block.
use pst_dev.Prelude.{
  ℕ, zero, suc, ◌+◌, ◌-◌, ◌%◌, ◌^◌, ◌≤◌, ◌<◌, ◌≡◌, refl, ap, ◌∙◌, sym, arith, List, [], ◌∷◌, length,
  take, bit_and, length-replicate,
}
use pst_dev.Bytes.{u16, u32, zeros}
use pst_dev.Bytes.Laws.{IsBytes, IsBytes-zeros}
use pst_dev.Bytes.Copy.{length-write_bytes, IsBytes-write_bytes, slice-write_bytes}
use pst_dev.Ident.{Bid, Ib}
use pst_dev.Crc.{crc32}
use pst_dev.Cipher.{
  CryptMethod, encode_block, encode_permute, encode_cyclic, cyclic_loop, crypt_none, permute,
  cyclic, mpbb_r, cyclic_byte,
}
use pst_dev.Cipher.Decode.{decode_block, decode_block-encode_block}
use pst_dev.Cipher.Shape.{length-encode_block, IsBytes-encode_block}
use pst_dev.Ndb.{compute_block_sig}
use pst_dev.Block.{
  round_block_size, seal_block, encrypted_payload, build_data_block, BlockTrailerView,
  read_block_trailer,
}
use pst_dev.Block.Seal.{
  round_block_size_lem, length-seal_block, slice-seal_block, read_block_trailer-seal_block,
}

take-encode_permute :
    (buf : List ℕ) (n : ℕ) → take n (encode_permute buf n) ≡ encode_permute (take n buf) n
unfolding encode_permute
take-encode_permute buf zero = refl
take-encode_permute [] (suc n) = refl
take-encode_permute (b ∷ bs) (suc n) = ap (◌∷◌ (mpbb_r b)) (take-encode_permute bs n)

take-cyclic_loop :
    (n w : ℕ) (buf : List ℕ) → take n (cyclic_loop n w buf) ≡ cyclic_loop n w (take n buf)
unfolding cyclic_loop
take-cyclic_loop zero w buf = refl
take-cyclic_loop (suc n) w [] = refl
take-cyclic_loop (suc n) w (b ∷ bs) =
    ap (◌∷◌ (cyclic_byte w b)) (take-cyclic_loop n (u16 (w + 1)) bs)

take-encode_block :
    (buf : List ℕ) (n : ℕ) (method : CryptMethod) (key : ℕ)
    → take n (encode_block buf n method key) ≡ encode_block (take n buf) n method key
unfolding encode_block encode_cyclic
take-encode_block buf n crypt_none key = refl
take-encode_block buf n permute key = take-encode_permute buf n
take-encode_block buf n cyclic key = take-cyclic_loop n _ buf

module _ (payload : List ℕ) (bid : Bid) (method : CryptMethod) (bytes : IsBytes payload)
    (small : length payload < 2 ^ 64 - 80) where
  off : ℕ
  off = round_block_size (length payload) - 16

  room : (length payload ≤ off) × (off + 16 ≡ round_block_size (length payload))
  unfolding off
  room =
      let r = round_block_size_lem (length payload) small in
      (omega (arith, r.1), omega (arith, r.1))

  length-encrypted_payload : length (encrypted_payload payload bid method) ≡ off + 16
  unfolding encrypted_payload
  length-encrypted_payload =
      length-encode_block _ (length payload) method _
      ∙ length-write_bytes payload (zeros (round_block_size (length payload))) 0
      ∙ length-replicate (round_block_size (length payload)) 0
      ∙ sym room.1

  IsBytes-encrypted_payload : IsBytes (encrypted_payload payload bid method)
  unfolding encrypted_payload
  IsBytes-encrypted_payload =
      IsBytes-encode_block _ (length payload) method _
        (IsBytes-write_bytes payload _ 0 bytes (IsBytes-zeros (round_block_size (length payload))))

  take-encrypted_payload :
      take (length payload) (encrypted_payload payload bid method)
      ≡ encode_block payload (length payload) method (u32 (bit_and bid.value 0xffffffff))
  unfolding encrypted_payload
  take-encrypted_payload =
      take-encode_block _ (length payload) method _
      ∙ ap
          (λ (t : List ℕ).
            encode_block t (length payload) method (u32 (bit_and bid.value 0xffffffff)))
          (slice-write_bytes payload (zeros (round_block_size (length payload))) 0 (
            rw (length-replicate {A = ℕ} (round_block_size (length payload)) 0)
              (let r = round_block_size_lem (length payload) small in omega (arith, r.1))))

  module _ (ib : Ib) (id : bid.value < 2 ^ 64) where
    abbrev block : List ℕ
    block = build_data_block payload bid ib method

    as_seal :
        block ≡ seal_block (encrypted_payload payload bid method) (off + 16) (length payload) bid ib
    unfolding build_data_block
    as_seal = rw room.1 refl

    data_take :
        take (length payload) block
        ≡ encode_block payload (length payload) method (u32 (bit_and bid.value 0xffffffff))
    data_take = rw as_seal (
        slice-seal_block (encrypted_payload payload bid method) off (length payload) bid ib
          length-encrypted_payload IsBytes-encrypted_payload room.0 id 0 (length payload)
          (omega (arith, room.0))
        ∙ take-encrypted_payload)

    data_length : length block ≡ round_block_size (length payload)
    data_length = rw as_seal (
        length-seal_block (encrypted_payload payload bid method) off (length payload) bid ib
          length-encrypted_payload IsBytes-encrypted_payload room.0 id
        ∙ room.1)

    data_trailer : read_block_trailer block (round_block_size (length payload)) ≡ record {
      cb = length payload % 2 ^ 16;
      w_sig = compute_block_sig bid ib;
      dw_crc = crc32 block (length payload);
      bid = bid.value;
    }
    data_trailer =
        let e : round_block_size (length payload) ≡ off + 16 = sym room.1 in
        rw (as_seal, e)
          (read_block_trailer-seal_block (encrypted_payload payload bid method) off (length payload)
            bid ib length-encrypted_payload IsBytes-encrypted_payload room.0 id)

-- What a reader makes of a block with a key: the body of as many bytes as the trailer counts,
-- decoded.
unfoldable pub read_payload : List ℕ → CryptMethod → List ℕ
read_payload block method =
    let t = read_block_trailer block (length block) in
    decode_block (take t.cb block) t.cb method (u32 (bit_and t.bid 0xffffffff))

-- A data block of a payload of less than 65,536 bytes gives the payload back, for each of the
-- three methods: its trailer counts the bytes and names the key, and they decode. Its size is
-- what `roundBlockSize` tells, and its checksum is that of the encoded bytes.
pub read_payload-build_data_block :
    (payload : List ℕ) (bid : Bid) (ib : Ib) (method : CryptMethod)
    → IsBytes payload
    → length payload < 2 ^ 16
    → bid.value < 2 ^ 64
    → (read_payload (build_data_block payload bid ib method) method ≡ payload)
      × (length (build_data_block payload bid ib method) ≡ round_block_size (length payload))
      × ((read_block_trailer
            (build_data_block payload bid ib method)
            (round_block_size (length payload))).dw_crc
          ≡ crc32 (build_data_block payload bid ib method) (length payload))
unfolding read_payload
read_payload-build_data_block payload bid ib method bytes small id =
    let small' : length payload < 2 ^ 64 - 80 = omega arith in
    let e = data_length payload bid method bytes small' ib id in
    let t = data_trailer payload bid method bytes small' ib id in
    let n : length payload % 2 ^ 16 ≡ length payload = omega arith in
    (
      rw (e, t, n, data_take payload bid method bytes small' ib id)
          (decode_block-encode_block payload (length payload) method _ bytes),
      e,
      ap (λ (v : BlockTrailerView). v.dw_crc) t,
    )
