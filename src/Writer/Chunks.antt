-- ===== src/Writer/Chunks.antt =====
-- src/writer.cpp: the two passes over data blocks, and the parts that `writeXBlockPst` makes.
use native.Mathlib.Nat.{mod-add-div', mod-lt}
use pst_dev.Prelude.{
  ℕ, zero, suc, ◌+◌, ◌-◌, ◌*◌, ◌^◌, ◌≤◌, ◌<◌, ◌≡◌, refl, ap, ◌∙◌, sym, arith, List, [], ◌∷◌, ◌++◌,
  true, false, Bool-cases, inl, inr, ◌==◌, length, length-drop, take, drop, take-append-drop, All,
}
use pst_dev.Prelude.Bits.{bit_and_ones}
use pst_dev.Bytes.{u64}
use pst_dev.Bytes.Laws.{IsBytes}
use pst_dev.Ident.{make_data}
use pst_dev.Cipher.{permute}
use pst_dev.Block.{round_block_size, build_data_block}
use pst_dev.Block.Payload.{read_payload-build_data_block}
use pst_dev.Writer.Layout.{place}
use pst_dev.Writer.Writes.{append_nil}
use pst_dev.Writer.Blocks.{
  sizes, provisional, data_blocks, data_bids, chunks_from, chunk_count, chunks,
}

unfoldable pub join : List (List ℕ) → List ℕ
join [] = []
join (c ∷ cs) = c ++ join cs

drop_nil : (k : ℕ) → drop {A = ℕ} k [] ≡ []
drop_nil zero = refl
drop_nil (suc k) = refl

drop-drop : (n m : ℕ) (xs : List ℕ) → drop m (drop n xs) ≡ drop (n + m) xs
drop-drop zero m xs = ap (λ k. drop k xs) (omega arith)
drop-drop (suc n) m [] = drop_nil m ∙ sym (drop_nil (suc n + m))
drop-drop (suc n) m (x ∷ xs) =
    let e : suc (n + m) ≡ suc n + m = omega arith in drop-drop n m xs ∙ ap (λ k. drop k (x ∷ xs)) e

take_whole : (n : ℕ) (xs : List ℕ) → n ≡ length xs → take n xs ≡ xs
take_whole zero [] h = refl
take_whole zero (x ∷ xs) h = absurd (omega arith)
take_whole (suc n) [] h = absurd (omega arith)
take_whole (suc n) (x ∷ xs) h = ap (λ t. x ∷ t) (take_whole n xs (omega arith))

next_multiple : (i k : ℕ) → (i + 1) * k ≡ i * k + k
next_multiple i k = grind arith

join-chunks_from :
    (left i n : ℕ) (payload : List ℕ) (chunk_size : ℕ)
    → i + suc left ≡ n
    → join (chunks_from (suc left) i n payload chunk_size) ≡ drop (i * chunk_size) payload
unfolding join chunks_from
join-chunks_from zero i n payload chunk_size h =
    let last : (i + 1 == n) ≡ true = ground arith in
    rw last (
      append_nil _
      ∙ take_whole (length payload - i * chunk_size) (drop (i * chunk_size) payload)
          (sym (length-drop (i * chunk_size) payload)))
join-chunks_from (suc left) i n payload chunk_size h =
    let inner : (i + 1 == n) ≡ false = ground arith in
    let rest =
      join-chunks_from left (i + 1) n payload chunk_size (omega arith)
      ∙ ap (λ k. drop k payload) (next_multiple i chunk_size)
      ∙ sym (drop-drop (i * chunk_size) chunk_size payload) in
    rw inner (
      ap (λ t. take chunk_size (drop (i * chunk_size) payload) ++ t) rest
      ∙ take-append-drop chunk_size (drop (i * chunk_size) payload))

length-take_le : (n : ℕ) (xs : List ℕ) → length (take n xs) ≤ n
length-take_le zero xs = omega arith
length-take_le (suc n) [] = omega arith
length-take_le (suc n) (x ∷ xs) = omega (arith, length-take_le n xs)

chunks_from-le :
    (left i n : ℕ) (payload : List ℕ) (chunk_size : ℕ)
    → i + left ≡ n
    → length payload ≤ n * chunk_size
    → All (λ c. length c ≤ chunk_size) (chunks_from left i n payload chunk_size)
unfolding chunks_from
chunks_from-le zero i n payload chunk_size h l = tt
chunks_from-le (suc left) i n payload chunk_size h l = elim (Bool-cases (i + 1 == n)) [
  | inl e ↦
      let last : n ≡ i + 1 = ground (arith, e) in
      let room : n * chunk_size ≡ i * chunk_size + chunk_size =
        ap (λ k. k * chunk_size) last ∙ next_multiple i chunk_size in
      let short =
        length-take_le (length payload - i * chunk_size) (drop (i * chunk_size) payload) in
      rw e (
        omega (arith, short, room, l),
        chunks_from-le left (i + 1) n payload chunk_size (omega arith) l,
      )
  | inr e ↦ rw e (
    length-take_le chunk_size (drop (i * chunk_size) payload),
    chunks_from-le left (i + 1) n payload chunk_size (omega arith) l,
  )
]

-- Enough parts, and one at least for a payload that is not empty.
chunk_count-room :
    (payload : List ℕ) (chunk_size : ℕ)
    → 0 < chunk_size
    → length payload ≤ chunk_count payload chunk_size * chunk_size
unfolding chunk_count
chunk_count-room payload chunk_size h =
    let total = length payload + chunk_size - 1 in
    omega (arith, mod-add-div' total chunk_size, mod-lt total h)

-- For parts of at least one byte, the parts that `writeXBlockPst` puts into data blocks make the
-- payload up again, one after the other, and none is larger than the size asked for.
pub join-chunks :
    (payload : List ℕ) (chunk_size : ℕ)
    → 0 < chunk_size
    → (join (chunks payload chunk_size) ≡ payload)
      × All (λ c. length c ≤ chunk_size) (chunks payload chunk_size)
unfolding chunks
join-chunks payload chunk_size h =
    let room = chunk_count-room payload chunk_size h in
    (
      whole (chunk_count payload chunk_size) room,
      chunks_from-le (chunk_count payload chunk_size) 0 _ payload chunk_size (omega arith) room,
    )
  where
    whole :
        (n : ℕ)
        → length payload ≤ n * chunk_size
        → join (chunks_from n 0 n payload chunk_size) ≡ payload
    whole zero l = unfold join chunks_from in no_bytes payload (omega arith)
      where
        no_bytes : (xs : List ℕ) → length xs ≡ 0 → [] ≡ xs
        no_bytes [] e = refl
        no_bytes (x ∷ xs) e = absurd (omega arith)
    whole (suc n) l =
        let z : 0 * chunk_size ≡ 0 = omega arith in
        join-chunks_from n 0 (suc n) payload chunk_size (omega arith) ∙ ap (λ k. drop k payload) z

-- The first pass of `writeBlocksPst` knows where the second one's blocks will stand: for payloads
-- of bytes of less than 65,536 each, the offsets by the sizes to come are those of the blocks that
-- are built, so the signatures in their trailers are those of their places.
pub provisional-place :
    (payloads : List (List ℕ)) (i cursor : ℕ)
    → All (λ p. IsBytes p × (length p < 2 ^ 16)) payloads
    → i + length payloads < 2 ^ 60
    → place cursor
        (sizes (data_blocks payloads (data_bids (length payloads) i) (provisional cursor payloads)))
      ≡ provisional cursor payloads
unfolding place sizes data_blocks data_bids provisional
provisional-place [] i cursor h l = refl
provisional-place (p ∷ ps) i cursor h l =
    let id : (make_data (i + 1)).value < 2 ^ 64 =
      unfold make_data in omega (arith, bit_and_ones 62 (i + 1)) in
    let size =
      (read_payload-build_data_block p (make_data (i + 1)) (record { value = cursor }) permute h.0.0
        h.0.1 id).1 in
    let next : u64 (
          cursor
          + length (build_data_block p (make_data (i + 1)) (record { value = cursor }) permute))
        ≡ u64 (cursor + round_block_size (length p)) =
      ap (λ k. u64 (cursor + k)) size in
    ap (λ t. cursor ∷ t)
      (ap
          (λ k. place k (
            sizes (
              data_blocks ps (data_bids (length ps) (i + 1))
                (provisional (u64 (cursor + round_block_size (length p))) ps))))
          next
        ∙ provisional-place ps (i + 1) (u64 (cursor + round_block_size (length p))) h.1
            (omega arith))
