-- ===== src/Cipher/Shape.antt =====
-- src/encoding.cpp: the size, the range and the reach of an encoding.
use pst_dev.Prelude.{ℕ, zero, suc, ◌+◌, ◌<◌, ◌≡◌, refl, ap, arith, List, [], ◌∷◌, length, drop}
use pst_dev.Bytes.{u16}
use pst_dev.Bytes.Laws.{IsBytes}
use pst_dev.Cipher.{
  CryptMethod, crypt_none, permute, cyclic, encode_permute, cyclic_byte, cyclic_loop, encode_cyclic,
  encode_block,
}
use pst_dev.Cipher.Tables.{mpbb_r-lt}

length-encode_permute : (buf : List ℕ) (n : ℕ) → length (encode_permute buf n) ≡ length buf
unfolding encode_permute
length-encode_permute buf zero = refl
length-encode_permute [] (suc n) = refl
length-encode_permute (b ∷ bs) (suc n) = ap suc (length-encode_permute bs n)

length-cyclic_loop : (n w : ℕ) (buf : List ℕ) → length (cyclic_loop n w buf) ≡ length buf
unfolding cyclic_loop
length-cyclic_loop zero w buf = refl
length-cyclic_loop (suc n) w [] = refl
length-cyclic_loop (suc n) w (b ∷ bs) = ap suc (length-cyclic_loop n (u16 (w + 1)) bs)

pub length-encode_block :
    (buf : List ℕ) (n : ℕ) (method : CryptMethod) (key : ℕ)
    → length (encode_block buf n method key) ≡ length buf
unfolding encode_block encode_cyclic
length-encode_block buf n crypt_none key = refl
length-encode_block buf n permute key = length-encode_permute buf n
length-encode_block buf n cyclic key = length-cyclic_loop n _ buf

drop-encode_permute : (buf : List ℕ) (n : ℕ) → drop n (encode_permute buf n) ≡ drop n buf
unfolding encode_permute
drop-encode_permute buf zero = refl
drop-encode_permute [] (suc n) = refl
drop-encode_permute (b ∷ bs) (suc n) = drop-encode_permute bs n

drop-cyclic_loop : (n w : ℕ) (buf : List ℕ) → drop n (cyclic_loop n w buf) ≡ drop n buf
unfolding cyclic_loop
drop-cyclic_loop zero w buf = refl
drop-cyclic_loop (suc n) w [] = refl
drop-cyclic_loop (suc n) w (b ∷ bs) = drop-cyclic_loop n (u16 (w + 1)) bs

pub drop-encode_block :
    (buf : List ℕ) (n : ℕ) (method : CryptMethod) (key : ℕ)
    → drop n (encode_block buf n method key) ≡ drop n buf
unfolding encode_block encode_cyclic
drop-encode_block buf n crypt_none key = refl
drop-encode_block buf n permute key = drop-encode_permute buf n
drop-encode_block buf n cyclic key = drop-cyclic_loop n _ buf

IsBytes-cons : {b : ℕ} (bs : List ℕ) → b < 256 → IsBytes bs → IsBytes (b ∷ bs)
IsBytes-cons bs h t zero = h
IsBytes-cons bs h t (suc i) = t i

IsBytes-encode_permute : (buf : List ℕ) (n : ℕ) → IsBytes buf → IsBytes (encode_permute buf n)
unfolding encode_permute
IsBytes-encode_permute buf zero bytes = bytes
IsBytes-encode_permute [] (suc n) bytes = bytes
IsBytes-encode_permute (b ∷ bs) (suc n) bytes =
    IsBytes-cons _ (mpbb_r-lt b (bytes 0)) (IsBytes-encode_permute bs n (λ i. bytes (suc i)))

IsBytes-cyclic_loop : (n w : ℕ) (buf : List ℕ) → IsBytes buf → IsBytes (cyclic_loop n w buf)
unfolding cyclic_loop
IsBytes-cyclic_loop zero w buf bytes = bytes
IsBytes-cyclic_loop (suc n) w [] bytes = bytes
IsBytes-cyclic_loop (suc n) w (b ∷ bs) bytes =
    IsBytes-cons _ (unfold cyclic_byte in omega arith)
      (IsBytes-cyclic_loop n (u16 (w + 1)) bs (λ i. bytes (suc i)))

pub IsBytes-encode_block :
    (buf : List ℕ) (n : ℕ) (method : CryptMethod) (key : ℕ)
    → IsBytes buf
    → IsBytes (encode_block buf n method key)
unfolding encode_block encode_cyclic
IsBytes-encode_block buf n crypt_none key bytes = bytes
IsBytes-encode_block buf n permute key bytes = IsBytes-encode_permute buf n bytes
IsBytes-encode_block buf n cyclic key bytes = IsBytes-cyclic_loop n _ buf bytes
