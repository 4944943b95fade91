-- ===== src/Graph.antt =====
-- include/pstwriter/graph_convert.hpp and src/graph_convert.cpp: the text conversions. A string is the list of its bytes.
pub mod Utf8
mod Tests
use pst_dev.Prelude.{
  ℕ, zero, suc, ◌+◌, ◌-◌, ◌*◌, ◌/◌, ◌%◌, ◌^◌, ◌<◌, List, [], ◌∷◌, ◌++◌, bit_and, bit_or, bit_xor,
  Bool, true, false, ◌==◌, ◌||◌, ◌&&◌, not, ltb, leb, if◌then◌else◌, length, drop, take, map,
  Option, none, some,
}
use pst_dev.Bytes.{◌>>>◌, ◌<<<◌, byte_at, u8, u32, u64, zeros, write_bytes, write_u64}

-- The exceptions of std::invalid_argument. `out_of_fuel` is no exception of the source.
pub data GraphError : Type 0 where
  truncated : GraphError
  bad_continuation : GraphError
  bad_lead : GraphError
  lone_surrogate : GraphError
  out_of_range : GraphError
  invalid_char : GraphError
  out_of_fuel : GraphError

pub data Converted {ℓ} (A : Type ℓ) : Type ℓ where
  ok : A → Converted A
  throw : GraphError → Converted A

infixl 5 ◌>>=◌
abbrev pub ◌>>=◌ {ℓ κ} : {A : Type ℓ} {B : Type κ} → Converted A → (A → Converted B) → Converted B
ok a >>= f = f a
throw e >>= f = throw e

-- `appendU16Le`, as the bytes that it appends.
unfoldable pub u16_le : ℕ → List ℕ
u16_le u = u8 (bit_and u 0xff) ∷ u8 (bit_and (u >>> 8) 0xff) ∷ []

abbrev pub is_continuation : ℕ → Bool
is_continuation b = bit_and b 0xc0 == 0x80

-- The code point at the start of `s`, which is not empty, and how many bytes it takes.
unfoldable pub decode_at : List ℕ → Converted (ℕ × ℕ)
decode_at s =
    let b0 = byte_at s 0 in
    let b1 = byte_at s 1 in
    let b2 = byte_at s 2 in
    let b3 = byte_at s 3 in
    if bit_and b0 0x80 == 0
    then ok (b0, 1)
    else if bit_and b0 0xe0 == 0xc0
    then (if leb (length s) 1
        then throw truncated
        else if not (is_continuation b1)
        then throw bad_continuation
        else ok (bit_or (bit_and b0 0x1f <<< 6) (bit_and b1 0x3f), 2))
    else if bit_and b0 0xf0 == 0xe0
    then (if leb (length s) 2
        then throw truncated
        else if not (is_continuation b1) || not (is_continuation b2)
        then throw bad_continuation
        else ok
            (bit_or (bit_or (bit_and b0 0x0f <<< 12) (bit_and b1 0x3f <<< 6)) (bit_and b2 0x3f), 3))
    else if bit_and b0 0xf8 == 0xf0
    then (if leb (length s) 3
        then throw truncated
        else if not (is_continuation b1) || (not (is_continuation b2) || not (is_continuation b3))
        then throw bad_continuation
        else ok (
          bit_or
              (bit_or (bit_or (bit_and b0 0x07 <<< 18) (bit_and b1 0x3f <<< 12))
                (bit_and b2 0x3f <<< 6))
              (bit_and b3 0x3f),
          4,
        ))
    else throw bad_lead

-- The bytes that a code point becomes.
unfoldable pub emit : ℕ → Converted (List ℕ)
emit cp =
    let v = cp - 0x10000 in
    if leb cp 0xffff
    then (if leb 0xd800 cp && leb cp 0xdfff then throw lone_surrogate else ok (u16_le cp))
    else if leb cp 0x10ffff
    then ok (u16_le (bit_or 0xd800 (v >>> 10)) ++ u16_le (bit_or 0xdc00 (bit_and v 0x3ff)))
    else throw out_of_range

-- `while (i < s.size())` over what is left of the string.
unfoldable pub utf8_loop : ℕ → List ℕ → List ℕ → Converted (List ℕ)
utf8_loop fuel [] out = ok out
utf8_loop zero (b ∷ bs) out = throw out_of_fuel
utf8_loop (suc fuel) (b ∷ bs) out = decode_at (b ∷ bs) >>= λ p.
    (emit p.0 >>= λ units. utf8_loop fuel (drop p.1 (b ∷ bs)) (out ++ units))

-- Every round takes a byte at least.
unfoldable pub utf8_to_utf16le : List ℕ → Converted (List ℕ)
unfolding utf8_loop
utf8_to_utf16le s = utf8_loop (length s) s []

-- `b64Val`; `none` is its -1.
unfoldable pub b64_val : ℕ → Option ℕ
b64_val c =
    if leb 65 c && leb c 90
    then some (c - 65)
    else if leb 97 c && leb c 122
    then some (26 + (c - 97))
    else if leb 48 c && leb c 57
    then some (52 + (c - 48))
    else if c == 43
    then some 62
    else if c == 47
    then some 63
    else none

unfoldable pub is_space : ℕ → Bool
is_space c = c == 32 || (c == 13 || (c == 10 || c == 9))

-- The loop that strips whitespace.
unfoldable pub strip_spaces : List ℕ → List ℕ
strip_spaces [] = []
strip_spaces (c ∷ cs) = if is_space c then strip_spaces cs else c ∷ strip_spaces cs

-- `while (!s.empty() && s.back() == '=') s.pop_back()`, from the back.
unfoldable pub keep_before : ℕ → List ℕ → List ℕ
keep_before c [] = if c == 61 then [] else c ∷ []
keep_before c (d ∷ ds) = c ∷ d ∷ ds

unfoldable pub drop_padding : List ℕ → List ℕ
unfolding keep_before
drop_padding [] = []
drop_padding (c ∷ cs) = keep_before c (drop_padding cs)

-- The loop over the characters, with `accum`, `bits` and the bytes so far.
unfoldable pub b64_loop : List ℕ → ℕ → ℕ → List ℕ → Converted (List ℕ)
b64_loop [] accum bits out = ok out
b64_loop (c ∷ cs) accum bits out = elim (b64_val c) [
  | none ↦ throw invalid_char
  | some v ↦
      let accum' = bit_or (u32 (accum <<< 6)) v in
      let left = if leb 8 (bits + 6) then bits + 6 - 8 else bits + 6 in
      b64_loop cs accum' left
        (if leb 8 (bits + 6) then out ++ (bit_and (accum' >>> left) 0xff ∷ []) else out)
]

unfoldable pub base64_decode_binary : List ℕ → Converted (List ℕ)
base64_decode_binary b64 = b64_loop (drop_padding (strip_spaces b64)) 0 0 []

unfoldable pub one_off_provider_uid : List ℕ
one_off_provider_uid =
    0x81 ∷ 0x2b ∷ 0x1f ∷ 0xa4 ∷ 0xbe ∷ 0xa3 ∷ 0x10 ∷ 0x19 ∷ 0x9d ∷ 0x6e ∷ 0x00 ∷ 0xdd ∷ 0x01 ∷ 0x0f
    ∷ 0x54 ∷ 0x02 ∷ []

-- `appendUtf16NullTerm`
unfoldable pub append_utf16_null_term : List ℕ → List ℕ → Converted (List ℕ)
append_utf16_null_term out s = utf8_to_utf16le s >>= λ units. ok (out ++ (units ++ (0 ∷ 0 ∷ [])))

-- The text "SMTP".
abbrev pub smtp : List ℕ
smtp = 83 ∷ 77 ∷ 84 ∷ 80 ∷ []

unfoldable pub make_one_off_entry_id : List ℕ → List ℕ → Converted (List ℕ)
make_one_off_entry_id display_name smtp_address =
    let head = zeros 4 ++ (one_off_provider_uid ++ (0 ∷ 0 ∷ 0x01 ∷ 0x90 ∷ [])) in
    append_utf16_null_term head display_name >>= λ named.
    (append_utf16_null_term named smtp >>= λ kinded. append_utf16_null_term kinded smtp_address)

-- std::toupper in the "C" locale.
unfoldable pub to_upper : ℕ → ℕ
to_upper c = if leb 97 c && leb c 122 then c - 32 else c

-- The text "SMTP:" and the upper case of the address, cut or padded to 16 bytes.
unfoldable pub derive_search_key : List ℕ → List ℕ
derive_search_key smtp_address =
    let s = smtp ++ (58 ∷ map to_upper smtp_address) in
    write_bytes (zeros 16) 0 (take (if ltb (length s) 16 then length s else 16) s)

-- One FNV-1a step on 64 bits.
unfoldable pub fnv_step : ℕ → ℕ → ℕ
fnv_step h b = u64 (bit_xor h b * 0x100000001b3)

-- The loop over the seed, with `h1` and `h2`.
unfoldable pub hash_loop : List ℕ → ℕ → ℕ → ℕ × ℕ
hash_loop [] h1 h2 = (h1, h2)
hash_loop (b ∷ bs) h1 h2 = hash_loop bs (fnv_step h1 b) (fnv_step h2 (bit_xor b 0xa5))

unfoldable pub derive_message_search_key : List ℕ → List ℕ
derive_message_search_key seed =
    let h = hash_loop seed 0xcbf29ce484222325 0x100000001b3 in
    write_u64 (write_u64 (zeros 16) 0 (bit_xor h.0 0x53454152)) 8 (bit_xor h.1 0x4348454b)
