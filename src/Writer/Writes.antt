-- ===== src/Writer/Writes.antt =====
-- src/writer.cpp: the writes on a device that takes them all.
use pst_dev.Prelude.{
  ℕ, zero, suc, ◌+◌, ◌-◌, ◌^◌, ◌≤◌, ◌<◌, ◌≡◌, refl, ap, ◌∙◌, sym, arith, List, [], ◌∷◌, ◌++◌, inl,
  inr, true, Bool-cases, ltb, length, length-append, length-replicate, take, drop,
}
use native.Mathlib.Nat.{mod-eq_of_lt}
use pst_dev.Prelude.Except.{ok}
use pst_dev.Bytes.{zeros, slice, u64}
use pst_dev.Bytes.Laws.{IsBytes}
use pst_dev.Writer.{Device, Sink, write_all, emit, pad_to, finish}

-- Every call of the C library succeeds.
pub record IsWorking (d : Device) : Type 0 where
  pub opened : d.opens ≡ true
  pub took : (written chunk : List ℕ) → d.accepts written chunk ≡ true
  pub closed : d.closes ≡ true

-- The sink after these bytes.
abbrev pub sink : List ℕ → Sink
sink w = record { written = w; written_ib = length w; good = true }

pub append_nil : (xs : List ℕ) → xs ++ [] ≡ xs
append_nil [] = refl
append_nil (x ∷ xs) = ap (λ t. x ∷ t) (append_nil xs)

pub append_assoc : (xs ys zs : List ℕ) → (xs ++ ys) ++ zs ≡ xs ++ (ys ++ zs)
append_assoc [] ys zs = refl
append_assoc (x ∷ xs) ys zs = ap (λ t. x ∷ t) (append_assoc xs ys zs)

pub IsBytes-append : (xs ys : List ℕ) → IsBytes xs → IsBytes ys → IsBytes (xs ++ ys)
IsBytes-append [] ys h k i = k i
IsBytes-append (x ∷ xs) ys h k zero = h 0
IsBytes-append (x ∷ xs) ys h k (suc i) = IsBytes-append xs ys (λ j. h (suc j)) k i

-- A chunk between two others.
take_front : (xs ys : List ℕ) → take (length xs) (xs ++ ys) ≡ xs
take_front [] ys = refl
take_front (x ∷ xs) ys = ap (λ t. x ∷ t) (take_front xs ys)

drop_front : (xs ys : List ℕ) → drop (length xs) (xs ++ ys) ≡ ys
drop_front [] ys = refl
drop_front (x ∷ xs) ys = drop_front xs ys

pub slice_chunk :
    (xs ys zs : List ℕ) (at n : ℕ)
    → length xs ≡ at
    → length ys ≡ n
    → slice (xs ++ (ys ++ zs)) at n ≡ ys
slice_chunk xs ys zs at n e f = rw (sym e, sym f, drop_front xs (ys ++ zs)) (take_front ys zs)

module _ (d : Device) (works : IsWorking d) where
  pub emit-sink : (w c : List ℕ) → length w + length c < 2 ^ 64 → emit d c (sink w) ≡ sink (w ++ c)
  unfolding emit write_all
  emit-sink w c h =
      let e : u64 (length w + length c) ≡ length (w ++ c) =
        mod-eq_of_lt h ∙ sym (length-append w c) in
      rw (works.took w c, e) refl

  pub pad_to-sink :
      (w : List ℕ) (t : ℕ) → length w ≤ t → pad_to d t (sink w) ≡ sink (w ++ zeros (t - length w))
  unfolding pad_to write_all
  pad_to-sink w t h = elim (Bool-cases (ltb (length w) t)) [
    | inl l ↦
        let e : t ≡ length (w ++ zeros (t - length w)) = sym (
          length-append w (zeros (t - length w))
          ∙ omega (arith, h, length-replicate {A = ℕ} (t - length w) 0)) in
        rw (l, works.took w (zeros (t - length w)))
          (ap (λ n. record { written = w ++ zeros (t - length w); written_ib = n; good = true }) e)
    | inr n ↦
        let z : t - length w ≡ 0 = ground (arith, n) in rw (n, z) (ap sink (sym (append_nil w)))
  ]

  pub finish-sink : (w : List ℕ) → finish d (sink w) ≡ ok w
  unfolding finish
  finish-sink w = rw works.closed refl
