-- ===== src/Bytes/Fields.antt =====
-- A run of writes at known offsets, as a list of fields, and what a field holds at the end.
use pst_dev.Prelude.{
  ℕ, ◌+◌, ◌%◌, ◌^◌, ◌≡◌, refl, ◌∙◌, arith, List, [], ◌∷◌, ◌++◌, Bool, true, false, ◌<◌, ◌&&◌, ◌||◌,
  Option, none, some, leb, ◌==◌, if◌then◌else◌, length,
}
use pst_dev.Bytes.Laws.{
  write_le, read_le, length-write_le, read_le-write_le, read_le-write_le_other, IsBytes,
  IsBytes-write_le,
}

-- Offset, width in bytes, value.
abbrev pub Field : Type 0
Field = ℕ × ℕ × ℕ

unfoldable pub write_fields : List Field → List ℕ → List ℕ
write_fields [] buf = buf
write_fields ((off, n, v) ∷ fs) buf = write_fields fs (write_le n buf off v)

-- Every field lies in a buffer of `size` bytes.
unfoldable pub fits : ℕ → List Field → Bool
fits size [] = true
fits size ((off, n, v) ∷ fs) = leb (off + n) size && fits size fs

-- No field touches the `m` bytes from `at` on.
unfoldable pub clear : ℕ → ℕ → List Field → Bool
clear at m [] = true
clear at m ((off, n, v) ∷ fs) = (leb (at + m) off || leb (off + n) at) && clear at m fs

-- The value of the field of `m` bytes at `at`, if no later field touches it.
unfoldable pub field_at : ℕ → ℕ → List Field → Option ℕ
field_at at m [] = none
field_at at m ((off, n, v) ∷ fs) =
    let later = field_at at m fs in if off == at && (n == m && clear at m fs) then some v else later

pub length-write_fields :
    (fs : List Field) (buf : List ℕ) → length (write_fields fs buf) ≡ length buf
unfolding write_fields
length-write_fields [] buf = refl
length-write_fields ((off, n, v) ∷ fs) buf =
    length-write_fields fs (write_le n buf off v) ∙ length-write_le n buf off v

pub IsBytes-write_fields :
    (fs : List Field) (buf : List ℕ) → IsBytes buf → IsBytes (write_fields fs buf)
unfolding write_fields
IsBytes-write_fields [] buf h = h
IsBytes-write_fields ((off, n, v) ∷ fs) buf h =
    IsBytes-write_fields fs (write_le n buf off v) (IsBytes-write_le n buf off v h)

pub read_le-write_fields-clear :
    (fs : List Field) (buf : List ℕ) (at m size : ℕ)
    → length buf ≡ size
    → fits size fs ≡ true
    → clear at m fs ≡ true
    → read_le m (write_fields fs buf) at ≡ read_le m buf at
unfolding write_fields fits clear
read_le-write_fields-clear [] buf at m size e h c = refl
read_le-write_fields-clear ((off, n, v) ∷ fs) buf at m size e h c = ground (
  arith,
  length-write_le n buf off v,
  read_le-write_le_other m n buf off v at,
  read_le-write_fields-clear fs (write_le n buf off v) at m size,
)

-- A field that no later one touches reads back.
pub read_le-write_fields :
    (fs : List Field) (buf : List ℕ) (at m size : ℕ) {v : ℕ}
    → length buf ≡ size
    → fits size fs ≡ true
    → field_at at m fs ≡ some v
    → read_le m (write_fields fs buf) at ≡ v % 256 ^ m
unfolding write_fields fits field_at
read_le-write_fields [] buf at m size e h c = cc
read_le-write_fields ((off, n, v) ∷ fs) buf at m size {v = u} e h c = ground (
  arith,
  length-write_le n buf off v,
  read_le-write_le n buf off v,
  read_le-write_fields-clear fs (write_le n buf off v) at m size,
  read_le-write_fields fs (write_le n buf off v) at m size {v = u},
)

-- Lists of fields one after the other.
pub write_fields-append :
    (fs gs : List Field) (buf : List ℕ)
    → write_fields (fs ++ gs) buf ≡ write_fields gs (write_fields fs buf)
unfolding write_fields
write_fields-append [] gs buf = refl
write_fields-append ((off, n, v) ∷ fs) gs buf = write_fields-append fs gs (write_le n buf off v)

pub fits-append :
    (size : ℕ) (fs gs : List Field)
    → fits size fs ≡ true
    → fits size gs ≡ true
    → fits size (fs ++ gs) ≡ true
unfolding fits
fits-append size [] gs p q = q
fits-append size ((off, n, v) ∷ fs) gs p q = ground (arith, fits-append size fs gs)

pub clear-append :
    (at m : ℕ) (fs gs : List Field)
    → clear at m fs ≡ true
    → clear at m gs ≡ true
    → clear at m (fs ++ gs) ≡ true
unfolding clear
clear-append at m [] gs p q = q
clear-append at m ((off, n, v) ∷ fs) gs p q = ground (arith, clear-append at m fs gs)

clear_front : (at m : ℕ) (fs gs : List Field) → clear at m (fs ++ gs) ≡ true → clear at m fs ≡ true
unfolding clear
clear_front at m [] gs h = refl
clear_front at m ((off, n, v) ∷ fs) gs h = ground (arith, clear_front at m fs gs)

-- The front part tells, where the back part keeps clear of the place.
pub field_at-append_front :
    (at m : ℕ) (fs gs : List Field) {v : ℕ}
    → field_at at m fs ≡ some v
    → clear at m gs ≡ true
    → field_at at m (fs ++ gs) ≡ some v
unfolding field_at
field_at-append_front at m [] gs p q = cc
field_at-append_front at m ((off, n, u) ∷ fs) gs {v} p q = ground (
  arith,
  clear-append at m fs gs,
  clear_front at m fs gs,
  field_at-append_front at m fs gs {v = v},
)

field_at_covers :
    (at m : ℕ) (gs : List Field) {v : ℕ} → 0 < m → field_at at m gs ≡ some v → clear at m gs ≡ false
unfolding field_at clear
field_at_covers at m [] h e = cc
field_at_covers at m ((off, n, u) ∷ gs) {v} h e = ground (arith, field_at_covers at m gs {v = v})

clear_back : (at m : ℕ) (fs gs : List Field) → clear at m gs ≡ false → clear at m (fs ++ gs) ≡ false
unfolding clear
clear_back at m [] gs h = h
clear_back at m ((off, n, v) ∷ fs) gs h = ground (arith, clear_back at m fs gs)

-- The back part tells in any case.
pub field_at-append_back :
    (at m : ℕ) (fs gs : List Field) {v : ℕ}
    → 0 < m
    → field_at at m gs ≡ some v
    → field_at at m (fs ++ gs) ≡ some v
unfolding field_at
field_at-append_back at m [] gs h e = e
field_at-append_back at m ((off, n, u) ∷ fs) gs {v} h e = ground (
  arith,
  field_at_covers at m gs {v = v},
  clear_back at m fs gs,
  field_at-append_back at m fs gs {v = v},
)
