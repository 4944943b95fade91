-- ===== src/Allocator/Spec.antt =====
-- src/m5_allocator.cpp: one call of `allocate`.
use pst_dev.Prelude.{
  ℕ, zero, suc, ◌+◌, ◌%◌, ◌^◌, ◌≤◌, ◌<◌, ◌≡◌, refl, ◌∙◌, arith, List, ◌∷◌, bit_and, true, false,
  ◌||◌, ◌==◌, ==_iff, leb, Bool-cases, ◌⊎◌, inl, inr, length, length-set, get_or,
}
use pst_dev.Prelude.Bits.{bit_and_ones}
use pst_dev.Ident.{Nid, make_nid}
use pst_dev.Bytes.Laws.{byte_at-set}
use pst_dev.Allocator.{
  max_nid_index, is_valid_nid_type, contains, insert, M5Allocator, invalid_nid_type,
  counter_exhausted, Outcome, ok, throw, out_of_fuel, counter, advance, allocate_loop, allocate,
}

pub contains-insert : (v j : ℕ) (xs : List ℕ) → contains j (insert v xs) ≡ (v == j || contains j xs)
unfolding contains insert
contains-insert v j xs = elim (Bool-cases (contains v xs)) [
  | inl old ↦
      rw old
        (elim (Bool-cases (v == j)) [ inl e ↦ rw e (rw ((==_iff v j).0 e) at old) | inr n ↦ rw n ])
  | inr new ↦ rw new
]

pub insert_new : (v : ℕ) (xs : List ℕ) → contains v xs ≡ false → insert v xs ≡ v ∷ xs
unfolding insert
insert_new v xs h = rw h

-- The array of counters has its 32 slots.
abbrev pub IsValid : M5Allocator → Type 0
IsValid a = length a.next_index ≡ 32

slot : (nt : ℕ) → bit_and nt 0x1f < 32
slot nt = omega (arith, bit_and_ones 5 nt)

counter-advance :
    (nt : ℕ) (a : M5Allocator)
    → IsValid a
    → counter nt a < max_nid_index
    → counter nt (advance nt a) ≡ counter nt a + 1
unfolding counter advance
counter-advance nt a w h =
    let s = slot nt in
    ground (
      arith,
      byte_at-set a.next_index (bit_and nt 0x1f) (bit_and nt 0x1f)
          ((get_or a.next_index (bit_and nt 0x1f) 0 + 1) % 2 ^ 32),
    )

advance-IsValid : (nt : ℕ) (a : M5Allocator) → IsValid a → IsValid (advance nt a)
unfolding advance
advance-IsValid nt a w = length-set a.next_index _ _ ∙ w

allocated-advance : (nt : ℕ) (a : M5Allocator) → (advance nt a).allocated ≡ a.allocated
unfolding advance
allocated-advance nt a = refl

-- The ids of one type with an index from `lo` up to `hi` are all taken.
abbrev pub Taken : ℕ → M5Allocator → ℕ → ℕ → Type 0
Taken nt a lo hi = (j : ℕ) → lo ≤ j → j < hi → contains (make_nid nt j).value a.allocated ≡ true

-- What the search for a free index may give.
abbrev pub Searched : ℕ → M5Allocator → Outcome Nid → Type 0
Searched nt a (ok nid a') =
    (idx : ℕ) × (counter nt a ≤ idx)
    × (idx < max_nid_index)
    × (nid ≡ make_nid nt idx)
    × (contains nid.value a.allocated ≡ false)
    × Taken nt a (counter nt a) idx
    × (a'.allocated ≡ nid.value ∷ a.allocated)
    × (counter nt a' ≡ idx + 1)
    × IsValid a'
Searched nt a (throw e a') =
    (e ≡ counter_exhausted)
    × Taken nt a (counter nt a) max_nid_index
    × (a'.allocated ≡ a.allocated)
    × IsValid a'
Searched nt a out_of_fuel = ⊥

module _ (nt : ℕ) (a : M5Allocator) (valid : IsValid a) (below : counter nt a < max_nid_index)
    (taken : contains (make_nid nt (counter nt a)).value a.allocated ≡ true) where
  widen :
      (hi : ℕ)
      → Taken nt (advance nt a) (counter nt (advance nt a)) hi
      → Taken nt a (counter nt a) hi
  widen hi t j lo h = elim (Bool-cases (counter nt a == j)) [
    | inl e ↦ rw (← (==_iff (counter nt a) j).0 e) taken
    | inr n ↦ rw allocated-advance at (t j (ground (arith, counter-advance nt a valid below)) h)
  ]

  Searched-advance : (r : Outcome Nid) → Searched nt (advance nt a) r → Searched nt a r
  Searched-advance (ok nid a') (idx, p, q, e, free, t, f, g, v) = (
    idx,
    omega (arith, counter-advance nt a valid below),
    q,
    e,
    rw allocated-advance at free,
    widen idx t,
    rw allocated-advance at f,
    g,
    v,
  )
  Searched-advance (throw e a') (p, t, f, v) =
      (p, widen max_nid_index t, rw allocated-advance at f, v)
  Searched-advance out_of_fuel h = h

counter-allocated :
    (nt : ℕ) (a : M5Allocator) (s : List ℕ) → counter nt (record a { allocated = s }) ≡ counter nt a
unfolding counter
counter-allocated nt a s = refl

pub allocate_loop_searches :
    (fuel nt : ℕ) (a : M5Allocator)
    → 0 < fuel
    → max_nid_index < fuel + counter nt a
    → IsValid a
    → Searched nt a (allocate_loop fuel nt a)
unfolding allocate_loop
allocate_loop_searches zero nt a pos h valid = absurd (omega arith)
allocate_loop_searches (suc fuel) nt a pos h valid =
    elim (Bool-cases (leb max_nid_index (counter nt a))) [
      | inl full ↦ rw full (refl, λ j p q. absurd (ground arith), refl, valid)
      | inr room ↦
          let below : counter nt a < max_nid_index = ground arith in
          let steps = counter-advance nt a valid below in
          elim (Bool-cases (contains (make_nid nt (counter nt a)).value (advance nt a).allocated)) [
            | inl taken ↦
                rw (room, taken)
                  (Searched-advance nt a valid below (rw allocated-advance at taken) _ (
                    allocate_loop_searches fuel nt (advance nt a) (omega arith) (omega arith)
                      (advance-IsValid nt a valid)))
            | inr free ↦
                rw (room, free)
                  (
                    counter nt a,
                    omega arith,
                    below,
                    refl,
                    rw allocated-advance at free,
                    λ j p q. absurd (omega arith),
                    insert_new _ _ free ∙ rw allocated-advance,
                    counter-allocated nt (advance nt a) _ ∙ steps,
                    advance-IsValid nt a valid,
                  )
          ]
    ]

-- On a state with its 32 counters the search of `allocate` ends, for every type. Of a type that is
-- valid it takes the smallest index from the counter on whose id is free, adds that id to
-- the set and nothing else, and moves the counter behind it; or every index from the counter up
-- to 2 ^ 27 is taken, and it throws `counter_exhausted` and keeps the set. Of a type that is not
-- valid it throws `invalid_nid_type` and keeps the whole state.
pub allocate_lem :
    (nt : ℕ) (a : M5Allocator)
    → IsValid a
    → ((is_valid_nid_type nt ≡ true) × Searched nt a (allocate nt a))
      ⊎ ((is_valid_nid_type nt ≡ false) × (allocate nt a ≡ throw invalid_nid_type a))
unfolding allocate
allocate_lem nt a valid = elim (Bool-cases (is_valid_nid_type nt)) [
  | inl good ↦ inl (
    good,
    rw good (allocate_loop_searches (max_nid_index + 1) nt a (omega arith) (omega arith) valid),
  )
  | inr bad ↦ inr (bad, rw bad)
]
