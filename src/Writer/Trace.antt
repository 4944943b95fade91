-- ===== src/Writer/Trace.antt =====
-- src/writer.cpp: the calls of `fwrite` behind `writeAll`, `emit` and `padTo`, in order.
use mathlib.Core.Path.{subst}
use pst_dev.Prelude.{
  ℕ, ◌+◌, ◌-◌, ◌≡◌, refl, ◌∙◌, sym, List, [], ◌∷◌, ◌++◌, true, false, Bool-cases, inl, inr, ltb,
  if◌then◌else◌, length,
}
use pst_dev.Bytes.{zeros, u64}
use pst_dev.Writer.{Device, Sink, write_all, emit, pad_to}
use pst_dev.Writer.Writes.{IsWorking, append_nil, append_assoc}

-- What a writer asks for: these bytes, or zeros up to an offset.
pub data Part : Type 0 where
  bytes : List ℕ → Part
  up_to : ℕ → Part

-- The chunks that `fwrite` is called with, from an offset on. Offsets have 64 bits, and no zeros
-- are written to an offset that is reached.
unfoldable pub writes : List Part → ℕ → List (List ℕ)
writes [] at = []
writes (bytes c ∷ ps) at = c ∷ writes ps (u64 (at + length c))
writes (up_to target ∷ ps) at =
    if ltb at target then zeros (target - at) ∷ writes ps target else writes ps at

unfoldable pub joined : List (List ℕ) → List ℕ
joined [] = []
joined (c ∷ cs) = c ++ joined cs

-- The device took each chunk whole, behind those before it.
unfoldable pub Taken : Device → List ℕ → List (List ℕ) → Type 0
Taken d before [] = Unit {0}
Taken d before (c ∷ cs) = (d.accepts before c ≡ true) × Taken d (before ++ c) cs

-- The state after these parts.
unfoldable pub run : Device → List Part → Sink → Sink
run d [] s = s
run d (bytes c ∷ ps) s = run d ps (emit d c s)
run d (up_to target ∷ ps) s = run d ps (pad_to d target s)

pub run-append :
    (d : Device) (ps qs : List Part) (s : Sink) → run d (ps ++ qs) s ≡ run d qs (run d ps s)
unfolding run
run-append d [] qs s = refl
run-append d (bytes c ∷ ps) qs s = run-append d ps qs (emit d c s)
run-append d (up_to target ∷ ps) qs s = run-append d ps qs (pad_to d target s)

-- The state after writes that went well.
abbrev pub went : List ℕ → ℕ → Sink
went written at = record { written = written; written_ib = at; good = true }

module _ (d : Device) where
  emit-accepted :
      (w : List ℕ) (at : ℕ) (c : List ℕ)
      → d.accepts w c ≡ true
      → emit d c (went w at) ≡ went (w ++ c) (u64 (at + length c))
  unfolding emit write_all
  emit-accepted w at c a = rw a refl

  emit-refused :
      (w : List ℕ) (at : ℕ) (c : List ℕ)
      → d.accepts w c ≡ false
      → (emit d c (went w at)).good ≡ false
  unfolding emit write_all
  emit-refused w at c a = rw a refl

  pad_to-accepted :
      (w : List ℕ) (at target : ℕ)
      → ltb at target ≡ true
      → d.accepts w (zeros (target - at)) ≡ true
      → pad_to d target (went w at) ≡ went (w ++ zeros (target - at)) target
  unfolding pad_to write_all
  pad_to-accepted w at target l a = rw (l, a) refl

  pad_to-refused :
      (w : List ℕ) (at target : ℕ)
      → ltb at target ≡ true
      → d.accepts w (zeros (target - at)) ≡ false
      → (pad_to d target (went w at)).good ≡ false
  unfolding pad_to write_all
  pad_to-refused w at target l a = rw (l, a) refl

  pad_to-reached :
      (w : List ℕ) (at target : ℕ) → ltb at target ≡ false → pad_to d target (went w at) ≡ went w at
  unfolding pad_to
  pad_to-reached w at target l = rw l refl

  -- A failure stays.
  emit-bad : (c : List ℕ) (s : Sink) → s.good ≡ false → (emit d c s).good ≡ false
  unfolding emit write_all
  emit-bad c s g = rw g refl

  pad_to-bad : (target : ℕ) (s : Sink) → s.good ≡ false → (pad_to d target s).good ≡ false
  unfolding pad_to write_all
  pad_to-bad target s g = elim (Bool-cases (ltb s.written_ib target)) [
    | inl l ↦ rw (l, g) refl
    | inr n ↦ rw n g
  ]

  run-bad : (ps : List Part) (s : Sink) → s.good ≡ false → (run d ps s).good ≡ false
  unfolding run
  run-bad [] s g = g
  run-bad (bytes c ∷ ps) s g = run-bad ps (emit d c s) (emit-bad c s g)
  run-bad (up_to target ∷ ps) s g = run-bad ps (pad_to d target s) (pad_to-bad target s g)

  -- The device took these chunks, and the file is those before them and these.
  abbrev Went : List ℕ → List (List ℕ) → List ℕ → Type 0
  Went before cs file = Taken d before cs × (file ≡ before ++ joined cs)

  Went-cons :
      (before c : List ℕ) (cs : List (List ℕ)) (file : List ℕ)
      → d.accepts before c ≡ true
      → Went (before ++ c) cs file
      → Went before (c ∷ cs) file
  unfolding Taken joined
  Went-cons before c cs file a (t, w) = ((a, t), w ∙ append_assoc before c (joined cs))

  -- Parts whose writes went well: the device took every chunk, and the file is the chunks.
  pub run-good :
      (ps : List Part) (w : List ℕ) (at : ℕ)
      → (run d ps (went w at)).good ≡ true
      → Went w (writes ps at) (run d ps (went w at)).written
  unfolding run writes
  run-good [] w at r = (unfold Taken in tt, unfold joined in sym (append_nil w))
  run-good (bytes c ∷ ps) w at r = elim (Bool-cases (d.accepts w c)) [
    | inl a ↦
        let e = emit-accepted w at c a in
        let r' = subst (λ x. (run d ps x).good ≡ true) e r in
        subst (λ x. Went w (c ∷ writes ps (u64 (at + length c))) (run d ps x).written) (sym e)
          (Went-cons w c _ _ a (run-good ps (w ++ c) (u64 (at + length c)) r'))
    | inr n ↦ let bad = run-bad ps (emit d c (went w at)) (emit-refused w at c n) in cc
  ]
  run-good (up_to target ∷ ps) w at r = elim (Bool-cases (ltb at target)) [
    | inl l ↦ elim (Bool-cases (d.accepts w (zeros (target - at)))) [
      | inl a ↦
          let e = pad_to-accepted w at target l a in
          let r' = subst (λ x. (run d ps x).good ≡ true) e r in
          rw l (
            subst (λ x. Went w (zeros (target - at) ∷ writes ps target) (run d ps x).written)
              (sym e)
              (Went-cons w (zeros (target - at)) _ _ a
                (run-good ps (w ++ zeros (target - at)) target r')))
      | inr n ↦
          let bad = run-bad ps (pad_to d target (went w at)) (pad_to-refused w at target l n) in cc
    ]
    | inr n ↦
        let e = pad_to-reached w at target n in
        let r' = subst (λ x. (run d ps x).good ≡ true) e r in
        rw n (subst (λ x. Went w (writes ps at) (run d ps x).written) (sym e) (run-good ps w at r'))
  ]

  -- Where the device takes every chunk the writes go well.
  pub run-Taken :
      (ps : List Part) (w : List ℕ) (at : ℕ)
      → Taken d w (writes ps at)
      → (run d ps (went w at)).good ≡ true
  unfolding run writes
  run-Taken [] w at t = refl
  run-Taken (bytes c ∷ ps) w at t =
      let (a, t') : (d.accepts w c ≡ true) × Taken d (w ++ c) (writes ps (u64 (at + length c))) =
        unfold Taken in t in
      subst (λ x. (run d ps x).good ≡ true) (sym (emit-accepted w at c a))
        (run-Taken ps (w ++ c) (u64 (at + length c)) t')
  run-Taken (up_to target ∷ ps) w at t = elim (Bool-cases (ltb at target)) [
    | inl l ↦
        let t1 = rw l at t in
        let (a, t') : (d.accepts w (zeros (target - at)) ≡ true)
            × Taken d (w ++ zeros (target - at)) (writes ps target) =
          unfold Taken in t1 in
        subst (λ x. (run d ps x).good ≡ true) (sym (pad_to-accepted w at target l a))
          (run-Taken ps (w ++ zeros (target - at)) target t')
    | inr n ↦
        let t' = rw n at t in
        subst (λ x. (run d ps x).good ≡ true) (sym (pad_to-reached w at target n))
          (run-Taken ps w at t')
  ]

pub IsWorking-Taken :
    (d : Device) (works : IsWorking d) (w : List ℕ) (cs : List (List ℕ)) → Taken d w cs
unfolding Taken
IsWorking-Taken d works w [] = tt
IsWorking-Taken d works w (c ∷ cs) = (works.took w c, IsWorking-Taken d works (w ++ c) cs)
