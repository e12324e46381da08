-- ===== src/InputBuffer/Rounds.antt =====
-- The loop of `_read_item` without its fuel: `scan` follows the rounds one by one.
use hmtl.Prelude.{
  ℕ, zero, suc, ◌+◌, ◌≤◌, ◌<◌, ◌≡◌, ◌∙◌, refl, List, [], ◌∷◌, Bytes, Option, none, some, true,
  arith,
}
use hmtl.Protocol.MsgHdr.{MsgHdr}
use hmtl.InputBuffer.{
  Reader, Scan, Next, again, leave, give_up, raised, step, measure, Outcome, nothing, emit, resume,
  loop,
}
use hmtl.InputBuffer.Step.{IsGood, IsPartial, Advances, step-Advances}

unfoldable pub scan : ℕ → Scan → Reader → Outcome × Reader
scan now d s = loop (suc (measure d s)) now d s

resume_same :
    (f g : Scan → Reader → Outcome × Reader) (now : ℕ) (d : Scan) (s : Reader)
    → ((d' : Scan) (s' : Reader) → IsGood d' → measure d' s' < measure d s → f d' s' ≡ g d' s')
    → (r : Next × Reader) → Advances d s r
    → resume f now r ≡ resume g now r
unfolding resume
resume_same f g now d s same (again d', s') (good, m, _) = same d' s' good m
resume_same f g now d s same (leave d', s') a = refl
resume_same f g now d s same (give_up, s') a = refl
resume_same f g now d s same (raised e, s') a = refl

-- Enough fuel is as good as any more.
loop_fuel :
    (f g now : ℕ) (d : Scan) (s : Reader)
    → IsGood d
    → measure d s < f
    → measure d s < g
    → loop f now d s ≡ loop g now d s
unfolding loop
loop_fuel zero g now d s good h k = absurd (omega arith)
loop_fuel (suc f) zero now d s good h k = absurd (omega arith)
loop_fuel (suc f) (suc g) now d s good h k =
    resume_same (loop f now) (loop g now) now d s
      (λ d' s' good' m. loop_fuel f g now d' s' good' (omega arith) (omega arith)) (step d s)
      (step-Advances d s good)

pub scan-again :
    (now : ℕ) (d d' : Scan) (s s' : Reader)
    → IsGood d
    → step d s ≡ (again d', s')
    → scan now d s ≡ scan now d' s'
unfolding scan
scan-again now d d' s s' good e =
    let a : Advances d s (again d', s') = rw e at (step-Advances d s good) in
    unfold loop resume in
    (rw e (loop_fuel (measure d s) (suc (measure d' s')) now d' s' a.0 a.1 (omega arith)))

pub scan-leave :
    (now : ℕ) (d d' : Scan) (s s' : Reader)
    → step d s ≡ (leave d', s')
    → scan now d s ≡ emit now d' s'
unfolding scan loop
scan-leave now d d' s s' e = rw e

-- The reader with nothing pushed back, when `t` units of its source have been read.
abbrev pub reading : Reader → List (Option ℕ) → ℕ → Reader
reading s src t = record s { pushback = []; source = src; total_received = t }

-- `g` empty reads.
abbrev pub gap : ℕ → List (Option ℕ) → List (Option ℕ)
gap zero src = src
gap (suc g) src = none ∷ gap g src

-- Bytes, each behind a number of empty reads.
abbrev pub spread : List (ℕ × ℕ) → List (Option ℕ) → List (Option ℕ)
spread [] more = more
spread ((g, b) ∷ rest) more = gap g (some b ∷ spread rest more)

step-gap :
    (e t : ℕ) (bs : Bytes) (hdr : Option MsgHdr) (s : Reader) (src : List (Option ℕ))
    → IsPartial bs true hdr
    → e < 5
    → step
        (record { bytes = bs; is_hmtl = true; hdr = hdr; empty_reads = e })
        (reading s (none ∷ src) t)
      ≡ (
        again (record { bytes = bs; is_hmtl = true; hdr = hdr; empty_reads = e + 1 }),
        reading s src t,
      )
unfolding step
step-gap e t bs none s src p h = ground arith
step-gap e t bs (some x) s src p h = ground arith

-- A partial message outlives up to five empty reads.
pub scan-gap :
    (g now e t : ℕ) (bs : Bytes) (hdr : Option MsgHdr) (s : Reader) (src : List (Option ℕ))
    → IsPartial bs true hdr
    → e + g ≤ 5
    → scan now
        (record { bytes = bs; is_hmtl = true; hdr = hdr; empty_reads = e })
        (reading s (gap g src) t)
      ≡ scan now
          (record { bytes = bs; is_hmtl = true; hdr = hdr; empty_reads = e + g })
          (reading s src t)
scan-gap zero now e t bs hdr s src p h = let same : e + 0 ≡ e = omega arith in rw same
scan-gap (suc g) now e t bs hdr s src p h =
    let next : e + suc g ≡ e + 1 + g = omega arith in
    scan-again now _ _ _ _ (p, omega arith) (step-gap e t bs hdr s (gap g src) p (omega arith))
    ∙ rw next (scan-gap g now (e + 1) t bs hdr s src p (omega arith))

pub scan-gap_zero :
    (g now t : ℕ) (bs : Bytes) (hdr : Option MsgHdr) (s : Reader) (src : List (Option ℕ))
    → IsPartial bs true hdr
    → g ≤ 5
    → scan now
        (record { bytes = bs; is_hmtl = true; hdr = hdr; empty_reads = 0 })
        (reading s (gap g src) t)
      ≡ scan now
          (record { bytes = bs; is_hmtl = true; hdr = hdr; empty_reads = g })
          (reading s src t)
scan-gap_zero g now t bs hdr s src p h =
    let same : 0 + g ≡ g = omega arith in
    rw same at (scan-gap g now 0 t bs hdr s src p (omega arith))

pub scan-give_up :
    (now : ℕ) (d : Scan) (s s' : Reader) → step d s ≡ (give_up, s') → scan now d s ≡ (nothing, s')
unfolding scan loop
scan-give_up now d s s' e = rw e
