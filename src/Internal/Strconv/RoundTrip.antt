-- ===== src/Internal/Strconv/RoundTrip.antt =====
-- Go's strconv: what `Itoa` prints is read back.
use Prim.Native.Char.{code}
use tiny_file_watcher.Prelude.{
  ℕ, zero, suc, ◌+◌, ◌*◌, ◌/◌, ◌%◌, ◌^◌, ◌≤◌, ◌<◌, ◌≡◌, refl, sym, ap, ◌∙◌, String, some, ltb,
  Bool-cases, inl, inr, arith,
}
use tiny_file_watcher.Internal.Strconv.{digit, emit, itoa, scan, unsigned, atoi, not_negative}

code-digit : (n : ℕ) → n < 10 → code (digit n) ≡ b'0' + n
unfolding digit
code-digit zero h = refl
code-digit (suc zero) h = refl
code-digit (suc (suc zero)) h = refl
code-digit (suc (suc (suc zero))) h = refl
code-digit (suc (suc (suc (suc zero)))) h = refl
code-digit (suc (suc (suc (suc (suc zero))))) h = refl
code-digit (suc (suc (suc (suc (suc (suc zero)))))) h = refl
code-digit (suc (suc (suc (suc (suc (suc (suc zero))))))) h = refl
code-digit (suc (suc (suc (suc (suc (suc (suc (suc zero)))))))) h = refl
code-digit (suc (suc (suc (suc (suc (suc (suc (suc (suc n))))))))) h = omega arith

scan-digit : (m n : ℕ) (s : String) → n < 10 → scan m (String.◌∷◌ (digit n) s) ≡ scan (m * 10 + n) s
unfolding scan
scan-digit m n s h = ground (arith, code-digit n h)

scan-nil : (n : ℕ) → scan n "" ≡ some n
unfolding scan
scan-nil n = refl

scan-emit : (fuel n : ℕ) (out : String) → n ≤ fuel → scan 0 (emit fuel n out) ≡ scan n out
unfolding emit
scan-emit zero n out h =
    scan-digit 0 n out (omega arith)
    ∙ ap (λ m. scan m out) (let e : 0 * 10 + n ≡ n = omega arith in e)
scan-emit (suc fuel) n out h = elim (Bool-cases (ltb n 10)) [
  | inl e ↦ rw e (ground (arith, scan-digit 0 n out))
  | inr e ↦ rw e (
      scan-emit fuel (n / 10) (String.◌∷◌ (digit (n % 10)) out) (ground arith)
      ∙ scan-digit (n / 10) (n % 10) out (omega arith)
      ∙ ap (λ m. scan m out) (let e : n / 10 * 10 + n % 10 ≡ n = omega arith in e))
]

-- the text starts with a digit
emit_head :
    (fuel n : ℕ) (out : String)
    → n ≤ fuel
    → (d : ℕ) × (s : String) × (d < 10) × (emit fuel n out ≡ String.◌∷◌ (digit d) s)
unfolding emit
emit_head zero n out h = (n, out, omega arith, refl)
emit_head (suc fuel) n out h = elim (Bool-cases (ltb n 10)) [
  | inl e ↦ (n, out, ground arith, rw e refl)
  | inr e ↦ rw e (emit_head fuel (n / 10) (String.◌∷◌ (digit (n % 10)) out) (ground arith))
]

atoi-digits :
    (d : ℕ) (s : String)
    → d < 10
    → atoi (String.◌∷◌ (digit d) s) ≡ not_negative (scan 0 (String.◌∷◌ (digit d) s))
unfolding atoi unsigned
atoi-digits d s h = ground (arith, code-digit d h)

-- a number that fits an int64 is read back from its decimal text
pub atoi-itoa : (n : ℕ) → n < 2 ^ 63 → atoi (itoa n) ≡ some n
unfolding itoa
atoi-itoa n h =
    let (d, s, small, e) = emit_head n n "" (omega arith) in
    rw e (atoi-digits d s small)
    ∙ ap not_negative (ap (scan 0) (sym e) ∙ scan-emit n n "" (omega arith) ∙ scan-nil n)
    ∙ ground arith
