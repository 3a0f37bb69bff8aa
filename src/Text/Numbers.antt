-- ===== src/Text/Numbers.antt =====
-- Numbers as text: what std::stoi reads of what std::to_string writes.
use Prim.Native.Char.{Char, char, code}
use Prim.Native.String.{[], ◌∷◌}
use Prim.Native.Nat.{◌/◌}
use native.Mathlib.Numerals.{unary_clauses}
use distributed_replicated_c.Prelude.{
  ℕ, zero, suc, ◌+◌, ◌*◌, ◌%◌, ◌^◌, ◌<◌, ◌≡◌, refl, ap, sym, ◌∙◌, ℤ, pos, negsuc, InInt32, Bool,
  true, false, inl, inr, Bool-cases, ltb, ltb-true, leb-true, leb-false, eqb_false, String, arith,
}
use distributed_replicated_c.Result.{ok}
use distributed_replicated_c.Text.{
  is_digit, digit, digits, read_digits, read_unsigned, read_signed, skip_spaces, stoi, to_int,
  minus, to_string,
}

pub code-digit : (n : ℕ) → n < 10 → code (digit n) ≡ 48 + n
unfolding digit
code-digit zero h = refl
code-digit (suc zero) h = refl
code-digit (suc (suc zero)) h = refl
code-digit (suc (suc (suc zero))) h = refl
code-digit (suc (suc (suc (suc zero)))) h = refl
code-digit (suc (suc (suc (suc (suc zero))))) h = refl
code-digit (suc (suc (suc (suc (suc (suc zero)))))) h = refl
code-digit (suc (suc (suc (suc (suc (suc (suc zero))))))) h = refl
code-digit (suc (suc (suc (suc (suc (suc (suc (suc zero)))))))) h = refl
code-digit (suc (suc (suc (suc (suc (suc (suc (suc (suc zero))))))))) h = refl
code-digit (suc (suc (suc (suc (suc (suc (suc (suc (suc (suc n)))))))))) h = absurd (omega arith)

read_one :
    (v n : ℕ) (text : String)
    → n < 10
    → read_digits v (digit n ∷ text) ≡ read_digits (v * 10 + n) text
unfolding read_digits
read_one v n text h =
    rw (code-digit n h, leb-true 48 (48 + n) (omega arith), leb-true (48 + n) 57 (omega arith))
      (ap (λ (m : ℕ). read_digits (v * 10 + m) text) (omega arith))

pow_step : (k : ℕ) → 10 ^ (suc k + 1) ≡ 10 ^ (k + 1) * 10
pow_step k = simp unary_clauses refl

-- Reading the written digits gives the number.
read_digits-digits :
    (k n : ℕ) (text : String)
    → n < 10 ^ (k + 1)
    → read_digits 0 (digits k n text) ≡ read_digits n text
unfolding digits
read_digits-digits zero n text h =
    read_one 0 n text (omega arith) ∙ ap (λ (m : ℕ). read_digits m text) (omega arith)
read_digits-digits (suc k) n text h = elim (Bool-cases (ltb n 10)) [
  | inl e ↦
      rw e (read_one 0 n text (ground arith) ∙ ap (λ (m : ℕ). read_digits m text) (omega arith))
  | inr e ↦ rw e (
      read_digits-digits k (n / 10) (digit (n % 10) ∷ text) (omega (arith, pow_step k))
      ∙ read_one (n / 10) (n % 10) text (omega arith)
      ∙ ap (λ (m : ℕ). read_digits m text) (omega arith))
]

first_digit :
    (k n : ℕ) (text : String)
    → n < 10 ^ (k + 1)
    → (x : Char) × (s : String) × (digits k n text ≡ x ∷ s) × (is_digit x ≡ true)
unfolding digits
first_digit zero n text h = (digit n, text, refl, rw (code-digit n (omega arith)) (ground arith))
first_digit (suc k) n text h = elim (Bool-cases (ltb n 10)) [
  | inl e ↦ (digit n, text, rw e refl, rw (code-digit n (ground arith)) (ground arith))
  | inr e ↦
      let (x, s, d, t) =
        first_digit k (n / 10) (digit (n % 10) ∷ text) (omega (arith, pow_step k)) in
      (x, s, rw e d, t)
]

read_unsigned_digit :
    (negative : Bool) (x : Char) (s : String)
    → is_digit x ≡ true
    → read_unsigned negative (x ∷ s) ≡ to_int negative (read_digits 0 (x ∷ s))
unfolding read_unsigned
read_unsigned_digit negative x s h = rw h refl

read_unsigned-digits :
    (negative : Bool) (k n : ℕ)
    → n < 10 ^ (k + 1)
    → read_unsigned negative (digits k n []) ≡ to_int negative n
unfolding read_digits
read_unsigned-digits negative k n h =
    let (x, s, e, d) = first_digit k n [] h in
    ap (read_unsigned negative) e
    ∙ read_unsigned_digit negative x s d
    ∙ (ap (λ t. to_int negative (read_digits 0 t)) (sym e)
        ∙ ap (to_int negative) (read_digits-digits k n [] h))

-- A text that starts with a digit has no spaces or sign in front.
stoi_digit :
    (x : Char) (s : String) → is_digit x ≡ true → stoi (x ∷ s) ≡ read_unsigned false (x ∷ s)
unfolding stoi skip_spaces read_signed
stoi_digit x s h =
    rw
      (
        eqb_false (code x) 32 (ground arith),
        leb-true 9 (code x) (ground arith),
        leb-false (code x) 13 (ground arith),
        read_signed,
        eqb_false (code x) 45 (ground arith),
        eqb_false (code x) 43 (ground arith),
      )
      refl

minus_suc : (n : ℕ) → minus (n + 1) ≡ negsuc n
minus_suc n = simp unary_clauses refl

stoi_minus : (s : String) → stoi (char 45 tt ∷ s) ≡ read_unsigned true s
unfolding stoi skip_spaces read_signed
stoi_minus s = refl

-- What std::to_string writes of an int is read back by std::stoi as the same int.
pub stoi-to_string : (v : ℤ) → InInt32 v → stoi (to_string v) ≡ ok v
unfolding to_string to_int
stoi-to_string (pos n) h =
    let (x, s, e, d) = first_digit 19 n [] (omega arith) in
    ap stoi e
    ∙ stoi_digit x s d
    ∙ ap (read_unsigned false) (sym e)
    ∙ read_unsigned-digits false 19 n (omega arith)
    ∙ rw (ltb-true n (2 ^ 31) (omega arith)) refl
stoi-to_string (negsuc n) h =
    stoi_minus (digits 19 (n + 1) [])
    ∙ read_unsigned-digits true 19 (n + 1) (omega arith)
    ∙ rw (leb-true (n + 1) (2 ^ 31) (omega arith)) (ap ok (minus_suc n))
