-- ===== src/Text.antt =====
-- std::string as the program uses it: the search for a character, std::stoi and std::to_string in the
-- C locale.
pub mod Numbers
use Prim.Native.Char.{Char, char, code}
use Prim.Native.String.{[], ◌∷◌}
use Prim.Native.Nat.{◌/◌}
use distributed_replicated_c.Prelude.{
  ℕ, zero, suc, ◌+◌, ◌-◌, ◌*◌, ◌%◌, ◌^◌, ℤ, pos, negsuc, Bool, true, false, ◌&&◌, ◌||◌, ltb, leb,
  ◌≡◌, refl, ◌==◌, if◌then◌else◌, Option, none, some, List, String,
}
use distributed_replicated_c.Result.{Result, ok, throws, invalid_argument, out_of_range}

-- c_str(), as the numbers of the characters.
unfoldable pub codes : String → List ℕ
codes [] = List.[]
codes (x ∷ s) = List.◌∷◌ (code x) (codes s)

-- The texts before and after the first `c`.
unfoldable pub split_at : ℕ → String → Option (String × String)
split_at c [] = none
split_at c (x ∷ s) =
    let rest = split_at c s in
    if code x == c
    then some ([], s)
    else elim rest [ none ↦ none | some (before, after) ↦ some (x ∷ before, after) ]

abbrev pub is_digit : Char → Bool
is_digit x = leb 48 (code x) && leb (code x) 57

-- std::isspace
abbrev pub is_space : Char → Bool
is_space x = (code x == 32) || (leb 9 (code x) && leb (code x) 13)

-- The number that the digits at the front stand for, after the digits of `v`.
unfoldable pub read_digits : ℕ → String → ℕ
read_digits v [] = v
read_digits v (x ∷ s) =
    let rest = read_digits (v * 10 + (code x - 48)) s in if is_digit x then rest else v

abbrev pub minus : ℕ → ℤ
minus zero = pos 0
minus (suc n) = negsuc n

-- A number outside int is std::out_of_range.
unfoldable pub to_int : Bool → ℕ → Result ℤ
to_int true n = if leb n (2 ^ 31) then ok (minus n) else throws out_of_range
to_int false n = if ltb n (2 ^ 31) then ok (pos n) else throws out_of_range

unfoldable pub read_unsigned : Bool → String → Result ℤ
read_unsigned negative [] = throws (invalid_argument "stoi")
read_unsigned negative (x ∷ s) =
    if is_digit x then to_int negative (read_digits 0 (x ∷ s)) else throws (invalid_argument "stoi")

unfoldable pub read_signed : String → Result ℤ
read_signed [] = throws (invalid_argument "stoi")
read_signed (x ∷ s) =
    if code x == 45
    then read_unsigned true s
    else if code x == 43
    then read_unsigned false s
    else read_unsigned false (x ∷ s)

unfoldable pub skip_spaces : String → String
skip_spaces [] = []
skip_spaces (x ∷ s) = let rest = skip_spaces s in if is_space x then rest else x ∷ s

-- Characters behind the number are left alone.
unfoldable pub stoi : String → Result ℤ
stoi s = read_signed (skip_spaces s)

unfoldable pub digit : ℕ → Char
digit n =
    if n == 0
    then char 48 tt
    else if n == 1
    then char 49 tt
    else if n == 2
    then char 50 tt
    else if n == 3
    then char 51 tt
    else if n == 4
    then char 52 tt
    else if n == 5
    then char 53 tt
    else if n == 6
    then char 54 tt
    else if n == 7
    then char 55 tt
    else if n == 8
    then char 56 tt
    else char 57 tt

-- The decimal digits of `n` in front of a text. Fuel `k` is enough below 10 ^ (k + 1).
unfoldable pub digits : ℕ → ℕ → String → String
digits zero n text = digit n ∷ text
digits (suc k) n text =
    let rest = digits k (n / 10) (digit (n % 10) ∷ text) in
    if ltb n 10 then digit n ∷ text else rest

-- std::to_string of a number of up to 64 bits
unfoldable pub to_string : ℤ → String
to_string (pos n) = digits 19 n []
to_string (negsuc n) = char 45 tt ∷ digits 19 (n + 1) []

to_string_run : to_string (pos 40512) ≡ "40512"
unfolding to_string digits digit
to_string_run = refl
