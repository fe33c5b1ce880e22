-- ===== src/Prelude/Text.antt =====
-- The functions of Go's packages `strings` and `strconv` that the program calls.
use lbex.Prelude.Tests.{ltb, leb, nat_beq, if◌then◌else◌, Bool-cases}
use lbex.Prelude.Int.{ℤ, pos, negsuc, IsInt64}
use Prim.Native.Nat.{ℕ, zero, suc, ◌+◌, ◌-◌, ◌*◌, ◌/◌, ◌%◌, ◌^◌}
use Prim.Native.Char.{Char, code}
use Prim.Native.String.{String, [], ◌∷◌, ◌++◌}
use mathlib.Core.Path.{◌≡◌, refl, sym, ◌∙◌}
use mathlib.Core.Logic.{inl, inr}
use native.Mathlib.Omega.{arith}
use mathlib.Core.Bool.{Bool, true, false, ◌&&◌, ◌||◌}
use mathlib.Core.Option.{Option, none, some}
use text.Mathlib.Text.{◌==◌}

-- strings.Replace(s, old, new, -1) for texts of one character
unfoldable pub replace_all : Char → Char → String → String
replace_all old new [] = []
replace_all old new (c ∷ s) =
    (if nat_beq (code c) (code old) then new else c) ∷ replace_all old new s

-- strings.EqualFold, where neither text has a letter that folds to one outside ASCII
abbrev fold : ℕ → ℕ
fold c = if leb b'A' c && leb c b'Z' then c + 32 else c

unfoldable pub equal_fold : String → String → Bool
equal_fold [] [] = true
equal_fold (c ∷ s) (d ∷ t) = nat_beq (fold (code c)) (fold (code d)) && equal_fold s t
equal_fold [] (d ∷ t) = false
equal_fold (c ∷ s) [] = false

-- strings.ToUpper, on texts in ASCII
letter : String → String → Char → Char
letter [] uppers c = c
letter (d ∷ lowers) [] c = c
letter (d ∷ lowers) (e ∷ uppers) c = if nat_beq (code c) (code d) then e else letter lowers uppers c

unfoldable pub to_upper : String → String
unfolding letter
to_upper [] = []
to_upper (c ∷ s) = letter "abcdefghijklmnopqrstuvwxyz" "ABCDEFGHIJKLMNOPQRSTUVWXYZ" c ∷ to_upper s

-- strings.HasPrefix
unfoldable pub has_prefix : String → String → Bool
has_prefix s [] = true
has_prefix [] (d ∷ t) = false
has_prefix (c ∷ s) (d ∷ t) = nat_beq (code c) (code d) && has_prefix s t

-- strconv.Atoi and strconv.ParseInt(s, 10, 64): an optional sign, then digits, within 64 bits
atoi_digits : ℕ → String → Option ℕ
atoi_digits n [] = some n
atoi_digits n (c ∷ s) =
    if leb b'0' (code c) && leb (code c) b'9'
    then atoi_digits (n * 10 + (code c - b'0')) s
    else none

atoi_unsigned : String → Option ℕ
unfolding atoi_digits
atoi_unsigned [] = none
atoi_unsigned (c ∷ s) = atoi_digits 0 (c ∷ s)

in_range : Bool → Option ℕ → Option ℤ
in_range negative none = none
in_range true (some zero) = some (pos 0)
in_range true (some (suc n)) = if ltb n (2 ^ 63) then some (negsuc n) else none
in_range false (some n) = if ltb n (2 ^ 63) then some (pos n) else none

unfoldable pub atoi : String → Option ℤ
unfolding atoi_unsigned in_range
atoi [] = none
atoi (c ∷ s) =
    if nat_beq (code c) b'-'
    then in_range true (atoi_unsigned s)
    else if nat_beq (code c) b'+'
    then in_range false (atoi_unsigned s)
    else in_range false (atoi_unsigned (c ∷ s))

-- strconv.ParseBool
unfoldable pub parse_bool : String → Option Bool
parse_bool s =
    if s == "1" || s == "t" || s == "T" || s == "TRUE" || s == "true" || s == "True"
    then some true
    else if s == "0" || s == "f" || s == "F" || s == "FALSE" || s == "false" || s == "False"
    then some false
    else none

-- strconv.Itoa: the digits, last first; the fuel is above the number, so it is never used up
digit : ℕ → String
digit zero = "0"
digit (suc zero) = "1"
digit (suc (suc zero)) = "2"
digit (suc (suc (suc zero))) = "3"
digit (suc (suc (suc (suc zero)))) = "4"
digit (suc (suc (suc (suc (suc zero))))) = "5"
digit (suc (suc (suc (suc (suc (suc zero)))))) = "6"
digit (suc (suc (suc (suc (suc (suc (suc zero))))))) = "7"
digit (suc (suc (suc (suc (suc (suc (suc (suc zero)))))))) = "8"
digit _ = "9"

decimal : ℕ → ℕ → String
unfolding digit
decimal zero n = ""
decimal (suc fuel) n =
    let rest = decimal fuel (n / 10) ++ digit (n % 10) in if ltb n 10 then digit n else rest

unfoldable pub itoa : ℤ → String
unfolding decimal
itoa (pos n) = decimal (suc n) n
itoa (negsuc n) = "-" ++ decimal (suc (suc n)) (suc n)

text_tests :
    (atoi "-80" ≡ some (negsuc 79))
    × (atoi "+8080" ≡ some (pos 8080))
    × (atoi "80a" ≡ none)
    × (atoi "9223372036854775808" ≡ none)
    × (itoa (pos 30123) ≡ "30123")
    × (itoa (negsuc 0) ≡ "-1")
    × (equal_fold "UDP" "udp" ≡ true)
    × (equal_fold "NonE" "none" ≡ true)
    × (has_prefix "kube-system/dns" "kube-system/" ≡ true)
    × (to_upper "health-port2" ≡ "HEALTH-PORT2")
    × (replace_all "/" "-" "default/web" ≡ "default-web")
unfolding atoi itoa equal_fold has_prefix replace_all to_upper
text_tests = (refl, refl, refl, refl, refl, refl, refl, refl, refl, refl, refl)

in_range-IsInt64 :
    (negative : Bool) (o : Option ℕ) (i : ℤ) → in_range negative o ≡ some i → IsInt64 i
unfolding in_range
in_range-IsInt64 negative none i h = cc
in_range-IsInt64 true (some zero) i h = ground (arith, h)
in_range-IsInt64 true (some (suc n)) i h = ground (arith, h)
in_range-IsInt64 false (some n) i h = ground (arith, h)

-- strconv.Atoi and strconv.ParseInt never give a number that does not fit in 64 bits.
pub atoi-IsInt64 : (s : String) (i : ℤ) → atoi s ≡ some i → IsInt64 i
unfolding atoi
atoi-IsInt64 [] i h = cc
atoi-IsInt64 (c ∷ s) i h = elim (Bool-cases (nat_beq (code c) b'-')) [
  | inl minus ↦ in_range-IsInt64 true (atoi_unsigned s) i (sym (rw (atoi, minus) refl) ∙ h)
  | inr other ↦ elim (Bool-cases (nat_beq (code c) b'+')) [
    | inl plus ↦ in_range-IsInt64 false (atoi_unsigned s) i (sym (rw (atoi, other, plus) refl) ∙ h)
    | inr digit ↦
        in_range-IsInt64 false (atoi_unsigned (c ∷ s)) i (sym (rw (atoi, other, digit) refl) ∙ h)
  ]
]
