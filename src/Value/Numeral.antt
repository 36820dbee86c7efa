-- ===== src/Value/Numeral.antt =====
-- `int(text)` in base ten: white space round it, a sign, digits with single `_` between them.
-- Digits beyond ASCII and the limit on a literal's length are left out.
use rabbitmq_pika_adapter.Prelude.{
  ℕ, ◌+◌, ◌-◌, ◌*◌, Bool, true, false, ◌&&◌, Option, none, some, List, [], ◌∷◌, leb, ◌==◌,
  if◌then◌else◌,
}
use rabbitmq_pika_adapter.Prelude.Int.{ℤ, pos, negate}
use rabbitmq_pika_adapter.Value.Text.{strip}

-- `after_digit`: the last character read was a digit
unfoldable pub parse_digits : ℕ → Bool → List ℕ → Option ℕ
parse_digits acc true [] = some acc
parse_digits acc false [] = none
parse_digits acc after_digit (c ∷ s) = elim (leb b'0' c && leb c b'9') [
  | true ↦ parse_digits (acc * 10 + (c - b'0')) true s
  | false ↦ elim (after_digit && c == b'_') [ true ↦ parse_digits acc false s | false ↦ none ]
]

abbrev with_sign : (ℕ → ℤ) → Option ℕ → Option ℤ
with_sign sign none = none
with_sign sign (some n) = some (sign n)

unfoldable pub parse_signed : List ℕ → Option ℤ
unfolding parse_digits
parse_signed [] = none
parse_signed (c ∷ s) =
    if c == b'-'
    then with_sign negate (parse_digits 0 false s)
    else if c == b'+'
    then with_sign pos (parse_digits 0 false s)
    else with_sign pos (parse_digits 0 false (c ∷ s))

unfoldable pub parse_int : List ℕ → Option ℤ
unfolding parse_signed strip
parse_int s = parse_signed (strip s)
