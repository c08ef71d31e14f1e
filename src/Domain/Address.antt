-- ===== src/Domain/Address.antt =====
-- `Address` of packages/domain/schemas.py: which delivery addresses pydantic accepts. Texts are lists
-- of code points. What Python and the pattern engine take for white space and for a decimal digit
-- comes from the Unicode tables, which are a parameter.
use saup.Base.{
  ℕ, ◌+◌, Bool, true, false, not, ◌&&◌, ◌||◌, List, [], ◌∷◌, length, any, leb, ltb, ◌==◌,
}

pub record Unicode : Type 0 where
  pub is_space : ℕ → Bool
  pub is_decimal : ℕ → Bool

pub record Address : Type 0 where
  pub recipient : List ℕ
  pub phone : List ℕ
  pub postal_code : List ℕ
  pub address1 : List ℕ
  pub address2 : List ℕ

abbrev all : (ℕ → Bool) → List ℕ → Bool
all p [] = true
all p (c ∷ cs) = p c && all p cs

abbrev between : ℕ → ℕ → ℕ → Bool
between lo hi n = leb lo n && leb n hi

-- `no_control`: no control character, and some character that `strip` leaves, unless empty.
unfoldable pub no_control : Unicode → List ℕ → Bool
no_control u [] = true
no_control u (c ∷ cs) = not (any (λ x. ltb x 32) (c ∷ cs)) && not (all u.is_space (c ∷ cs))

abbrev is_digit : ℕ → Bool
is_digit c = between b'0' b'9' c

-- `0[0-9-]{8,14}`
unfoldable pub phone_shape : List ℕ → Bool
phone_shape [] = false
phone_shape (c ∷ cs) =
    c == b'0' && (between 8 14 (length cs) && all (λ x. is_digit x || x == b'-') cs)

-- The digits that `replace("-", "")` leaves.
unfoldable pub count_digits : List ℕ → ℕ
count_digits [] = 0
count_digits (c ∷ cs) = count_digits cs + elim (c == b'-') [ true ↦ 0 | false ↦ 1 ]

unfoldable pub phone_valid : List ℕ → Bool
unfolding phone_shape count_digits
phone_valid value = phone_shape value && between 9 11 (count_digits value)

unfoldable pub is_valid : Unicode → Address → Bool
unfolding no_control phone_valid
is_valid u a =
    between 1 80 (length a.recipient)
    && no_control u a.recipient
    && (between 9 20 (length a.phone) && phone_valid a.phone)
    && (length a.postal_code == 5 && all u.is_decimal a.postal_code)
    && (between 5 200 (length a.address1) && no_control u a.address1)
    && (leb (length a.address2) 200 && no_control u a.address2)
