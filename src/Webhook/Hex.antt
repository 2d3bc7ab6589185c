-- ===== src/Webhook/Hex.antt =====
-- `hex.DecodeString` of the standard library, which internal/webhook/service.go calls.
use order_mock_payment.Prelude.{
  ℕ, ◌+◌, ◌-◌, ◌*◌, Option, none, some, [], ◌∷◌, ◌&&◌, leb, if◌then◌else◌,
}
use order_mock_payment.Text.{Text}

-- The value of a hexadecimal digit.
unfoldable pub digit : ℕ → Option ℕ
digit c =
    if leb 48 c && leb c 57
    then some (c - 48)
    else if leb 97 c && leb c 102
    then some (c - 87)
    else if leb 65 c && leb c 70
    then some (c - 55)
    else none

abbrev pub byte : Option ℕ → Option ℕ → Option Text → Option Text
byte (some a) (some b) (some s) = some ((a * 16 + b) ∷ s)
byte (some a) (some b) none = none
byte (some a) none s = none
byte none b s = none

-- The bytes that two digits each stand for; `none` on another character or an odd length.
unfoldable pub decode_string : Text → Option Text
unfolding digit
decode_string [] = some []
decode_string (a ∷ []) = none
decode_string (a ∷ (b ∷ s)) = byte (digit a) (digit b) (decode_string s)
