-- ===== src/Examples/Config.antt =====
-- The theorems on the settings, with a map of settings for viper.
use order_mock_payment.Prelude.{
  ◌≡◌, ◌↔◌, refl, String, false, none, List, [], ◌∷◌, str_eq, if◌then◌else◌,
}
use order_mock_payment.Text.{codes, len}
use order_mock_payment.Config.{ℤ, pos, Config, validate}
use order_mock_payment.Config.Valid.{IsValid, validate_iff}
use order_mock_payment.Config.Load.{
  Setting, string, number, duration, Viper, load, load-IsValid, config_of, defaults, set_defaults,
}

abbrev pub Settings : Type 0
Settings = List (String × Setting)

-- The first setting of a key.
abbrev pub lookup : String → Settings → Setting
lookup key [] = string ""
lookup key ((k, v) ∷ s) = let rest = lookup key s in if str_eq k key then v else rest

abbrev pub text_of : Setting → String
text_of (string s) = s
text_of (number x) = ""
text_of (duration x) = ""

abbrev pub number_of : Setting → ℤ
number_of (string s) = pos 0
number_of (number x) = x
number_of (duration x) = x

-- What the environment sets.
abbrev pub given : Settings
given =
    ("POSTGRES_USER", string "shop")
    ∷ ("POSTGRES_DB", string "shop")
    ∷ ("JWT_SECRET", string "0123456789abcdef0123456789abcdef")
    ∷ ("WEBHOOK_SECRET", string "0123456789abcdef0123456789abcdef")
    ∷ []

abbrev pub behind : Settings → String × Setting → Settings
behind [] d = d ∷ []
behind (x ∷ s) d = x ∷ behind s d

abbrev pub viper : Viper Settings
viper = record {
  new = [];
  automatic_env = λ s. given;
  set_default = λ key value s. behind s (key, value);
  read_in_config = λ file type s. (none, s);
  get_string = λ s key. text_of (lookup key s);
  get_text = λ s key. codes (text_of (lookup key s));
  get_int = λ s key. number_of (lookup key s);
  get_duration = λ s key. number_of (lookup key s);
}

abbrev pub settings : Config
settings = config_of viper (set_defaults viper defaults given)

validate_iff_example : (validate settings ≡ none) ↔ IsValid settings
validate_iff_example = validate_iff settings

load-IsValid_example : IsValid settings
unfolding load len
load-IsValid_example = load-IsValid viper false refl
