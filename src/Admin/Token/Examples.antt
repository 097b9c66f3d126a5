-- ===== src/Admin/Token/Examples.antt =====
-- A strong token of 32 characters, and the same with a space at its end.
use unirate.Prelude.{◌≡◌, ◌↔◌, refl, none, ◌++◌}
use unirate.Prelude.Text.{
  Bytes, codes, ◌==◌, trim_space, trim_left, to_lower, starts_with, contains,
}
use unirate.Admin.Token.{
  validate_token, check_weak, published, with_prefix, with_marker, first_hit, is_single_rune,
  all_equal, IsStrong, validate_token-IsStrong,
}

abbrev pub strong_token : Bytes
strong_token = codes "kT9vR2xW7qLm4ZpN8sYb3HcD6fGj1AeU"

abbrev pub padded_token : Bytes
padded_token = strong_token ++ codes " "

pub strong_accepted : validate_token strong_token ≡ none
unfolding validate_token check_weak published with_prefix with_marker first_hit is_single_rune
    all_equal trim_space trim_left to_lower starts_with contains ◌==◌
strong_accepted = refl

pub padded_accepted : validate_token padded_token ≡ none
unfolding validate_token check_weak published with_prefix with_marker first_hit is_single_rune
    all_equal trim_space trim_left to_lower starts_with contains ◌==◌
padded_accepted = refl

validate_token-IsStrong_example :
    (validate_token strong_token ≡ none) ↔ IsStrong (trim_space strong_token)
validate_token-IsStrong_example = validate_token-IsStrong strong_token
