-- ===== src/Preprocess/Text.antt =====
-- The text that the tokenizer is given: `strings.ReplaceAll(text, "<mask>", " ")`, and `%d`.
use Prim.Native.Char.{code}
use Prim.Native.String.{◌++◌}
use laya_go.Prelude.{
  ℕ, zero, suc, ◌/◌, ◌%◌, ◌≡◌, refl, String, Bool, true, false, ◌&&◌, List, [], ◌∷◌, get_or, ltb,
  ◌==◌, if◌then◌else◌,
}

-- Whether the text begins with the pattern.
unfoldable pub has_prefix : String → String → Bool
has_prefix String.[] s = true
has_prefix (String.◌∷◌ p ps) String.[] = false
has_prefix (String.◌∷◌ p ps) (String.◌∷◌ c s) = code p == code c && has_prefix ps s

abbrev pub mask_token_text : String
mask_token_text = "<mask>"

-- The number counts the characters of a match that are still to be skipped.
unfoldable pub replace_from : ℕ → String → String
unfolding has_prefix
replace_from skip String.[] = String.[]
replace_from (suc skip) (String.◌∷◌ c s) = replace_from skip s
replace_from zero (String.◌∷◌ c s) =
    let matched = replace_from 5 s in
    let kept = replace_from zero s in
    if has_prefix mask_token_text (String.◌∷◌ c s) then " " ++ matched else String.◌∷◌ c kept

unfoldable pub replace_mask : String → String
unfolding replace_from
replace_mask s = replace_from 0 s

abbrev pub digits : List String
digits = "0" ∷ "1" ∷ "2" ∷ "3" ∷ "4" ∷ "5" ∷ "6" ∷ "7" ∷ "8" ∷ "9" ∷ []

-- A number has fewer digits than itself and one, so that fuel is enough.
unfoldable pub decimal_from : ℕ → ℕ → String
decimal_from zero n = ""
decimal_from (suc fuel) n =
    let rest = decimal_from fuel (n / 10) in
    let last = get_or digits (n % 10) "" in if ltb n 10 then last else rest ++ last

unfoldable pub decimal : ℕ → String
unfolding decimal_from
decimal n = decimal_from (suc n) n

replaces : replace_mask "a<mask>b<ma" ≡ "a b<ma"
unfolding replace_mask
replaces = refl

prints : decimal 120 ≡ "120"
unfolding decimal
prints = refl
