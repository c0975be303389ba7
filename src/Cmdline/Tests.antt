-- ===== src/Cmdline/Tests.antt =====
-- Command lines at concrete inputs.
use openpcc.Base.{◌≡◌, refl, List, [], ◌∷◌, ok}
use openpcc.Base.Dict.{insert, list_eq}
use openpcc.Cmdline.{
  Str, parse, run, step, step_char, step_quote, step_space, finish, is_space, trim_left, trim_right,
}
use openpcc.Cmdline.Printing.{print, insert_all, parse-print}

-- `root=/sda quiet`
reads :
    parse (
      b'r' ∷ b'o' ∷ b'o' ∷ b't' ∷ b'=' ∷ b'/' ∷ b's' ∷ b'd' ∷ b'a' ∷ b' ' ∷ b'q' ∷ b'u' ∷ b'i'
      ∷ b'e' ∷ b't' ∷ [])
    ≡ ok (
        (b'r' ∷ b'o' ∷ b'o' ∷ b't' ∷ [], b'/' ∷ b's' ∷ b'd' ∷ b'a' ∷ [])
        ∷ (b'q' ∷ b'u' ∷ b'i' ∷ b'e' ∷ b't' ∷ [], [])
        ∷ [])
unfolding parse run step step_char step_quote step_space finish is_space trim_left trim_right insert
reads = refl

abbrev pairs : List (Str × Str)
pairs = (97 ∷ [], 34 ∷ 32 ∷ 92 ∷ []) ∷ (98 ∷ [], []) ∷ []

parse-print_example : parse (print pairs) ≡ ok (insert_all pairs [])
unfolding is_space
parse-print_example = parse-print pairs ((refl, (refl, tt)), ((refl, (refl, tt)), tt))
