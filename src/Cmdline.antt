-- ===== src/Cmdline.antt =====
-- cmdline/parser.go: the parser of a kernel command line, a state machine over its characters. A string
-- is the list of its code points; the positions in the messages of the errors are left out.
pub mod Printing
mod Tests
use openpcc.Base.{
  ℕ, Bool, true, false, not, ◌&&◌, ◌||◌, ◌==◌, leb, List, [], ◌∷◌, ◌++◌, length, Result, ok, err,
  ◌>>=◌, if◌then◌else◌,
}
use openpcc.Base.Dict.{Dict, insert, list_eq}

abbrev pub Str : Type 0
Str = List ℕ

pub data Error : Type 0 where
  escape_outside_quotes quotes_in_key empty_key spaces_in_key : Error
  unterminated_escape unterminated_quotes : Error

pub data ParserState : Type 0 where
  key value value_quoted : ParserState

-- The local variables of `Parse`.
pub record Parser : Type 0 where
  pub result : Dict Str Str
  pub in_escape : Bool
  pub current_key : Str
  pub current_value : Str
  pub state : ParserState

abbrev pub start : Parser
start = record { result = []; in_escape = false; current_key = []; current_value = []; state = key }

abbrev pub in_key : ParserState → Bool
in_key key = true
in_key value = false
in_key value_quoted = false

abbrev pub in_quotes : ParserState → Bool
in_quotes key = false
in_quotes value = false
in_quotes value_quoted = true

-- The cases of the loop's `switch` after those of an escape, on a quote.
pub step_quote : Parser → Result Error Parser
step_quote p = elim (p.state) [
  | key ↦ err quotes_in_key
  | value ↦ ok (record p { state = value_quoted })
  | value_quoted ↦ ok (record p { state = value })
]

-- A space or a tab outside quotes.
pub step_space : Parser → Parser
step_space p = elim (p.state) [
  | key ↦
      if length p.current_key == 0
      then p
      else record p { result = insert p.current_key [] p.result; current_key = [] }
  | value ↦ record p {
    result = insert p.current_key p.current_value p.result;
    current_key = [];
    current_value = [];
    state = key;
  }
  | value_quoted ↦ p
]

-- A character that is added to what is read.
pub step_char : ℕ → Parser → Parser
step_char r p =
    if in_key p.state
    then record p { current_key = p.current_key ++ r ∷ [] }
    else record p { current_value = p.current_value ++ r ∷ [] }

abbrev pub is_blank : ℕ → Bool
is_blank r = (r == b' ') || (r == 9)

-- One round of the loop.
pub step : ℕ → Parser → Result Error Parser
step r p =
    if p.in_escape
    then (if not (in_quotes p.state)
        then err escape_outside_quotes
        else ok (record p { current_value = p.current_value ++ r ∷ []; in_escape = false }))
    else if r == 92
    then (if not (in_quotes p.state)
        then err escape_outside_quotes
        else ok (record p { in_escape = true }))
    else if r == 34
    then step_quote p
    else if (r == b'=') && in_key p.state
    then (if length p.current_key == 0 then err empty_key else ok (record p { state = value }))
    else if is_blank r && not (in_quotes p.state)
    then ok (step_space p)
    else if is_blank r
    then (if in_key p.state
        then err spaces_in_key
        else ok (record p { current_value = p.current_value ++ r ∷ [] }))
    else ok (step_char r p)

-- The loop.
pub run : Str → Parser → Result Error Parser
run [] p = ok p
run (r ∷ rs) p = step r p >>= run rs

-- `Parse` after the loop.
pub finish : Parser → Result Error (Dict Str Str)
finish p =
    if p.in_escape
    then err unterminated_escape
    else if in_quotes p.state
    then err unterminated_quotes
    else if length p.current_key == 0
    then ok p.result
    else if in_key p.state
    then ok (insert p.current_key [] p.result)
    else ok (insert p.current_key p.current_value p.result)

-- `unicode.IsSpace`
pub is_space : ℕ → Bool
is_space r =
    (leb 9 r && leb r 13)
    || (r == 32)
    || (r == 0x85)
    || (r == 0xa0)
    || (r == 0x1680)
    || (leb 0x2000 r && leb r 0x200a)
    || (r == 0x2028)
    || (r == 0x2029)
    || (r == 0x202f)
    || (r == 0x205f)
    || (r == 0x3000)

pub trim_left : Str → Str
trim_left [] = []
trim_left (r ∷ rs) = let rest = trim_left rs in if is_space r then rest else r ∷ rs

pub trim_right : Str → Str
trim_right [] = []
trim_right (r ∷ rs) =
    let rest = trim_right rs in if is_space r && (length rest == 0) then [] else r ∷ rest

-- `Parse`
pub parse : Str → Result Error (Dict Str Str)
parse cmdline = run (trim_right (trim_left cmdline)) start >>= finish
