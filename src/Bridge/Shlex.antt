-- ===== src/Bridge/Shlex.antt =====
-- `shlex.split` as handle_gate of bridge.py calls it: words, quotes and escapes, without comments.
use Prim.Native.Char.{Char, code}
use dvk_claude.Common.{
  ℕ, String, Bool, not, ◌&&◌, ◌||◌, List, [], ◌∷◌, ◌=?◌, if◌then◌else◌, onto_head,
}
use dvk_claude.Result.{Result, ok, err, value_error}

-- Between words, in a word, in quotes, and behind a backslash in a word or in quotes.
pub data Mode : Type 0 where
  blank word : Mode
  quoted escaped_in : ℕ → Mode
  escaped : Mode

-- What a character adds to the words.
pub data Emit : Type 0 where
  nothing boundary : Emit
  letter after_backslash : Char → Emit

pub record Step : Type 0 where
  pub mode : Mode
  pub emit : Emit

abbrev go : Mode → Emit → Step
go mode emit = record { mode = mode; emit = emit }

abbrev is_blank_char : ℕ → Bool
is_blank_char c = c =? 32 || c =? 9 || c =? 10 || c =? 13

abbrev is_quote : ℕ → Bool
is_quote c = c =? 34 || c =? 39

abbrev is_backslash : ℕ → Bool
is_backslash c = c =? 92

abbrev pub step : Mode → Char → Step
step blank c =
    if is_blank_char (code c)
    then go blank nothing
    else if is_backslash (code c)
    then go escaped nothing
    else if is_quote (code c)
    then go (quoted (code c)) nothing
    else go word (letter c)
step word c =
    if is_blank_char (code c)
    then go blank boundary
    else if is_quote (code c)
    then go (quoted (code c)) nothing
    else if is_backslash (code c)
    then go escaped nothing
    else go word (letter c)
step (quoted q) c =
    if code c =? q
    then go word nothing
    else if is_backslash (code c) && q =? 34
    then go (escaped_in q) nothing
    else go (quoted q) (letter c)
step (escaped_in q) c =
    if not (is_backslash (code c)) && not (code c =? q)
    then go (quoted q) (after_backslash c)
    else go (quoted q) (letter c)
step escaped c = go word (letter c)

-- The words behind what a character adds; the word that is read stands first.
abbrev pub emitted : Emit → List String → List String
emitted nothing ws = ws
emitted boundary ws = "" ∷ ws
emitted (letter c) ws = onto_head c ws
emitted (after_backslash c) ws = onto_head "\\" (onto_head c ws)

abbrev pub emit_onto : Emit → Result (List String) → Result (List String)
emit_onto e (ok ws) = ok (emitted e ws)
emit_onto e (err x) = err x

abbrev pub ends : Mode → Result (List String)
ends blank = ok []
ends word = ok ("" ∷ [])
ends (quoted q) = err (value_error "No closing quotation")
ends (escaped_in q) = err (value_error "No escaped character")
ends escaped = err (value_error "No escaped character")

unfoldable pub words : Mode → String → Result (List String)
unfolding onto_head
words m String.[] = ends m
words m (String.◌∷◌ c rest) = emit_onto (step m c).emit (words (step m c).mode rest)

-- `shlex.split`
abbrev pub shlex_split : String → Result (List String)
shlex_split = words blank
