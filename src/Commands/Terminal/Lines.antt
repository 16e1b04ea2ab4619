-- ===== src/Commands/Terminal/Lines.antt =====
-- cmd/sqlite-client/main.go: statements over several lines.
use sqliteproxy.Base.{
  true, false, Text, codes, none, some, List, [], ◌∷◌, ◌++◌, ◌≡◌, refl, sym, ap, ◌∙◌, map,
  append_assoc, concat, is_empty, has_suffix, trim_space, All,
}
use sqliteproxy.Commands.Terminal.{
  Input, typed, Command, command_of, Prompt, run_command, without_last, read_line, submit, turn,
  continue_with, prompt_loop,
}

-- A line that goes on on the next one.
abbrev pub Continued : Text → Type 0
Continued s = has_suffix (codes "\\") (trim_space s) ≡ true

-- A line with a text that ends a statement.
abbrev pub Ending : Text → Type 0
Ending s = (is_empty (trim_space s) ≡ false) × (has_suffix (codes "\\") (trim_space s) ≡ false)

-- What a continued line adds to the buffer.
abbrev pub piece : Text → Text
piece s = without_last (trim_space s) ++ codes " "

abbrev pub completed : Text → Prompt → Prompt
completed input p =
    run_command (command_of input) (record p { multiline_buffer = []; history = input ∷ p.history })

nonempty : (s : Text) → has_suffix (codes "\\") s ≡ true → is_empty s ≡ false
unfolding has_suffix
nonempty [] h = cc
nonempty (c ∷ s) h = refl

turn-Continued :
    (s : Text) (p : Prompt)
    → Continued s
    → turn (typed s) p ≡ (none, record p { multiline_buffer = p.multiline_buffer ++ piece s })
unfolding turn read_line
turn-Continued s p h = rw (nonempty _ h, h) refl

turn-Ending :
    (s : Text) (p : Prompt)
    → Ending s
    → turn (typed s) p ≡ (
      some (command_of (p.multiline_buffer ++ trim_space s)),
      completed (p.multiline_buffer ++ trim_space s) p,
    )
unfolding turn read_line submit
turn-Ending s p h = rw (h.0, h.1) refl

-- The line is the statement `whole`, and the loop goes on.
abbrev pub run_from : Text → List Input → Prompt → List Command × Prompt
run_from whole rest p =
    continue_with (some (command_of whole)) (completed whole p)
      (prompt_loop rest (completed whole p))

prompt_loop-Ending :
    (s : Text) (p : Prompt) (rest : List Input)
    → Ending s
    → prompt_loop (typed s ∷ rest) p ≡ run_from (p.multiline_buffer ++ trim_space s) rest p
unfolding prompt_loop
prompt_loop-Ending s p rest h =
    ap (λ t. continue_with t.0 t.1 (prompt_loop rest t.1)) (turn-Ending s p h)

regroup : (a b c d : Text) → (a ++ b) ++ (c ++ d) ≡ a ++ ((b ++ c) ++ d)
regroup a b c d = append_assoc a b (c ++ d) ∙ ap (λ x. a ++ x) (sym (append_assoc b c d))

-- Lines that end in a backslash and then one that does not are one statement: it is what they hold, each
-- without its backslash and with a blank in its place. It is the one command of these lines, and the
-- loop goes on from the state in which it has been put into the history, once, and the buffer is empty.
pub prompt_loop-Continued :
    (ls : List Text) (s : Text) (rest : List Input) (p : Prompt)
    → All Continued ls
    → Ending s
    → prompt_loop (map typed ls ++ (typed s ∷ rest)) p
      ≡ run_from (p.multiline_buffer ++ (concat (map piece ls) ++ trim_space s)) rest p
unfolding prompt_loop
prompt_loop-Continued [] s rest p hs h = prompt_loop-Ending s p rest h
prompt_loop-Continued (l ∷ ls) s rest p hs h =
    let next = record p { multiline_buffer = p.multiline_buffer ++ piece l } in
    ap (λ t. continue_with t.0 t.1 (prompt_loop (map typed ls ++ (typed s ∷ rest)) t.1))
      (turn-Continued l p hs.0)
    ∙ prompt_loop-Continued ls s rest next hs.1 h
    ∙ ap (λ x. run_from x rest p)
        (regroup p.multiline_buffer (piece l) (concat (map piece ls)) (trim_space s))
