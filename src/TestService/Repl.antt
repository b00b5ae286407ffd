-- ===== src/TestService/Repl.antt =====
-- `Repl::newLine` of testService/Repl.h, and the loop that passes on what the interpreter writes.
use opcuatesttool.Prelude.{ℕ, nat_eq, Option, none, some, [], ◌∷◌, ◌++◌}
use opcuatesttool.Std.Text.{Text, newline}

-- `ioctl(STDIN_FILENO, TIOCSTI, …)`: the pending input after one more character, or an error.
abbrev pub Inject : Type 0
Inject = Text → ℕ → Option Text

abbrev kept : Text → Option Text → Text
kept terminal none = terminal
kept terminal (some terminal') = terminal'

-- An error is printed, and the next character is tried.
unfoldable pub inject_all : Inject → Text → Text → Text
inject_all inject [] terminal = terminal
inject_all inject (c ∷ s) terminal = inject_all inject s (kept terminal (inject terminal c))

unfoldable pub new_line : Inject → Text → Text → Text
unfolding inject_all
new_line inject line terminal = inject_all inject (line ++ newline ∷ []) terminal
