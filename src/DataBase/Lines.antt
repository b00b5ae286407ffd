-- ===== src/DataBase/Lines.antt =====
-- How `getFinishedJobs` copies a result file: line by line, each up to its first NUL.
use opcuatesttool.Prelude.{nat_eq, ◌≡◌, false, [], ◌∷◌, ◌++◌}
use opcuatesttool.Std.Text.{Text, newline, Lacks, is_empty, lines-Lacks, c_str-Lacks}
use opcuatesttool.DataBase.Finished.{copy_lines, copy_file}

-- A result file with some text, no newline and no NUL character, as the runner writes it, is
-- copied to a page as it is, with a newline after it.
pub copy_file_line :
    (text : Text)
    → is_empty text ≡ false
    → Lacks newline text
    → Lacks 0 text
    → copy_file text ≡ text ++ newline ∷ []
unfolding copy_file copy_lines
copy_file_line text some_text one_line no_nul =
    rw (lines-Lacks text one_line some_text, c_str-Lacks text no_nul)
