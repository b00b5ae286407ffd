-- ===== src/Repl/Process.antt =====
-- The constructor of `Repl` in testService/Repl.h up to the thread, and the same lines of `main` in
-- repl/server.cpp: a pipe, a fork, and the descriptors of the two processes.
use opcuatesttool.Prelude.{
  ℕ, zero, suc, nat_eq, ◌+◌, ◌≤◌, ◌<◌, ◌≡◌, ◌≢◌, refl, Option, none, some, List, [], ◌∷◌, ◌==◌, ltb,
  if◌then◌else◌, ℤ, arith, beq_self, beq_ne, Bool-cases, inl, inr, sym, ◌∙◌,
}
use opcuatesttool.Std.Text.{Text, codes}
use opcuatesttool.JobScheduler.Defs.{Fork, fork_failed, forked}

-- What a descriptor is open on.
pub data Channel : Type 0 where
  pipe_read pipe_write elsewhere : Channel

-- The open descriptors of a process.
abbrev pub Files : Type 0
Files = ℕ → Option Channel

unfoldable pub assign : ℕ → Option Channel → Files → Files
assign fd channel files n = if n == fd then channel else files n

abbrev pub close : ℕ → Files → Files
close fd = assign fd none

-- `for (fd = from; fd < from + rounds; fd++) close(fd)`.
unfoldable pub close_range : ℕ → ℕ → Files → Files
unfolding assign
close_range from zero files = files
close_range from (suc rounds) files = close_range (from + 1) rounds (close from files)

-- `dup2`; it does nothing if `old` is not open.
dup2_open : Option Channel → ℕ → Files → Files
unfolding assign
dup2_open none new files = files
dup2_open (some channel) new files = assign new (some channel) files

unfoldable pub dup2 : ℕ → ℕ → Files → Files
unfolding dup2_open
dup2 old new files = dup2_open (files old) new files

-- What `pipe` returns: the read end and the write end.
pub data Pipe : Type 0 where
  pipe_failed : Pipe
  piped : ℕ → ℕ → Pipe

-- The branch of the child up to `execv`.
unfoldable pub child_files : ℕ → ℕ → Files → Files
unfolding close_range dup2
child_files r w files = dup2 w 1 (close_range 6 250 (close r files))

pub record ReplProcess : Type 0 where
  pub pid : ℤ
  pub path : Text
  pub argv : List Text
  pub files : Files
  pub sent : Text  -- written to the pipe before `execv`

-- Both processes after the constructor; the child's files are those at `execv`.
pub record Started : Type 0 where
  pub child : ReplProcess
  pub files : Files

abbrev pub piped_files : ℕ → ℕ → Files → Files
piped_files r w files = assign w (some pipe_write) (assign r (some pipe_read) files)

unfoldable pub fork_repl : Text → ℕ → ℕ → Fork → Files → Option Started
unfolding child_files assign
fork_repl path r w fork_failed files = none
fork_repl path r w (forked pid) files = some (record {
  child = record {
    pid = pid;
    path = path;
    argv = codes "./repl" ∷ [];
    files = child_files r w (piped_files r w files);
    sent = codes "test";
  };
  files = close w (piped_files r w files);
})

-- The interpreter is the program at `path`; `none` is `exit(EXIT_FAILURE)`.
unfoldable pub start_repl : Text → Pipe → Fork → Files → Option Started
unfolding fork_repl
start_repl path pipe_failed fork files = none
start_repl path (piped r w) fork files = fork_repl path r w fork files

close_range-below :
    (n from rounds : ℕ) (files : Files) → n < from → close_range from rounds files n ≡ files n
unfolding close_range assign
close_range-below n from zero files h = refl
close_range-below n from (suc rounds) files h =
    close_range-below n (from + 1) rounds (close from files) (omega arith)
    ∙ rw (beq_ne n from (λ e. omega arith))

close_range-within :
    (n from rounds : ℕ) (files : Files)
    → from ≤ n
    → n < from + rounds
    → close_range from rounds files n ≡ none
unfolding close_range assign
close_range-within n from zero files h k = absurd (omega arith)
close_range-within n from (suc rounds) files h k = elim (Bool-cases (n == from)) [
  | inl same ↦ close_range-below n (from + 1) rounds (close from files) (ground arith) ∙ rw same
  | inr other ↦
      close_range-within n (from + 1) rounds (close from files) (ground arith) (omega arith)
]

module _ (r w : ℕ) (files : Files) (apart : r ≢ w) (r_ne : r ≢ 1) (w_ne : w ≢ 1) where
  before_dup2 : Files
  before_dup2 = close_range 6 250 (close r (piped_files r w files))

  before_dup2-low : w < 6 → before_dup2 w ≡ some pipe_write
  unfolding before_dup2 assign
  before_dup2-low h =
      close_range-below w 6 250 (close r (piped_files r w files)) h
      ∙ rw (beq_ne w r (λ e. apart (sym e)), beq_self w)

  before_dup2-high : 6 ≤ w → w < 256 → before_dup2 w ≡ none
  unfolding before_dup2
  before_dup2-high h k =
      close_range-within w 6 250 (close r (piped_files r w files)) h (omega arith)

  before_dup2-stdout : before_dup2 1 ≡ files 1
  unfolding before_dup2 assign
  before_dup2-stdout =
      close_range-below 1 6 250 (close r (piped_files r w files)) (omega arith)
      ∙ rw (beq_ne 1 r (λ e. r_ne (sym e)), beq_ne 1 w (λ e. w_ne (sym e)))

  -- The standard output of the child.
  child_files-stdout :
      w < 256
      → child_files r w (piped_files r w files) 1 ≡ (if ltb w 6 then some pipe_write else files 1)
  unfolding child_files before_dup2 assign
  child_files-stdout fits = elim (Bool-cases (ltb w 6)) [
    | inl low ↦ rw (low, before_dup2-low (ground arith), dup2_open)
    | inr high ↦ rw (high, before_dup2-high (ground arith) fits, dup2_open) before_dup2-stdout
  ]

  -- Where the pipe has two different descriptors, neither of them 1 and the write end below 256,
  -- and `fork` succeeds: the start of the interpreter returns; its standard output is the write
  -- end if that is below 6, and else what it was before, since the child closes the descriptors
  -- from 6 on; the service keeps the read end and not the write end.
  pub start_repl_pipe :
      (path : Text) (pid : ℤ)
      → w < 256
      → (started : Started) × (start_repl path (piped r w) (forked pid) files ≡ some started)
        × (started.child.files 1 ≡ (if ltb w 6 then some pipe_write else files 1))
        × (started.files r ≡ some pipe_read)
        × (started.files w ≡ none)
  unfolding start_repl assign
  start_repl_pipe path pid fits =
      (_, refl, child_files-stdout fits, rw (beq_ne r w apart, beq_self r), rw (beq_self w))
