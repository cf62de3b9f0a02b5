-- ===== src/Shell/Parser.antt =====
-- Minix_shell/GRS_Source_Code/grsParser.c: grsFillCmd cuts a line at | < > ; & and sets the flags;
-- grsCmdLoop chooses the handler.
pub mod Laws
pub mod Lines
use gjworks.Common.{
  ℕ, zero, suc, ◌+◌, ◌≡◌, Bool, true, false, ◌||◌, ◌&&◌, not, List, [], ◌∷◌, ◌++◌, ◌==◌, leb,
  if◌then◌else◌, length, str_eq,
}
use gjworks.Machine.{Run, ok, fault, ◌>>=◌}

-- `struct grsFlags`
pub record Flags : Type 0 where
  pub pipe : Bool
  pub redir_out : Bool
  pub redir_in : Bool
  pub background : Bool
  pub if_then_else : Bool

-- `grsClearFlags`
abbrev pub clear_flags : Flags
clear_flags = record {
  pipe = false;
  redir_out = false;
  redir_in = false;
  background = false;
  if_then_else = false;
}

unfoldable pub is_separator : ℕ → Bool
is_separator c = (c == 38) || ((c == 124) || ((c == 62) || ((c == 60) || (c == 59))))

-- The flag of a separator: & | > < ;
unfoldable pub raise : ℕ → Flags → Flags
raise c f = record {
  pipe = (c == 124) || f.pipe;
  redir_out = (c == 62) || f.redir_out;
  redir_in = (c == 60) || f.redir_in;
  background = (c == 38) || f.background;
  if_then_else = (c == 59) || f.if_then_else;
}

abbrev pub is_empty : List ℕ → Bool
is_empty [] = true
is_empty (c ∷ s) = false

-- One space at the end is taken off.
unfoldable pub strip_one : List ℕ → List ℕ
strip_one [] = []
strip_one (c ∷ []) = if c == 32 then [] else c ∷ []
strip_one (c ∷ (d ∷ s)) = c ∷ strip_one (d ∷ s)

-- `grsLocalBuf[index] = …` in an array of 100 that holds NULL from `index` on.
unfoldable pub put : List ℕ → List (List ℕ) → Run (List (List ℕ))
put s bufs = if leb 100 (length bufs) then fault else ok (bufs ++ (s ∷ []))

-- The loop of grsFillCmd: `tmp` is grsTmpStr, an array of 100, and `bufs` what is in grsLocalBuf. A
-- separator with nothing before it reads grsTmpStr[-1].
unfoldable pub fill : List ℕ → List ℕ → List (List ℕ) → Flags → Run (List (List ℕ) × Flags)
fill [] tmp bufs flags =
    if is_empty tmp then ok (bufs, flags) else put tmp bufs >>= λ bufs'. ok (bufs', flags)
fill (c ∷ s) tmp bufs flags =
    let cut = put (strip_one tmp) bufs >>= λ bufs'. fill s [] bufs' (raise c flags) in
    let skip = fill s tmp bufs flags in
    let add = fill s (tmp ++ (c ∷ [])) bufs flags in
    if is_separator c
    then (if is_empty tmp then fault else cut)
    else if is_empty tmp && (c == 32)
    then skip
    else if leb 99 (length tmp)
    then fault
    else add

unfoldable pub fill_cmd : List ℕ → Flags → Run (List (List ℕ) × Flags)
fill_cmd line flags = fill line [] [] flags

-- What grsCmdLoop calls for a line, with the commands; the number of them goes along to the pipes
-- and to if-then-else.
pub data Action : Type 0 where
  background_process : List ℕ → Action
  pipe_handle : ℕ → List (List ℕ) → Action
  redirection_handle : List (List ℕ) → ℕ → Action
  if_then_else_handle : ℕ → List (List ℕ) → Action
  exit_shell : Action
  cmd_exec : List ℕ → Action

-- `grsCmdArgs[0]`, which is NULL when the line is only spaces.
unfoldable pub first_command : List (List ℕ) → Run (List ℕ)
first_command [] = fault
first_command (cmd ∷ bufs) = ok cmd

-- The case of '\n' for a line that is not empty.
unfoldable pub enter : List ℕ → Run Action
enter line = do
  (bufs, flags) ← fill_cmd line clear_flags
  let alone = do
    cmd ← first_command bufs
    ok (if str_eq cmd (101 ∷ 120 ∷ 105 ∷ 116 ∷ []) then exit_shell else cmd_exec cmd)
  if flags.background
      then (first_command bufs >>= λ cmd. ok (background_process cmd))
      else if flags.pipe
      then ok (pipe_handle (length bufs) bufs)
      else if flags.redir_out
      then ok (redirection_handle bufs 62)
      else if flags.redir_in
      then ok (redirection_handle bufs 60)
      else if flags.if_then_else
      then ok (if_then_else_handle (length bufs) bufs)
      else alone
