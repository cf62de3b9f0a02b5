-- ===== src/Shell/CmdLoop.antt =====
-- Minix_shell/GRS_Source_Code/grsParser.c: grsCmdLoop, which reads the input character by character
-- and hands each line to the other parts of the shell. A char is signed, so that EOF is 255.
pub mod Laws
use gjworks.Common.{
  ℕ, zero, suc, ◌+◌, Bool, true, false, List, [], ◌∷◌, ◌++◌, ◌==◌, leb, if◌then◌else◌, length,
}
use gjworks.Machine.{Run, ok, fault, out_of_fuel, ◌>>=◌}
use gjworks.Shell.Parser.{
  Action, background_process, pipe_handle, redirection_handle, if_then_else_handle, exit_shell,
  cmd_exec, enter,
}
use gjworks.Shell.Spawn.{System, Shell, Spawned, returned, replaced}
use gjworks.Shell.Spawn
use gjworks.Shell.Redirection

-- How the loop, or a line of it, ends: it goes on or returns, exit(0) is called, or the process has
-- become another program.
pub data Ended (W : Type 0) : Type 0 where
  going : Shell W → Ended W
  exited : Ended W
  replaced_by : Ended W

-- `strncat(grsTmpBuf, &grsCharInput, 1)` in an array of 100: a NUL adds nothing.
unfoldable pub add_char : ℕ → List ℕ → Run (List ℕ)
add_char c buf =
    if c == 0 then ok buf else if leb 99 (length buf) then fault else ok (buf ++ (c ∷ []))

-- A call of a handler, whose result the loop does not read.
abbrev pub after_call : {W : Type 0} → Run (Spawned W) → Run (Ended W)
after_call (ok (returned r s)) = ok (going s)
after_call (ok replaced) = ok replaced_by
after_call fault = fault
after_call out_of_fuel = out_of_fuel

-- Another line, if the loop goes on.
abbrev pub and_then : {W : Type 0} → Run (Ended W) → (Shell W → Run (Ended W)) → Run (Ended W)
and_then (ok (going s)) k = k s
and_then (ok exited) k = ok exited
and_then (ok replaced_by) k = ok replaced_by
and_then fault k = fault
and_then out_of_fuel k = out_of_fuel

-- The handlers of the lines with < or > and with ; on the state of the shell.
pub record Handlers (W : Type 0) : Type 0 where
  pub redirection : List (List ℕ) → ℕ → Shell W → Run (Spawned W)
  pub if_then_else : ℕ → List (List ℕ) → Shell W → Run (Spawned W)

module _ {W : Type 0} (sys : System W) (handlers : Handlers W) where
  -- The chain of ifs in the case of '\n'.
  unfoldable pub dispatch : Action → Shell W → Run (Ended W)
  dispatch (background_process cmd) s = after_call (Spawn.background_process sys cmd s)
  dispatch (pipe_handle n cmds) s = Redirection.pipe_handle n >>= λ r. ok (going s)
  dispatch (redirection_handle cmds redirect) s = after_call (handlers.redirection cmds redirect s)
  dispatch (if_then_else_handle n cmds) s = after_call (handlers.if_then_else n cmds s)
  dispatch exit_shell s = ok exited
  dispatch (cmd_exec cmd) s = after_call (Spawn.cmd_exec sys cmd s)

  -- The case of '\n'. An empty buffer only gives a new prompt.
  unfoldable pub run_line : List ℕ → Shell W → Run (Ended W)
  unfolding dispatch
  run_line [] s = ok (going s)
  run_line (c ∷ line) s = enter (c ∷ line) >>= λ action. dispatch action s

  -- The loop, with grsTmpBuf. The end of the input is the char 255, which is added before the test.
  unfoldable pub cmd_loop : List ℕ → List ℕ → Shell W → Run (Ended W)
  unfolding run_line add_char
  cmd_loop [] buf s = add_char 255 buf >>= λ b. ok (going s)
  cmd_loop (c ∷ input) buf s =
      let line = and_then (run_line buf s) (λ t. cmd_loop input [] t) in
      let more = add_char c buf >>= λ b. cmd_loop input b s in
      let last = add_char c buf >>= λ b. ok (going s) in
      if c == 10 then line else if c == 255 then last else more

  -- grsCmdLoop. `unset` is what grsCharInput holds before it is read.
  unfoldable pub grs_cmd_loop : ℕ → List ℕ → Shell W → Run (Ended W)
  unfolding cmd_loop
  grs_cmd_loop unset input s = if unset == 255 then ok (going s) else cmd_loop input [] s
