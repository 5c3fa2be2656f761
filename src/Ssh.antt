-- ===== src/Ssh.antt =====
-- Storage/remote/ssh_agent.py, the agent that changes the SSH service: the options that it writes
-- and the public keys that it adds. What the system answers is a record of its own: the verdict of
-- `sshd -t` on the file of options, the text that Python reads from a file, and whether systemd restarts
-- the service.
pub mod Dropin
pub mod Keys
mod Tests
use obhod.Prelude.{Bool, String}

pub data ErrorCode : Type 0 where
  bad_arg no_keys config_invalid no_systemd start_failed : ErrorCode

-- `test_config` runs without sshd as well; `sshd` says whether there is one. `reads` is the text that is
-- read from what a file holds, with `errors="replace"` and every line end made a line feed.
pub record System : Type 0 where
  pub sshd : Bool
  pub accepts : String → Bool
  pub reads : String → String
  pub systemd : Bool
  pub restarts_ssh : Bool
  pub restarts_sshd : Bool
