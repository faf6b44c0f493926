-- ===== src/Docker/Exec.antt =====
-- internal/docker/client.go: running commands in a container.
use docker_backup.Base.{ℕ, Bool, true, false, Option, none, some, List, ◌++◌, Text, Result, ok, err}

pub record ExecResult : Type 0 where
  pub exit_code : ℕ
  pub output : Text

-- The calls of the Docker API: making an execution, attaching to it with the input that is written to
-- it, reading the two outputs apart, and the exit code.
pub record ExecApi (W : Type 0) : Type 0 where
  pub exec_create : Text → List Text → Bool → W → Result Text × W
  pub exec_attach : Text → Option Text → W → Result Text × W
  pub std_copy : Text → Result (Text × Text)
  pub exec_inspect : Text → W → Result ℕ

module _ {W : Type 0} (api : ExecApi W) where
  abbrev attached : Option Text → Bool
  attached none = false
  attached (some input) = true

  -- The outputs and the exit code of a command, up to the first call that fails.
  unfoldable pub run_command : Text → List Text → Option Text → W → Result (ℕ × Text × Text) × W
  run_command id cmd input w =
      let (r, v) = api.exec_create id cmd (attached input) w in
      elim r [
        | err e ↦ (err e, v)
        | ok exec_id ↦
            let (q, u) = api.exec_attach exec_id input v in
            elim q [
              | err e ↦ (err e, u)
              | ok stream ↦ elim (api.std_copy stream) [
                | err e ↦ (err e, u)
                | ok (stdout, stderr) ↦ elim (api.exec_inspect exec_id u) [
                  | err e ↦ (err e, u)
                  | ok code ↦ (ok (code, stdout, stderr), u)
                ]
              ]
            ]
      ]

  unfoldable pub exec : Text → List Text → Option Text → W → Result ExecResult × W
  unfolding run_command
  exec id cmd input w =
      let (r, v) = run_command id cmd input w in
      elim r [
        | err e ↦ (err e, v)
        | ok (code, stdout, stderr) ↦
            (ok (record { exit_code = code; output = stdout ++ stderr }), v)
      ]

  -- The exit code with what is written to the output.
  unfoldable pub exec_with_output : Text → List Text → W → Result (ℕ × Text) × W
  unfolding run_command
  exec_with_output id cmd w =
      let (r, v) = run_command id cmd none w in
      elim r [ err e ↦ (err e, v) | ok (code, stdout, stderr) ↦ (ok (code, stdout), v) ]
