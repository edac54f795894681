-- ===== src/Tools/Local.antt =====
-- `run_tool` of webapp/localtools.py. `Env.process` says how a tool ends that reads the evidence files;
-- `none` is a timeout.
use oracle_patching.Prelude.{String, Bool, Option, none, some, List, ◌++◌, if◌then◌else◌, take_last}
use oracle_patching.Prelude.Text.{codes, trim, is_blank}
use oracle_patching.Prelude.Text.Decimal.{decimal}
use oracle_patching.Exec.{Result, ok, err}
use oracle_patching.Json.{Json}
use oracle_patching.Remote.Quote.{Text}
use oracle_patching.Remote.Run.{Completed}
use oracle_patching.World.{Files, Error, local_tool, Action}

pub record Env : Type 0 where
  pub installed : String → Bool
  pub bin : String → Text
  pub process : Files → String → List Text → Option Completed
  pub loads : Text → Result Text Json

-- What a tool printed, as JSON.
unfoldable pub tool_json : String → Text → Result Text Json → Result Error Json
tool_json name stdout (ok j) = ok j
tool_json name stdout (err e) = err (
    local_tool name (codes name ++ codes " produced unparsable output: " ++ e)
      (take_last 2000 stdout))

unfoldable pub tool_outcome : Env → String → Option Completed → Result Error Json
unfolding tool_json
tool_outcome env name none =
    err (local_tool name (codes name ++ codes " timed out after 60s") (codes ""))
tool_outcome env name (some result) =
    if is_blank (trim result.stdout)
    then err (
        local_tool name
          (codes name
            ++ codes " exited "
            ++ codes (decimal result.returncode)
            ++ codes " with no output")
          (trim result.stderr))
    else tool_json name result.stdout (env.loads result.stdout)

unfoldable pub run_tool : Env → String → List Text → Action Json
unfolding tool_outcome
run_tool env name args w =
    if env.installed name
    then (tool_outcome env name (env.process w.files name args), w)
    else (err (local_tool name (codes "No such tool: " ++ env.bin name) (codes "")), w)
