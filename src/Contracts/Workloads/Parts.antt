-- ===== src/Contracts/Workloads/Parts.antt =====
-- contracts/jobman/v1alpha1/validate.go: the checks of a workload's metadata, command, environment,
-- resources and runtime. A set of names is the list of its names.
use jobman_control.Contracts.Workloads.{
  Host, WorkloadMetadata, Command, ShellCommand, Environment, SecretBinding, Resources, Runtime,
  ContainerRuntime,
}
use jobman_control.Contracts.Names.{
  Reason, text_bytes, contains_nul, matches_environment, matches_quantity, validate_name,
  validate_string_map,
}
use jobman_control.Contracts.Paths.{validate_logical_path, validate_logical_uri, is_empty}
use jobman_control.Prelude.{
  ℕ, zero, suc, String, Bool, true, false, ◌&&◌, ◌||◌, not, Option, none, some, List, [], ◌∷◌,
  if◌then◌else◌, str_eq, ltb, length, any, codes, ℤ, pos, negsuc, is_negative, Result, ok, err,
  ◌>>=◌, ◌>>◌, refuse, or_fail,
}

-- slices.Contains
abbrev pub has_text : String → List String → Bool
has_text name = any (str_eq name)

abbrev pub is_none {ℓ} : {A : Type ℓ} → Option A → Bool
is_none none = true
is_none (some x) = false

-- A check of what is there.
abbrev pub if_some {ℓ} :
    {A : Type ℓ} → (A → Result Reason (Unit {0})) → Option A → Result Reason (Unit {0})
if_some check none = ok tt
if_some check (some x) = check x

abbrev pub if_text : (String → Result Reason (Unit {0})) → String → Result Reason (Unit {0})
if_text check value = if str_eq value "" then ok tt else check value

unfoldable pub each {ℓ} :
    {A : Type ℓ} → (A → Result Reason (Unit {0})) → List A → Result Reason (Unit {0})
each check [] = ok tt
each check (x ∷ xs) = check x >> each check xs

-- Longer than a bound, or with a NUL in it.
unfoldable pub is_bad_text : ℕ → String → Bool
unfolding text_bytes
is_bad_text maximum value = ltb maximum (text_bytes value) || contains_nul value

unfoldable pub validate_workload_metadata : WorkloadMetadata → Result Reason (Unit {0})
unfolding validate_name validate_string_map is_bad_text
validate_workload_metadata m = do
  if_text validate_name m.name
  refuse (is_bad_text 4096 m.description) "invalid description"
  validate_string_map m.labels 128
  validate_string_map m.annotations 65536

unfoldable pub validate_shell : List String → ShellCommand → Result Reason (Unit {0})
unfolding validate_name is_bad_text
validate_shell args shell = do
  refuse (not (is_empty args)) "shell command cannot contain direct arguments"
  validate_name shell.capability
  refuse (str_eq shell.script "" || is_bad_text 1048576 shell.script) "shell script is invalid"

-- An executable and a shell at once are refused, and so are neither of them.
unfoldable pub validate_command : Command → Result Reason (Unit {0})
unfolding validate_shell is_bad_text
validate_command c = do
  refuse (if str_eq c.executable "" then is_none c.shell else not (is_none c.shell))
      "command must select exactly one of executable or shell"
  refuse (ltb 4096 (length c.args)) "command has too many arguments"
  refuse (any (is_bad_text 65536) c.args) "command argument is invalid"
  elim c.shell [
    | none ↦ refuse (is_bad_text 65536 c.executable) "executable is invalid"
    | some shell ↦ validate_shell c.args shell
  ]

unfoldable pub validate_environment_value : String × String → Result Reason (Unit {0})
unfolding matches_environment text_bytes is_bad_text
validate_environment_value (name, content) = do
  refuse (not (matches_environment (codes name)) || ltb 128 (text_bytes name))
      "invalid environment name"
  refuse (is_bad_text 65536 content) "invalid environment value"

unfoldable pub validate_environment_values : List (String × String) → Result Reason (Unit {0})
unfolding validate_environment_value each
validate_environment_values values = do
  refuse (ltb 1024 (length values)) "environment has too many values"
  each validate_environment_value values

unfoldable pub validate_secret_binding : Host → SecretBinding → Result Reason (Unit {0})
unfolding validate_name validate_logical_uri validate_logical_path matches_environment
validate_secret_binding host secret = do
  validate_name secret.name
  validate_logical_uri (host.parse_url secret.source) "secret"
  refuse
      (if str_eq secret.expose_as.environment ""
        then str_eq secret.expose_as.file ""
        else not (str_eq secret.expose_as.file ""))
      "secret must select one exposure"
  refuse
      (not (str_eq secret.expose_as.environment "")
        && not (matches_environment (codes secret.expose_as.environment)))
      "secret has invalid environment exposure"
  if_text (λ file. validate_logical_path (codes file) (codes "workspace")) secret.expose_as.file

unfoldable pub validate_new_secrets :
    Host → List String → List SecretBinding → Result Reason (Unit {0})
unfolding validate_secret_binding
validate_new_secrets host seen [] = ok tt
validate_new_secrets host seen (secret ∷ secrets) =
    refuse (has_text secret.name seen) "duplicate secret"
    >> validate_secret_binding host secret
    >> validate_new_secrets host (secret.name ∷ seen) secrets

unfoldable pub validate_secret_bindings : Host → List SecretBinding → Result Reason (Unit {0})
unfolding validate_new_secrets
validate_secret_bindings host secrets = do
  refuse (ltb 1024 (length secrets)) "environment has too many secrets"
  validate_new_secrets host [] secrets

unfoldable pub validate_environment : Host → Environment → Result Reason (Unit {0})
unfolding validate_name validate_environment_values validate_secret_bindings
validate_environment host e = do
  if_text validate_name e.profile
  validate_environment_values e.values
  validate_secret_bindings host e.secrets

abbrev pub is_positive : ℤ → Bool
is_positive (pos zero) = false
is_positive (pos (suc n)) = true
is_positive (negsuc n) = false

unfoldable pub validate_duration : Host → String → Result Reason (Unit {0})
validate_duration host value = do
  duration ← or_fail (host.parse_duration value) "must be a positive Go duration"
  refuse (not (is_positive duration)) "must be a positive Go duration"

unfoldable pub validate_resources : Host → Resources → Result Reason (Unit {0})
unfolding matches_quantity validate_duration
validate_resources host r = do
  refuse (is_negative r.cpu || is_negative r.gpu || is_negative r.nodes || is_negative r.tasks)
      "resources cannot be negative"
  refuse (not (str_eq r.memory "") && not (matches_quantity r.memory)) "invalid memory quantity"
  refuse (not (str_eq r.temporary_storage "") && not (matches_quantity r.temporary_storage))
      "invalid temporary storage quantity"
  if_text (validate_duration host) r.wall_time

unfoldable pub validate_container : ContainerRuntime → Result Reason (Unit {0})
unfolding is_bad_text
validate_container c = do
  refuse (str_eq c.image "" || is_bad_text 65536 c.image) "invalid container image"
  refuse (not (has_text c.pull_policy ("always" ∷ "if-not-present" ∷ "never" ∷ [])))
      "invalid container pull policy"
  refuse (not (has_text c.network ("host" ∷ "none" ∷ "restricted" ∷ [])))
      "invalid container network policy"

unfoldable pub validate_runtime : Runtime → Result Reason (Unit {0})
unfolding validate_container
validate_runtime r =
    if str_eq r.kind "native"
    then refuse (not (is_none r.container)) "native runtime cannot contain container settings"
    else if str_eq r.kind "container"
    then or_fail r.container "container runtime settings are required" >>= validate_container
    else err "unsupported runtime kind"
