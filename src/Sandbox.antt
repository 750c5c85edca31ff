-- ===== src/Sandbox.antt =====
-- sandbox/runner/runner.py: the container in which generated code is run. Docker is a parameter: what
-- it answers to the calls of one execution. A negative timeout is refused as 0 is, and taken for 0.
pub mod Isolation
use software_factory_ai.Common.{
  ℕ, ◌-◌, Bool, true, false, ◌||◌, not, Option, none, some, List, [], ◌∷◌, String, if◌then◌else◌,
  leb, ◌==◌, contains, string_eq, text_append,
}
use software_factory_ai.Common.Dict.{Dict}
use software_factory_ai.Common.Text.{strip_slashes, take_chars, drop_chars}
use software_factory_ai.Delivery.Context.{text_length}

-- SandboxViolationError
pub data Violation : Type 0 where
  privileged_container forbidden_mount root_user network_access unapproved_image : Violation
  no_timeout : Violation

-- FORBIDDEN_MOUNTS
abbrev pub forbidden_mounts : List String
forbidden_mounts = "/" ∷ "/var/run/docker.sock" ∷ []

abbrev pub root_users : List String
root_users = "root" ∷ "0" ∷ "0:0" ∷ []

-- The violation that is raised, or none.
unfoldable pub validate_sandbox_config :
    (allowed_images : List String)
    → (image workspace : String) → (privileged : Bool) → (user network_mode : String)
    → Option Violation
unfolding contains strip_slashes
validate_sandbox_config allowed_images image workspace privileged user network_mode =
    if privileged
    then some privileged_container
    else if contains forbidden_mounts workspace || (strip_slashes workspace == "")
    then some forbidden_mount
    else if contains root_users user
    then some root_user
    else if not (network_mode == "none")
    then some network_access
    else if not (contains allowed_images image)
    then some unapproved_image
    else none

-- ALLOWED_IMAGES, MEMORY_LIMIT and int(CPU_LIMIT * 1e9)
pub record Limits : Type 0 where
  pub allowed_images : List String
  pub mem_limit : String
  pub nano_cpus : ℕ

-- The arguments of containers.run, with the timeout that its wait is given.
pub record Container : Type 0 where
  pub image : String
  pub command : List String
  pub working_dir : String
  pub volume : String
  pub bind : String
  pub user : String
  pub network_mode : String
  pub read_only : Bool
  pub tmpfs : Dict String String
  pub mem_limit : String
  pub nano_cpus : ℕ
  pub environment : Dict String String
  pub security_opt : List String
  pub timeout : ℕ

-- A call of Docker: its answer, or the text of its exception.
pub data Attempt {ℓ} (A : Type ℓ) : Type ℓ where
  answered : A → Attempt A
  raised : String → Attempt A

-- What Docker does in one execution: the start, the wait with the logs, and the removal.
pub record Started : Type 0 where
  pub waited : Attempt (Option ℕ × String)
  pub removed : Attempt (Unit {0})

-- The returned dict, with none for the exit code -1.
pub record SandboxResult : Type 0 where
  pub exit_code : Option ℕ
  pub is_ok : Bool
  pub output : String

-- The calls that reach Docker.
pub data Event : Type 0 where
  run_container : Container → Event
  remove_container : Event

-- logs[-100_000:]
abbrev pub last_logs : String → String
last_logs logs = drop_chars (text_length logs - 100000) logs

abbrev pub is_zero_status : Option ℕ → Bool
is_zero_status none = false
is_zero_status (some n) = leb n 0

-- try: wait and read the logs, finally: remove. An exception of the removal replaces what was there.
unfoldable pub collected : Attempt (Option ℕ × String) → Attempt (Unit {0}) → Attempt SandboxResult
unfolding drop_chars text_length
collected (answered (status, logs)) (answered u) =
    answered (record { exit_code = status; is_ok = is_zero_status status; output = last_logs logs })
collected (raised e) (answered u) = raised e
collected waited (raised e) = raised e

-- _run
unfoldable pub run : Container → Attempt Started → Attempt SandboxResult × List Event
unfolding collected
run c (raised e) = (raised e, run_container c ∷ [])
run c (answered d) = (collected d.waited d.removed, run_container c ∷ remove_container ∷ [])

abbrev pub unavailable : String → SandboxResult
unavailable e = record {
  exit_code = none;
  is_ok = false;
  output =
      text_append
        "Sandbox indisponível (Docker não acessível a partir do worker). Veja sandbox/README.md para habilitar em desenvolvimento local. Erro: "
        (take_chars 300 e);
}

-- What is returned, where `late` says that the time of asyncio.wait_for was over first, or that
-- Docker raised a TimeoutError itself.
unfoldable pub settled : (late : Bool) → Attempt SandboxResult → SandboxResult
unfolding take_chars
settled true r = record { exit_code = none; is_ok = false; output = "timeout do sandbox" }
settled false (answered r) = r
settled false (raised e) = unavailable e

pub data Sandboxed : Type 0 where
  violation : Violation → Sandboxed
  returned : SandboxResult → Sandboxed

abbrev pub container :
    Limits
    → (workspace : String) → (command : List String) → (timeout_seconds : ℕ)
    → (image user network_mode : String) → Container
container limits workspace command timeout_seconds image user network_mode = record {
  image = image;
  command = command;
  working_dir = "/workspace";
  volume = workspace;
  bind = "/workspace";
  user = user;
  network_mode = network_mode;
  read_only = true;
  tmpfs = ("/tmp", "size=256m") ∷ [];
  mem_limit = limits.mem_limit;
  nano_cpus = limits.nano_cpus;
  environment = [];
  security_opt = "no-new-privileges" ∷ [];
  timeout = timeout_seconds;
}

abbrev pub in_container :
    Limits → Attempt Started → (late : Bool) → Container → Sandboxed × List Event
in_container limits docker late c = (returned (settled late (run c docker).0), (run c docker).1)

abbrev pub guarded :
    Option Violation → (timeout_seconds : ℕ) → Sandboxed × List Event → Sandboxed × List Event
guarded (some v) timeout_seconds rest = (violation v, [])
guarded none timeout_seconds rest =
    if leb timeout_seconds 0 then (violation no_timeout, []) else rest

-- The thread goes on where the wait for it is over, so its calls are there in either case.
unfoldable pub run_in_sandbox :
    Limits
    → Attempt Started
    → (late : Bool) → (workspace : String) → (command : List String) → (timeout_seconds : ℕ)
    → (image : String) → Sandboxed × List Event
unfolding validate_sandbox_config run settled
run_in_sandbox limits docker late workspace command timeout_seconds image =
    let user : String = "1000:1000" in
    let network_mode : String = "none" in
    guarded (validate_sandbox_config limits.allowed_images image workspace false user network_mode)
      timeout_seconds
      (in_container limits docker late
        (container limits workspace command timeout_seconds image user network_mode))
