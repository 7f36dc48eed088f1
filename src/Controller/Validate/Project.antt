-- ===== src/Controller/Validate/Project.antt =====
-- `_validate_project` of controller.py.
use dvk_claude.Common.{
  ℕ, String, Bool, true, false, not, ◌&&◌, ◌||◌, Option, none, some, List, [], ◌∷◌, ◌==◌, ◌=?◌, leb,
  codes, is_alnum, starts_with, concat, all, any, member, distinct, length, if◌then◌else◌,
}
use dvk_claude.Common.Paths.{normpath, rstrip_slash}
use dvk_claude.Result.{Result, ok, err, controller_error, ◌>>=◌, ◌>>◌, raise_if}
use dvk_claude.Json.{
  pos, Value, null, boolean, integer, string, array, object, Fields, end, field, get, get_or,
  has_all, to_list, is_text, is_given, is_str, in_set,
}
use dvk_claude.Github.{known_integrations}
use dvk_claude.Controller.Validate.{
  engine_names, given, is_text?, nonempty_texts, validate_integrations,
}

abbrev pub explicit_only_engines : List String
explicit_only_engines = "brainstorm" ∷ []

abbrev pub balanced_policy : String
balanced_policy = "balanced-v1"

-- `[A-Za-z0-9._-]{1,64}`
unfoldable pub is_name : String → Bool
unfolding is_alnum all
is_name s =
    leb 1 (length (codes s))
    && leb (length (codes s)) 64
    && all (λ c. is_alnum c || c =? b'.' || c =? b'_' || c =? b'-') (codes s)

abbrev is_name? : Option Value → Bool
is_name? (some (string s)) = is_name s
is_name? v = false

abbrev filled : Option Value → Bool
filled none = false
filled (some v) = is_text v

unfoldable pub check_filled : List String → Fields → Result (Unit {0})
unfolding is_text get
check_filled [] manifest = ok tt
check_filled (k ∷ ks) manifest = do
  raise_if (not (filled (get k manifest))) (controller_error "invalid project field")
  check_filled ks manifest

abbrev text_or : Option Value → String
text_or (some (string s)) = s
text_or v = ""

-- The runtime directory of a Linux project stands outside its working directory, by its text.
unfoldable pub is_outside : String → String → Bool
unfolding normpath rstrip_slash
is_outside working runtime =
    let w = normpath working in
    let r = normpath runtime in not (r == w || starts_with r (concat (rstrip_slash w) "/"))

unfoldable pub check_directories : Fields → Result (Unit {0})
unfolding is_outside get
check_directories manifest = do
  let working = text_or (get "working_directory" manifest)
  let runtime = text_or (get "runtime_directory" manifest)
  raise_if (not (starts_with working "/") || not (starts_with runtime "/"))
      (controller_error "directories must be absolute Linux paths")
  raise_if (not (is_outside working runtime))
      (controller_error "runtime_directory must be outside working_directory")

abbrev bad_engines {ℓ} : {A : Type ℓ} → Result A
bad_engines = err (controller_error "invalid allowed_engines")

-- Each entry is looked up among the engines in turn.
unfoldable pub known_engines : List Value → Result (List String)
unfolding in_set member
known_engines [] = ok []
known_engines (string s ∷ vs) =
    let rest = known_engines vs in
    if member s engine_names then (do ss ← rest; ok (s ∷ ss)) else bad_engines
known_engines (v ∷ vs) = in_set v engine_names >>= λ _. bad_engines

unfoldable pub check_engines : Option Value → Result (List String)
unfolding known_engines distinct
check_engines (some (array vs)) = do
  raise_if (length (to_list vs) =? 0) (controller_error "invalid allowed_engines")
  engines ← known_engines (to_list vs)
  raise_if (not (distinct engines)) (controller_error "invalid allowed_engines")
  ok engines
check_engines v = bad_engines

abbrev is_auto : Option Value → Bool
is_auto v = is_given v "auto"

abbrev policy_or_default : Option Value → Bool
policy_or_default none = true
policy_or_default (some v) = is_str balanced_policy v

abbrev in_list : Option Value → List String → Bool
in_list (some (string s)) ss = member s ss
in_list v ss = false

-- `default_engine` is "auto" with an engine to choose, or one of the allowed engines.
unfoldable pub check_default : Fields → List String → Result (Unit {0})
unfolding in_set all member get get_or
check_default manifest engines = do
  explicit ← in_set (get_or "default_engine" null manifest) explicit_only_engines
  raise_if explicit (controller_error "default_engine cannot be an explicit-only engine")
  if is_auto (get "default_engine" manifest)
      then (do
        raise_if (not (policy_or_default (get "engine_policy" manifest)))
            (controller_error "unsupported engine_policy")
        raise_if (all (λ e. member e explicit_only_engines) engines)
            (controller_error "default_engine auto requires an auto-selectable engine"))
      else raise_if (not (in_list (get "default_engine" manifest) engines))
          (controller_error "default_engine must be allowed or auto")

abbrev check_capabilities : Option (List String) → Result (Unit {0})
check_capabilities none = err (controller_error "invalid project capabilities")
check_capabilities (some cs) =
    raise_if (any (λ c. member c known_integrations) cs)
      (controller_error "project capabilities cannot grant integrations; use allowed_integrations")

abbrev check_allowed : Option Value → Result (Unit {0})
check_allowed none = ok tt
check_allowed (some v) = do _ ← validate_integrations v; ok tt

abbrev is_paths : Option Value → Bool
is_paths none = true
is_paths (some v) = elim (nonempty_texts (some v)) [ none ↦ false | some ps ↦ true ]

unfoldable pub check_workspaces : Bool → Fields → Result (Unit {0})
unfolding is_name is_text
check_workspaces linux end = ok tt
check_workspaces linux (field name path rest) = do
  raise_if (not (is_name name)) (controller_error "invalid project workspace name")
  raise_if (not (is_text path)) (controller_error "invalid project workspace path")
  raise_if (linux && not (starts_with (text_or (some path)) "/"))
      (controller_error "project workspace path must be absolute")
  check_workspaces linux rest

abbrev check_workspaces? : Bool → Option Value → Result (Unit {0})
check_workspaces? linux none = ok tt
check_workspaces? linux (some (object ws)) = check_workspaces linux ws
check_workspaces? linux (some v) = err (controller_error "invalid project workspaces")

-- An integer from 1 to `hi`; Python counts `True` as 1.
abbrev is_limit : ℕ → Option Value → Bool
is_limit hi none = true
is_limit hi (some (integer (pos n))) = leb 1 n && leb n hi
is_limit hi (some (boolean b)) = b
is_limit hi (some v) = false

-- The optional fields, in the order of the source.
unfoldable pub check_options : Bool → Fields → Result (Unit {0})
unfolding nonempty_texts validate_integrations check_workspaces given get is_text
check_options linux manifest = do
  check_capabilities (nonempty_texts (get "capabilities" manifest))
  check_allowed (get "allowed_integrations" manifest)
  raise_if (not (is_text? (given "worker_id" manifest)))
      (controller_error "invalid project worker_id")
  raise_if
      (not (is_text? (given "task_type" manifest) && is_text? (given "execution_profile" manifest)))
      (controller_error "invalid project field")
  raise_if (not (is_paths (given "allowed_paths" manifest)))
      (controller_error "invalid project allowed_paths")
  check_workspaces? linux (given "workspaces" manifest)
  raise_if (not (is_limit 7200 (given "timeout_seconds" manifest)))
      (controller_error "invalid project timeout_seconds")
  raise_if (not (is_limit 50 (given "max_turns" manifest)))
      (controller_error "invalid project max_turns")

abbrev required_keys : List String
required_keys =
    "project_id" ∷ "repository" ∷ "ref" ∷ "platform" ∷ "working_directory" ∷ "runtime_directory"
    ∷ "allowed_engines" ∷ "default_engine" ∷ "capabilities" ∷ []

abbrev policy_given : Option Value → Bool
policy_given none = true
policy_given (some v) = is_str balanced_policy v

unfoldable pub validate_project : Fields → Result (Unit {0})
unfolding has_all is_name in_set check_filled check_directories check_engines check_default
    check_options given get get_or
validate_project manifest = do
  raise_if (not (has_all required_keys manifest)) (controller_error "invalid project manifest")
  raise_if (not (is_name? (get "project_id" manifest))) (controller_error "invalid project_id")
  known ← in_set (get_or "platform" null manifest) ("linux" ∷ "windows" ∷ [])
  raise_if (not known) (controller_error "invalid project platform")
  check_filled ("repository" ∷ "ref" ∷ "working_directory" ∷ "runtime_directory" ∷ []) manifest
  let linux = is_given (get "platform" manifest) "linux"
  (if linux then check_directories manifest else ok tt)
  engines ← check_engines (get "allowed_engines" manifest)
  check_default manifest engines
  raise_if (not (policy_given (given "engine_policy" manifest)))
      (controller_error "unsupported engine_policy")
  check_options linux manifest
