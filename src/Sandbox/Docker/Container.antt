-- ===== src/Sandbox/Docker/Container.antt =====
-- What the arguments mean to docker: which container is run, how it is confined, and with what.
use mathlib.Core.Path.{subst}
use go_spoc.Prelude.{
  ℕ, String, ◌≡◌, refl, sym, ◌∙◌, ◌⊎◌, inl, inr, Bool, true, false, not, ◌||◌, List, [], ◌∷◌, ◌++◌,
  All, codes, if◌then◌else◌,
}
use go_spoc.Prelude.Eq.{◌==◌, nat_eq, list_eq, list_beq}
use go_spoc.Sandbox.{ExecRequest}
use go_spoc.Sandbox.Docker.{
  docker_args, runner_args, env_args, sorted_entries, insert_entry, string_lt, megabytes, mem_mb,
}

-- Options with their values; an option that takes none has the empty text.
abbrev pub Settings : Type 0
Settings = List (List ℕ × List ℕ)

pub record Invocation : Type 0 where
  pub settings : Settings
  pub image : List ℕ
  pub arguments : List (List ℕ)

-- The docker command: the reading of a whole command line, and of what stands behind `run`, given
-- the options read before.
pub record Cli : Type 0 where
  pub command : List (List ℕ) → Invocation
  pub options : Settings → List (List ℕ) → Invocation

abbrev pub among : List ℕ → List String → Bool
among s [] = false
among s (t ∷ ts) = s == codes t || among s ts

abbrev pub switches : List String
switches = "--rm" ∷ "--read-only" ∷ []

abbrev pub value_options : List String
value_options =
    "--network" ∷ "--tmpfs" ∷ "--memory" ∷ "--memory-swap" ∷ "--cpus" ∷ "--pids-limit"
    ∷ "--cap-drop" ∷ "--security-opt" ∷ "--user" ∷ "-v" ∷ "-e" ∷ []

-- An argument that begins with a dash is an option.
abbrev pub is_image : List ℕ → Bool
is_image [] = false
is_image (c ∷ s) = not (c == b'-')

-- `docker run [OPTIONS] IMAGE [COMMAND] [ARG...]`.
pub record CliLaws (cli : Cli) : Type 0 where
  pub run : (rest : List (List ℕ)) → cli.command (codes "run" ∷ rest) ≡ cli.options [] rest
  pub switch :
      (o : Settings) (name : List ℕ) (rest : List (List ℕ))
      → among name switches ≡ true
      → cli.options o (name ∷ rest) ≡ cli.options ((name, []) ∷ o) rest
  pub option :
      (o : Settings) (name value : List ℕ) (rest : List (List ℕ))
      → among name value_options ≡ true
      → cli.options o (name ∷ value ∷ rest) ≡ cli.options ((name, value) ∷ o) rest
  pub image :
      (o : Settings) (name : List ℕ) (rest : List (List ℕ))
      → is_image name ≡ true
      → cli.options o (name ∷ rest) ≡ record { settings = o; image = name; arguments = rest }

abbrev pub Has : Settings → List ℕ × List ℕ → Type 0
Has [] x = ⊥
Has (y ∷ ys) x = (x ≡ y) ⊎ Has ys x

abbrev pub HasOption : Settings → String → List ℕ → Type 0
HasOption o name value = Has o (codes name, value)

-- The container of a request: it is removed at its end, has no network, a root file system that
-- cannot be written, the limit's memory with its headroom and no swap besides, at most 128 processes,
-- an unprivileged user without capabilities, the request's directory at /work and the request's
-- variables; and it runs the request's image with the runner's arguments.
pub record Confined (req : ExecRequest) (inv : Invocation) : Type 0 where
  pub image : inv.image ≡ req.image
  pub arguments : inv.arguments ≡ runner_args req
  pub removed : HasOption inv.settings "--rm" []
  pub no_network : HasOption inv.settings "--network" (codes "none")
  pub read_only : HasOption inv.settings "--read-only" []
  pub memory : HasOption inv.settings "--memory" (megabytes (mem_mb req.mem_kb))
  pub no_swap : HasOption inv.settings "--memory-swap" (megabytes (mem_mb req.mem_kb))
  pub processes : HasOption inv.settings "--pids-limit" (codes "128")
  pub no_rights : HasOption inv.settings "--cap-drop" (codes "ALL")
  pub no_new_rights : HasOption inv.settings "--security-opt" (codes "no-new-privileges")
  pub user : HasOption inv.settings "--user" (codes "10001:10001")
  pub directory : HasOption inv.settings "-v" (req.host_dir ++ codes ":/work")
  pub variables :
      All (λ (e : List ℕ × List ℕ). HasOption inv.settings "-e" (e.0 ++ b'=' ∷ e.1)) req.env

-- The options behind the variables.
abbrev pushed : List (List ℕ × List ℕ) → Settings → Settings
pushed [] o = o
pushed ((k, v) ∷ es) o = pushed es ((codes "-e", k ++ b'=' ∷ v) ∷ o)

Has-pushed :
    (es : List (List ℕ × List ℕ)) (o : Settings) (x : List ℕ × List ℕ)
    → Has o x
    → Has (pushed es o) x
Has-pushed [] o x h = h
Has-pushed ((k, v) ∷ es) o x h = Has-pushed es _ x (inr h)

pushed-All :
    (es : List (List ℕ × List ℕ)) (o : Settings)
    → All (λ (e : List ℕ × List ℕ). HasOption (pushed es o) "-e" (e.0 ++ b'=' ∷ e.1)) es
pushed-All [] o = tt
pushed-All ((k, v) ∷ es) o = (Has-pushed es _ _ (inl refl), pushed-All es _)

module _ (P : List ℕ × List ℕ → Type 0) where
  insert_entry-All :
      (e : List ℕ × List ℕ) (es : List (List ℕ × List ℕ))
      → All P (insert_entry e es)
      → P e × All P es
  unfolding insert_entry
  insert_entry-All e [] h = h
  insert_entry-All e (f ∷ es) h = tested (string_lt f.0 e.0) (insert_entry-All e es) h
    where
      tested :
          (b : Bool)
          → (All P (insert_entry e es) → P e × All P es)
          → All P (if b then f ∷ insert_entry e es else e ∷ f ∷ es)
          → P e × All P (f ∷ es)
      tested false ih k = k
      tested true ih k = let (first, rest) = ih k.1 in (first, (k.0, rest))

  sorted_entries-All : (es : List (List ℕ × List ℕ)) → All P (sorted_entries es) → All P es
  unfolding sorted_entries
  sorted_entries-All [] h = tt
  sorted_entries-All (e ∷ es) h =
      let (first, rest) = insert_entry-All e (sorted_entries es) h in
      (first, sorted_entries-All es rest)

module _ (cli : Cli) (laws : CliLaws cli) where
  env_args-options :
      (es : List (List ℕ × List ℕ)) (o : Settings) (rest : List (List ℕ))
      → cli.options o (env_args es ++ rest) ≡ cli.options (pushed es o) rest
  unfolding env_args list_beq
  env_args-options [] o rest = refl
  env_args-options ((k, v) ∷ es) o rest =
      laws.option o (codes "-e") _ _ refl ∙ env_args-options es _ rest

  -- The options that stand before the variables, the last one first.
  abbrev fixed : ExecRequest → Settings
  fixed req =
      (codes "-v", req.host_dir ++ codes ":/work")
      ∷ (codes "--user", codes "10001:10001")
      ∷ (codes "--security-opt", codes "no-new-privileges")
      ∷ (codes "--cap-drop", codes "ALL")
      ∷ (codes "--pids-limit", codes "128")
      ∷ (codes "--cpus", codes "1")
      ∷ (codes "--memory-swap", megabytes (mem_mb req.mem_kb))
      ∷ (codes "--memory", megabytes (mem_mb req.mem_kb))
      ∷ (codes "--tmpfs", codes "/tmp:rw,size=512m")
      ∷ (codes "--read-only", [])
      ∷ (codes "--network", codes "none")
      ∷ (codes "--rm", [])
      ∷ []

  docker_args-options :
      (req : ExecRequest)
      → cli.command (docker_args req)
        ≡ cli.options (fixed req) (env_args (sorted_entries req.env) ++ req.image ∷ runner_args req)
  unfolding docker_args list_beq
  docker_args-options req =
      laws.run _
      ∙ laws.switch _ (codes "--rm") _ refl
      ∙ laws.option _ (codes "--network") _ _ refl
      ∙ laws.switch _ (codes "--read-only") _ refl
      ∙ laws.option _ (codes "--tmpfs") _ _ refl
      ∙ laws.option _ (codes "--memory") _ _ refl
      ∙ laws.option _ (codes "--memory-swap") _ _ refl
      ∙ laws.option _ (codes "--cpus") _ _ refl
      ∙ laws.option _ (codes "--pids-limit") _ _ refl
      ∙ laws.option _ (codes "--cap-drop") _ _ refl
      ∙ laws.option _ (codes "--security-opt") _ _ refl
      ∙ laws.option _ (codes "--user") _ _ refl
      ∙ laws.option _ (codes "-v") _ _ refl

  pub docker_args-Confined :
      (req : ExecRequest) → is_image req.image ≡ true → Confined req (cli.command (docker_args req))
  docker_args-Confined req named =
      subst (Confined req)
        (sym (
          docker_args-options req
          ∙ env_args-options (sorted_entries req.env) (fixed req) _
          ∙ laws.image (pushed (sorted_entries req.env) (fixed req)) req.image (runner_args req)
              named))
        (confined (Has-pushed (sorted_entries req.env) (fixed req)))
    where
      confined :
          ((x : List ℕ × List ℕ)
            → Has (fixed req) x
            → Has (pushed (sorted_entries req.env) (fixed req)) x)
          → Confined req (record {
            settings = pushed (sorted_entries req.env) (fixed req);
            image = req.image;
            arguments = runner_args req;
          })
      confined kept = record {
        image = refl;
        arguments = refl;
        directory = kept _ (inl refl);
        user = kept _ (inr (inl refl));
        no_new_rights = kept _ (inr (inr (inl refl)));
        no_rights = kept _ (inr (inr (inr (inl refl))));
        processes = kept _ (inr (inr (inr (inr (inl refl)))));
        no_swap = kept _ (inr (inr (inr (inr (inr (inr (inl refl)))))));
        memory = kept _ (inr (inr (inr (inr (inr (inr (inr (inl refl))))))));
        read_only = kept _ (inr (inr (inr (inr (inr (inr (inr (inr (inr (inl refl))))))))));
        no_network = kept _ (inr (inr (inr (inr (inr (inr (inr (inr (inr (inr (inl refl)))))))))));
        removed =
            kept _ (inr (inr (inr (inr (inr (inr (inr (inr (inr (inr (inr (inl refl))))))))))));
        variables = sorted_entries-All _ req.env (pushed-All (sorted_entries req.env) (fixed req));
      }
