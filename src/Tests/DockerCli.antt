-- ===== src/Tests/DockerCli.antt =====
-- A docker command line, read.
use mathlib.Core.Path.{subst}
use go_spoc.Prelude.{
  ℕ, String, ◌≡◌, refl, true, false, List, [], ◌∷◌, codes, arith, Bool-cases, inl, inr,
  if◌then◌else◌,
}
use go_spoc.Prelude.Eq.{◌==◌, list_eq, list_beq, list_beq_iff, nat_eq}
use go_spoc.Sandbox.Docker.Container.{
  Cli, CliLaws, Invocation, Settings, among, switches, value_options, is_image,
}

-- A reading of docker's command line.
abbrev pub options : Settings → List (List ℕ) → Invocation
options o [] = record { settings = o; image = []; arguments = [] }
options o (a ∷ []) =
    if among a switches
    then record { settings = (a, []) ∷ o; image = []; arguments = [] }
    else record { settings = o; image = a; arguments = [] }
options o (a ∷ v ∷ rest) =
    let behind_switch = options ((a, []) ∷ o) (v ∷ rest) in
    let behind_option = options ((a, v) ∷ o) rest in
    if among a switches
    then behind_switch
    else if among a value_options
    then behind_option
    else record { settings = o; image = a; arguments = v ∷ rest }

abbrev pub no_command : Invocation
no_command = record { settings = []; image = []; arguments = [] }

abbrev pub command : List (List ℕ) → Invocation
command [] = no_command
command (a ∷ rest) = if a == codes "run" then options [] rest else no_command

abbrev pub cli : Cli
cli = record { command = command; options = options }

-- What the options' names tell apart.
is_no_value_option :
    (a : List ℕ) (t : String)
    → among (codes t) value_options ≡ false
    → among a value_options ≡ true
    → (a == codes t) ≡ false
is_no_value_option a t k h = elim (Bool-cases (a == codes t)) [
  | inr e ↦ e
  | inl e ↦
      let other = subst (λ b. among b value_options ≡ true) ((list_beq_iff a (codes t)).0 e) h in
      cc (other, k)
]

apart : (a : List ℕ) → among a value_options ≡ true → among a switches ≡ false
unfolding list_beq
apart a h = rw (is_no_value_option a "--rm" refl h, is_no_value_option a "--read-only" refl h) refl

no_switch : (a : List ℕ) → is_image a ≡ true → among a switches ≡ false
unfolding list_beq
no_switch [] h = cc
no_switch (c ∷ s) h = let e : (c == b'-') ≡ false = ground (arith, h) in rw e refl

no_value_option : (a : List ℕ) → is_image a ≡ true → among a value_options ≡ false
unfolding list_beq
no_value_option [] h = cc
no_value_option (c ∷ s) h = let e : (c == b'-') ≡ false = ground (arith, h) in rw e refl

pub cli_laws : CliLaws cli
unfolding list_beq
cli_laws = record {
  run = λ rest. refl;
  switch = switched;
  option = λ o name value rest h. rw (apart name h, h) refl;
  image = imaged;
}
  where
    switched :
        (o : Settings) (name : List ℕ) (rest : List (List ℕ))
        → among name switches ≡ true
        → options o (name ∷ rest) ≡ options ((name, []) ∷ o) rest
    switched o name [] h = rw h refl
    switched o name (v ∷ rest) h = rw h refl

    imaged :
        (o : Settings) (name : List ℕ) (rest : List (List ℕ))
        → is_image name ≡ true
        → options o (name ∷ rest) ≡ record { settings = o; image = name; arguments = rest }
    imaged o name [] h = rw (no_switch name h) refl
    imaged o name (v ∷ rest) h = rw (no_switch name h, no_value_option name h) refl
