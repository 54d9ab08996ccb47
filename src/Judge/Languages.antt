-- ===== src/Judge/Languages.antt =====
-- internal/judge/judge.go: `New`, with the table of languages.
use go_spoc.Prelude.{ℕ, List, [], ◌∷◌, ◌*◌, Option, none, some, codes, if◌then◌else◌}
use go_spoc.Prelude.Eq.{◌==◌, nat_eq, list_eq}
use go_spoc.Prelude.Int.{ℤ, pos, leb_ℤ}

pub record Config : Type 0 where
  pub python_image : List ℕ
  pub go_image : List ℕ
  pub work_dir : List ℕ
  pub output_kb : ℤ
  pub compile_wall_ms : ℤ
  pub compile_mem_kb : ℤ

-- `compile_cmd` is none for interpreted languages.
pub record LangConfig : Type 0 where
  pub image : List ℕ
  pub source_file : List ℕ
  pub compile_cmd : Option (List (List ℕ))
  pub compile_env : List (List ℕ × List ℕ)
  pub run_cmd : List (List ℕ)

pub record Judge : Type 0 where
  pub languages : List (List ℕ × LangConfig)
  pub work_dir : List ℕ
  pub output_kb : ℤ
  pub compile_wall_ms : ℤ
  pub compile_mem_kb : ℤ

abbrev or_default : ℤ → ℤ → ℤ
or_default value default = if leb_ℤ value (pos 0) then default else value

abbrev python : List ℕ → LangConfig
python image = record {
  image = image;
  source_file = codes "solution.py";
  compile_cmd = none;
  compile_env = [];
  run_cmd = codes "python3" ∷ codes "/work/solution.py" ∷ [];
}

abbrev go : List ℕ → LangConfig
go image = record {
  image = image;
  source_file = codes "solution.go";
  compile_cmd = some (
      codes "sh"
      ∷ codes "-c"
      ∷ codes "cp -a /opt/gocache /tmp/gocache && go build -o /work/prog /work/solution.go"
      ∷ []);
  compile_env = (codes "GOCACHE", codes "/tmp/gocache") ∷ (codes "HOME", codes "/tmp") ∷ [];
  run_cmd = codes "/work/prog" ∷ [];
}

unfoldable pub new : Config → Judge
new cfg = record {
  languages = (codes "python", python cfg.python_image) ∷ (codes "go", go cfg.go_image) ∷ [];
  work_dir = cfg.work_dir;
  output_kb = or_default cfg.output_kb (pos 1024);
  compile_wall_ms = or_default cfg.compile_wall_ms (pos 10000);
  compile_mem_kb = or_default cfg.compile_mem_kb (pos (512 * 1024));
}

-- `j.languages[name]`.
unfoldable pub language : List ℕ → List (List ℕ × LangConfig) → Option LangConfig
language name [] = none
language name ((key, lang) ∷ rest) =
    let later = language name rest in if key == name then some lang else later
