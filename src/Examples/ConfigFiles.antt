-- ===== src/Examples/ConfigFiles.antt =====
-- Runs of `mergeConfigs` and `Read` (pkg/config/config.go).
use beekeeper.Common.{
  ℕ, ◌≡◌, refl, ◌≢◌, ◌↔◌, Option, none, some, [], ◌∷◌, String, str_eq, if◌then◌else◌, In,
}
use beekeeper.Common.Outcome.{Outcome, ok, err}
use beekeeper.Common.Dict.{Dict, lookup, keys, insert}
use beekeeper.Config.Profiles.{
  Profile, circular, out_of_fuel, merge_configs, merge_names, merge_parent, merge_step, is_visited,
  inherit, merge_fields,
}
use beekeeper.Config.Read.{
  Config, YamlFile, ReadError, empty_config, read_files, read, merge, join_config,
}
use beekeeper.Config.Resolve.{Resolves}
use beekeeper.Config.Correct.{
  merge_configs-lookup, merge_configs-succeeds_iff, merge_configs-ne-out_of_fuel,
}
use beekeeper.Config.Files.{first_declared, read-bee_configs}

abbrev base : Profile String
base = record { parent_name = ""; fields = some "a" ∷ some "b" ∷ [] }

abbrev node : Profile String
node = record { parent_name = "base"; fields = none ∷ some "c" ∷ [] }

abbrev merged_node : Profile String
merged_node = record { parent_name = "base"; fields = some "a" ∷ some "c" ∷ [] }

abbrev two : Dict (Profile String)
two = ("node", node) ∷ ("base", base) ∷ []

abbrev two_merged : Dict (Profile String)
two_merged = ("base", base) ∷ ("node", merged_node) ∷ []

two_run : merge_configs two ≡ ok two_merged
unfolding merge_configs merge_names merge_parent merge_step lookup is_visited insert inherit
    merge_fields
two_run = refl

abbrev loop : Dict (Profile String)
loop = ("base", node) ∷ []

loop_run : merge_configs loop ≡ err (circular "base")
unfolding merge_configs merge_names merge_parent merge_step lookup is_visited
loop_run = refl

merge_configs-lookup_example :
    (lookup "node" two_merged ≡ some merged_node) ↔ ((n : ℕ) × Resolves two n "node" merged_node)
merge_configs-lookup_example = merge_configs-lookup two two_merged two_run "node" merged_node

merge_configs-succeeds_iff_example :
    ((out : Dict (Profile String)) × (merge_configs two ≡ ok out)) ↔ (
      (name : String) → In name (keys two) → (n : ℕ) × (c : Profile String) × Resolves two n name c)
merge_configs-succeeds_iff_example = merge_configs-succeeds_iff two

merge_configs-ne-out_of_fuel_example : merge_configs loop ≢ err out_of_fuel
merge_configs-ne-out_of_fuel_example = merge_configs-ne-out_of_fuel loop

abbrev text : String → String
text s = s

abbrev file_config : Config String
file_config = record empty_config { bee_configs = two }

abbrev unmarshal : String → Outcome ReadError (Option (Config String))
unmarshal content = if str_eq content "" then ok none else ok (some file_config)

abbrev file : YamlFile
file = record { name = "bees.yaml"; content = "bees" }

abbrev empty_file : YamlFile
empty_file = record { name = "empty.yaml"; content = "" }

abbrev read_config : Config String
read_config = record empty_config { bee_configs = two_merged }

read_run : read text unmarshal (file ∷ []) ≡ ok read_config
unfolding read merge merge_configs merge_names join_config insert merge_parent merge_step is_visited
    inherit merge_fields
read_run = refl

read-bee_configs_example :
    (joined : Dict (Profile String)) × ((k : String)
      → lookup k joined ≡ first_declared text unmarshal k (file ∷ []))
    × ((k : String) (p : Profile String)
        → (lookup k two_merged ≡ some p) ↔ ((n : ℕ) × Resolves joined n k p))
read-bee_configs_example = read-bee_configs text unmarshal (file ∷ []) read_config read_run

read_files_run : read_files text unmarshal empty_config (file ∷ []) ≡ ok file_config
unfolding read_files join_config insert
read_files_run = refl
