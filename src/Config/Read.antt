-- ===== src/Config/Read.antt =====
-- `Read` and `merge` of pkg/config/config.go. `yaml.Unmarshal` is a parameter: it fails, leaves the
-- pointer nil (an empty document), or fills a Config.
use beekeeper.Common.{Option, none, some, List, [], ◌∷◌, if◌then◌else◌, String}
use beekeeper.Common.Outcome.{Outcome, ok, err, panic, ◌>>=◌}
use beekeeper.Common.Dict.{Dict, lookup, contains, insert}
use beekeeper.Config.Profiles.{Profile, MergeError, merge_configs}

pub record Config (V : Type 0) : Type 0 where
  pub clusters : Dict (Profile V)
  pub node_groups : Dict (Profile V)
  pub bee_configs : Dict (Profile V)
  pub checks : Dict V
  pub simulations : Dict V

pub record YamlFile : Type 0 where
  pub name : String
  pub content : String

pub data ReadError : Type 0 where
  unmarshaling : ReadError
  merging_bee_configs merging_node_groups merging_clusters : MergeError → ReadError

-- `for k, v := range tmp { if _, ok := c[k]; !ok { c[k] = v } }`
unfoldable pub join {ℓ} : {A : Type ℓ} → Dict A → Dict A → Dict A
unfolding lookup
join c [] = c
join c ((k, v) ∷ tmp) = join (if contains k c then c else insert k v c) tmp

module _ {V : Type 0} where
  -- `fmt.Errorf` around the error of a merge.
  unfoldable pub labelled :
      (MergeError → ReadError)
      → Outcome MergeError (Dict (Profile V))
      → Outcome ReadError (Dict (Profile V))
  labelled label (ok d) = ok d
  labelled label (err e) = err (label e)
  labelled label panic = panic

  unfoldable pub merge : Config V → Outcome ReadError (Config V)
  unfolding labelled
  merge c = do
    bee_configs ← labelled merging_bee_configs (merge_configs c.bee_configs)
    node_groups ← labelled merging_node_groups (merge_configs c.node_groups)
    clusters ← labelled merging_clusters (merge_configs c.clusters)
    ok (record c { clusters = clusters; node_groups = node_groups; bee_configs = bee_configs })

  -- The five loops that join a file's maps to the configuration.
  unfoldable pub join_config : Config V → Config V → Config V
  unfolding join
  join_config c tmp = record {
    clusters = join c.clusters tmp.clusters;
    node_groups = join c.node_groups tmp.node_groups;
    bee_configs = join c.bee_configs tmp.bee_configs;
    checks = join c.checks tmp.checks;
    simulations = join c.simulations tmp.simulations;
  }

  abbrev pub empty_config : Config V
  empty_config = record {
    clusters = [];
    node_groups = [];
    bee_configs = [];
    checks = [];
    simulations = [];
  }

-- `text` makes a string value. `Name` is the first pointer field of a cluster.
module _ {V : Type 0} (text : String → V) where
  unfoldable pub set_name : String → Profile V → Profile V
  set_name key cluster = elim cluster.fields [
    | [] ↦ cluster
    | f ∷ fs ↦ record cluster { fields = some (text key) ∷ fs }
  ]

  unfoldable pub name_clusters : Dict (Profile V) → Dict (Profile V)
  unfolding set_name
  name_clusters [] = []
  name_clusters ((key, cluster) ∷ m) = (key, set_name key cluster) ∷ name_clusters m

  -- What the loop does with an unmarshalled file: with a nil `tmp` the first field access panics.
  unfoldable pub add_file :
      Config V → Outcome ReadError (Option (Config V)) → Outcome ReadError (Config V)
  unfolding name_clusters
  add_file c (ok (some tmp)) =
      ok (join_config c (record tmp { clusters = name_clusters tmp.clusters }))
  add_file c (ok none) = panic
  add_file c (err e) = err e
  add_file c panic = panic

module _ {V : Type 0} (text : String → V)
    (unmarshal : String → Outcome ReadError (Option (Config V))) where
  unfoldable pub read_files : Config V → List YamlFile → Outcome ReadError (Config V)
  unfolding add_file
  read_files c [] = ok c
  read_files c (file ∷ files) =
      add_file text c (unmarshal file.content) >>= λ c'. read_files c' files

  unfoldable pub read : List YamlFile → Outcome ReadError (Config V)
  unfolding read_files
  read files = read_files empty_config files >>= merge
