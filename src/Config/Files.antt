-- ===== src/Config/Files.antt =====
-- What `Read` of pkg/config/config.go makes of its files: the first file that declares a name wins,
-- and an empty file ends the program.
use beekeeper.Common.{
  ℕ, ◌≡◌, refl, ◌↔◌, Option, none, some, List, [], ◌∷◌, ◌++◌, arith, String, eq_iff, if◌then◌else◌,
  ◌∙◌, ap, sym,
}
use beekeeper.Common.Outcome.{Outcome, ok, err, panic, ◌>>=◌, >>=-eq-ok}
use beekeeper.Common.Dict.{Dict, lookup, contains, insert, lookup-insert}
use beekeeper.Config.Profiles.{Profile, merge_configs}
use beekeeper.Config.Read.{
  Config, YamlFile, ReadError, join, labelled, merge, join_config, empty_config, name_clusters,
  add_file, read_files, read,
}
use beekeeper.Config.Resolve.{Resolves}
use beekeeper.Config.Correct.{merge_configs-lookup}

abbrev pub or_else {ℓ} : {A : Type ℓ} → Option A → Option A → Option A
or_else (some a) o = some a
or_else none o = o

pub lookup-join {ℓ} :
    {A : Type ℓ} (k : String) (c tmp : Dict A)
    → lookup k (join c tmp) ≡ or_else (lookup k c) (lookup k tmp)
unfolding join lookup
lookup-join k c [] = ground arith
lookup-join k c ((j, v) ∷ tmp) = ground (
  arith,
  lookup-join k (if contains j c then c else insert j v c) tmp,
  lookup-insert j k v c,
  eq_iff j k,
)

module _ {V : Type 0} where
  -- What an unmarshalled file says of a bee config.
  abbrev pub bee_config_of : String → Outcome ReadError (Option (Config V)) → Option (Profile V)
  bee_config_of k (ok (some c)) = lookup k c.bee_configs
  bee_config_of k (ok none) = none
  bee_config_of k (err e) = none
  bee_config_of k panic = none

  add_file-bee_configs :
      (text : String → V) (k : String) (c c' : Config V) (r : Outcome ReadError (Option (Config V)))
      → add_file text c r ≡ ok c'
      → lookup k c'.bee_configs ≡ or_else (lookup k c.bee_configs) (bee_config_of k r)
  unfolding add_file join_config
  add_file-bee_configs text k c c' (ok (some tmp)) h =
      let named : Config V = record tmp { clusters = name_clusters text tmp.clusters } in
      let e : join_config c named ≡ c' = cc in
      ap (λ (d : Config V). lookup k d.bee_configs) (sym e)
      ∙ lookup-join k c.bee_configs tmp.bee_configs
  add_file-bee_configs text k c c' (ok none) h = cc
  add_file-bee_configs text k c c' (err x) h = cc
  add_file-bee_configs text k c c' panic h = cc

  merge-bee_configs :
      (d c : Config V) → merge d ≡ ok c → merge_configs d.bee_configs ≡ ok c.bee_configs
  unfolding merge labelled
  merge-bee_configs d c h = ground arith

module _ {V : Type 0} (text : String → V)
    (unmarshal : String → Outcome ReadError (Option (Config V))) where
  -- The bee config of the first file that declares one of the name.
  abbrev pub first_declared : String → List YamlFile → Option (Profile V)
  first_declared k [] = none
  first_declared k (file ∷ files) =
      or_else (bee_config_of k (unmarshal file.content)) (first_declared k files)

  or_else_assoc {ℓ} :
      {A : Type ℓ} (a b c : Option A) → or_else (or_else a b) c ≡ or_else a (or_else b c)
  or_else_assoc none b c = refl
  or_else_assoc (some a) b c = refl

  read_files-bee_configs :
      (k : String) (c c' : Config V) (files : List YamlFile)
      → read_files text unmarshal c files ≡ ok c'
      → lookup k c'.bee_configs ≡ or_else (lookup k c.bee_configs) (first_declared k files)
  unfolding read_files
  read_files-bee_configs k c c' [] h = ground arith
  read_files-bee_configs k c c' (file ∷ files) h =
      let (d, e, rest) = >>=-eq-ok (add_file text c (unmarshal file.content)) _ h in
      read_files-bee_configs k d c' files rest
      ∙ ap (λ o. or_else o (first_declared k files))
          (add_file-bee_configs text k c d (unmarshal file.content) e)
      ∙ or_else_assoc (lookup k c.bee_configs) _ _

  -- A successful `Read` resolves the bee configs that the files declare, the first declaration of a
  -- name winning: `joined` is the map of those declarations, and a name of the result holds exactly
  -- what its chain of parents in `joined` resolves to.
  pub read-bee_configs :
      (files : List YamlFile) (c : Config V)
      → read text unmarshal files ≡ ok c
      → (joined : Dict (Profile V)) × ((k : String) → lookup k joined ≡ first_declared k files)
        × ((k : String) (p : Profile V)
            → (lookup k c.bee_configs ≡ some p) ↔ ((n : ℕ) × Resolves joined n k p))
  unfolding read lookup
  read-bee_configs files c h =
      let (d, e, rest) = >>=-eq-ok (read_files text unmarshal empty_config files) merge h in
      (
        d.bee_configs,
        (λ k. read_files-bee_configs k empty_config d files e),
        merge_configs-lookup d.bee_configs c.bee_configs (merge-bee_configs d c rest),
      )

  read_files-append :
      (c : Config V) (before after : List YamlFile)
      → read_files text unmarshal c (before ++ after)
        ≡ (read_files text unmarshal c before >>= λ d. read_files text unmarshal d after)
  unfolding read_files
  read_files-append c [] after = refl
  read_files-append c (file ∷ before) after =
      rest (add_file text c (unmarshal file.content)) (λ d. read_files-append d before after)
    where
      rest :
          (r : Outcome ReadError (Config V))
          → ((d : Config V)
              → read_files text unmarshal d (before ++ after)
                ≡ (read_files text unmarshal d before >>= λ d'. read_files text unmarshal d' after))
          → (r >>= λ d. read_files text unmarshal d (before ++ after)) ≡ (
              (r >>= λ d. read_files text unmarshal d before) >>= λ d.
              read_files text unmarshal d after)
      rest (ok d) ih = ih d
      rest (err x) ih = refl
      rest panic ih = refl

  -- A file that unmarshals to nothing, after files that read well, ends the program in a panic.
  pub read-empty_file :
      (before after : List YamlFile) (file : YamlFile) (c : Config V)
      → read_files text unmarshal empty_config before ≡ ok c
      → unmarshal file.content ≡ ok none
      → read text unmarshal (before ++ file ∷ after) ≡ panic
  unfolding read read_files add_file
  read-empty_file before after file c h e =
      rw (read_files-append empty_config before (file ∷ after), h, read_files, e) refl
