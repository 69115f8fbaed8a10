-- ===== src/Examples/Setups.antt =====
-- Runs of the setup and the deletion of a cluster (cmd/beekeeper/cmd/cluster.go).
use beekeeper.Common.{
  ◌≡◌, refl, ◌↔◌, ◌⊎◌, true, false, none, some, List, [], ◌∷◌, ◌++◌, String, str_eq, if◌then◌else◌,
  In, sym,
}
use mathlib.Core.Path.{subst}
use mathlib.Core.List
use mathlib.Core.List.{Permᴰ, append-nil}
use beekeeper.Common.Outcome.{Outcome, ok, panic}
use beekeeper.Common.Dict.{Dict, lookup}
use beekeeper.Setup.Names.{ClusterNode, ClusterNodeGroup}
use beekeeper.Setup.Launch.{SetupError, Profiles, Launched, Setup, launch_bootnodes, launch_nodes}
use beekeeper.Setup.Results.{
  NodeResult, receive, returned, Channel, send, finish, Reach, here, next, launched_channel,
  Crashes, take_result,
}
use beekeeper.Setup.Channel.{Reach-ok, FailsAmong, crash_iff}
use beekeeper.Setup.Delete.{Deleted, Deletes, delete_groups, delete_cluster}
use beekeeper.Setup.Cluster.{ClusterConfig, World, Action, set_up, funded, setup_cluster}
use beekeeper.Setup.Members.{members, delete_groups-same}
use beekeeper.Setup.Funding.{IsSetUp, setup_cluster-IsSetUp}

abbrev listed : String → String → ClusterNode
listed name bootnodes = record {
  name = name;
  bootnodes = bootnodes;
  libp2p_key = "";
  swarm_key = none;
}

-- Two boot nodes, of which one has a name of its own, and two nodes by their number.
abbrev groups : Dict ClusterNodeGroup
groups =
    (
      "bee",
      record {
        mode = "node";
        bee_config = "default";
        config = "default";
        count = 2;
        nodes = [];
        node_endpoints = [];
      },
    )
    ∷ (
      "bootnode",
      record {
        mode = "bootnode";
        bee_config = "default";
        config = "default";
        count = 7;
        nodes = listed "" "first" ∷ listed "anchor" "second" ∷ [];
        node_endpoints = [];
      },
    )
    ∷ []

abbrev profiles : Profiles
profiles = record {
  node_groups = ("default", some true) ∷ [];
  bee_configs = ("default", record { bootnodes = ""; profile = "default" }) ∷ [];
}

abbrev empty_setup : Setup
empty_setup = record { launched = []; configs = []; bootnodes = "" }

-- The two boot nodes share one configuration, with the bootnodes of the second.
shared_run :
    (launch_bootnodes profiles true false (λ b. b) groups empty_setup).1.configs
    ≡ ("bootnode", record { bootnodes = "second"; profile = "default" }) ∷ []
unfolding launch_bootnodes
shared_run = refl

abbrev willing : Deletes
willing = record { deletes_node = λ m. true; deletes_volume = λ v. true }

abbrev nothing : Deleted
nothing = record { members = []; volumes = [] }

delete_run : delete_cluster willing true profiles "local" (("local", groups) ∷ []) ≡ (
  ok tt,
  record {
    members =
        ("bee", "bee-0")
        ∷ ("bee", "bee-1")
        ∷ ("bootnode", "bootnode-0")
        ∷ ("bootnode", "anchor")
        ∷ [];
    volumes = "data-bee-0-0" ∷ "data-bee-1-0" ∷ "data-bootnode-0-0" ∷ "data-anchor-0" ∷ [];
  },
)
unfolding delete_cluster
delete_run = refl

-- A node group profile that says nothing of persistence ends a deletion with its storage in a panic.
delete_storage_run :
    (delete_cluster willing true
      (record profiles { node_groups = ("default", none) ∷ [] })
      "local"
      (("local", groups) ∷ [])).0
    ≡ panic
unfolding delete_cluster
delete_storage_run = refl

delete_groups-same_example :
    In ("bootnode", "anchor") (delete_groups willing true profiles groups nothing).1.members ↔ (
      In
        ("bootnode", "anchor")
        (members (launch_bootnodes profiles true false (λ b. b) groups empty_setup).1.launched)
      ⊎ In
          ("bootnode", "anchor")
          (members (launch_nodes profiles true false "second" groups empty_setup).1.launched))
unfolding launch_bootnodes launch_nodes delete_groups
delete_groups-same_example =
    delete_groups-same profiles true willing true (λ b. b) "second" groups empty_setup empty_setup
      nothing refl refl refl refl refl refl ("bootnode", "anchor")

-- The last goroutine is the first to send.
abbrev backwards : List Launched → List Launched
backwards [] = []
backwards (l ∷ ls) = backwards ls ++ l ∷ []

backwards-arrives : (ls : List Launched) → Permᴰ ls (backwards ls)
backwards-arrives [] = Permᴰ.nil
backwards-arrives (l ∷ ls) =
    Permᴰ.trans
      (Permᴰ.cons refl
        (subst (λ x. Permᴰ ls x) (sym (append-nil (backwards ls))) (backwards-arrives ls)))
      (List.Permᴰ.symm (List.Permᴰ.middle l (backwards ls) []))

abbrev world : World
world = record {
  arrival = backwards;
  arrives = backwards-arrives;
  answer = λ l. if str_eq l.name "anchor" then some "" else some l.name;
  funds = λ a. true;
  format = λ b. b;
}

abbrev clusters : Dict ClusterConfig
clusters = ("local", record { use_static_endpoints = false; node_groups = groups }) ∷ []

abbrev actions : Outcome SetupError (Unit {0}) × List Action → List (List String)
actions (r, []) = []
actions (r, set_up ls ∷ done) = names ls ∷ actions (r, done)
  where
    names : List Launched → List String
    names [] = []
    names (l ∷ ls) = l.name ∷ names ls
actions (r, funded a ∷ done) = a ∷ actions (r, done)

setup_run :
    actions (setup_cluster world profiles "local" clusters "geth" "key" true)
    ≡ ("bootnode-0" ∷ "anchor" ∷ [])
      ∷ ("bootnode-0" ∷ [])
      ∷ ("bee-0" ∷ "bee-1" ∷ [])
      ∷ ("bee-1" ∷ "bee-0" ∷ [])
      ∷ []
unfolding setup_cluster
setup_run = refl

setup_cluster-IsSetUp_example :
    (config : ClusterConfig) × (lookup "local" clusters ≡ some config)
    × ((dynamic : config.use_static_endpoints ≡ false) × IsSetUp world profiles config dynamic
          (setup_cluster world profiles "local" clusters "geth" "key" true).1)
unfolding setup_cluster
setup_cluster-IsSetUp_example =
    setup_cluster-IsSetUp world profiles "local" "geth" "key" clusters refl

abbrev good_results : List NodeResult
good_results = ("bee-0", some "a") ∷ ("bee-1", some "b") ∷ []

-- The second goroutine sends first.
abbrev received : Channel
received = record { sending = []; receiver = returned (ok ("b" ∷ "a" ∷ [])) }

receive_steps : Reach (launched_channel 2 good_results) received
unfolding launched_channel take_result
receive_steps =
    next
      (next (next here (send (("bee-0", some "a") ∷ []) [] ("bee-1", some "b") 1 []))
        (send [] [] ("bee-0", some "a") 0 ("b" ∷ [])))
      (finish [] ("b" ∷ "a" ∷ []))

Reach-ok_example :
    (order : List NodeResult) × Permᴰ order good_results
    × (receive [] order ≡ ok ("b" ∷ "a" ∷ []))
    × (received.sending ≡ [])
Reach-ok_example = Reach-ok good_results ("b" ∷ "a" ∷ []) receive_steps refl

abbrev bad_results : List NodeResult
bad_results = ("bee-0", some "a") ∷ ("bee-1", none) ∷ []

crash_iff_example :
    ((c : Channel) × Reach (launched_channel 2 bad_results) c × Crashes c) ↔ FailsAmong bad_results
crash_iff_example = crash_iff bad_results
