-- ===== src/Examples/Nodes.antt =====
-- Runs of a node group (pkg/orchestration/k8s/nodegroup.go).
use beekeeper.Common.{
  ℕ, zero, suc, ◌≡◌, refl, ◌↔◌, Bool, true, false, Option, none, some, List, [], ◌∷◌, inl, inr,
  String, str_eq, In,
}
use beekeeper.Common.Outcome.{Outcome, ok}
use beekeeper.Common.Dict.{Dict, lookup, IsMap}
use beekeeper.Group.Streams.{BeeClient, Node, StateError, stopped_nodes, Order, IsArrival, ask}
use beekeeper.Group.Members.{Answers, ask-Answers}
use beekeeper.Group.Running.{Orchestrator}

abbrev client : ℕ → BeeClient ℕ
client n = record {
  addresses = some n;
  accounting = some [];
  balances = some [];
  overlay = some n;
  peers = some [];
  settlements = some [];
  topology = none;
  has_chunk = λ a. some true;
}

abbrev bee : String → ℕ → Node ℕ
bee name n = record { name = name; client = client n }

abbrev group : Dict (Node ℕ)
group = ("bee-0", bee "bee-0" 4) ∷ ("bee-1", bee "bee-1" 5) ∷ ("bee-2", bee "bee-2" 6) ∷ []

-- The orchestrator knows a stopped node of another group, too.
abbrev stopped : Outcome StateError (List String)
stopped = ok ("other" ∷ "bee-1" ∷ [])

stopped_run : stopped_nodes stopped group ≡ ok ("bee-1" ∷ [])
unfolding stopped_nodes
stopped_run = refl

-- The second message comes first.
abbrev swapped : Order
swapped A [] = []
swapped A (m ∷ []) = m ∷ []
swapped A (m ∷ n ∷ sent) = n ∷ m ∷ sent

arrival : IsArrival swapped
arrival A [] m = ((λ i. i), (λ i. i))
arrival A (n ∷ []) m = ((λ i. i), (λ i. i))
arrival A (n ∷ o ∷ sent) m = (there, back)
  where
    there : In m (o ∷ n ∷ sent) → In m (n ∷ o ∷ sent)
    there (inl e) = inr (inl e)
    there (inr (inl e)) = inl e
    there (inr (inr i)) = inr (inr i)

    back : In m (n ∷ o ∷ sent) → In m (o ∷ n ∷ sent)
    back (inl e) = inr (inl e)
    back (inr (inl e)) = inl e
    back (inr (inr i)) = inr (inr i)

abbrev overlay_text : Option ℕ → String
overlay_text o = "overlay"

abbrev overlay_of : BeeClient ℕ → Option ℕ
overlay_of c = c.overlay

ask_run : ask swapped stopped overlay_text group overlay_of ≡ ok (("bee-2", 6) ∷ ("bee-0", 4) ∷ [])
unfolding ask
ask_run = refl

group-IsMap : IsMap group
unfolding lookup
group-IsMap = (refl, (refl, (refl, tt)))

ask-Answers_example :
    (((m : Dict ℕ) × (ask swapped stopped overlay_text group overlay_of ≡ ok m))
      ↔ ((k : String) → Answers overlay_of ("bee-1" ∷ []) group k none → ⊥))
    × ((m : Dict ℕ)
        → ask swapped stopped overlay_text group overlay_of ≡ ok m
        → (k : String) (a : ℕ)
        → (lookup k m ≡ some a) ↔ Answers overlay_of ("bee-1" ∷ []) group k (some a))
ask-Answers_example =
    ask-Answers swapped arrival stopped overlay_text overlay_of group ("bee-1" ∷ []) group-IsMap
      stopped_run

-- Ready at the third question.
abbrev third : ℕ → Option Bool
third zero = some false
third (suc zero) = some false
third (suc (suc i)) = some true

abbrev orchestrator : Orchestrator
orchestrator = record {
  delete = λ name. str_eq name "bee-0";
  create = λ name. true;
  start = λ name. true;
  ready = third;
}
