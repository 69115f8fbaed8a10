-- ===== src/Provider/Provided.antt =====
-- The nodes that `GetNodes` of pkg/node/client.go makes of the clients it has.
use beekeeper.Common.{
  ◌≡◌, refl, ◌↔◌, ◌⊎◌, inl, inr, Bool, true, false, not, ◌&&◌, List, [], ◌∷◌, In, In-append_left,
  In-append_right, In-append_cases, String, str_eq, eq_iff, Bool-cases, ap, sym, ◌∙◌,
}
use mathlib.Core.Path.{subst}
use beekeeper.Common.Outcome.{ok}
use beekeeper.Provider.Nodes.{
  BeeClient, ProvidedNode, of_group, of_groups, filter_by_node_groups, provided_name, insert_node,
  sort, new_nodes, Provider, get_nodes,
}

module _ {Api : Type 0} where
  of_group-In_iff :
      (ng : String) (clients : List (BeeClient Api)) (c : BeeClient Api)
      → In c (of_group ng clients) ↔ (In c clients × (c.node_group ≡ ng))
  unfolding of_group
  of_group-In_iff ng [] c = (λ i. absurd i, λ i. absurd i.0)
  of_group-In_iff ng (d ∷ clients) c = elim (Bool-cases (str_eq d.node_group ng)) [
    | inl e ↦
        let rest = of_group-In_iff ng clients c in
        (
          λ i.
              let i' : In c (d ∷ of_group ng clients) = rw (of_group, e) at i in
              elim i' [
                | inl q ↦ (inl q, ap (λ x. x.node_group) q ∙ (eq_iff d.node_group ng).0 e)
                | inr j ↦ (inr (rest.0 j).0, (rest.0 j).1)
              ],
          λ (i, g). rw (of_group, e) (elim i [ inl q ↦ inl q | inr j ↦ inr (rest.1 (j, g)) ]),
        )
    | inr e ↦
        let rest = of_group-In_iff ng clients c in
        (
          λ i.
              let i' : In c (of_group ng clients) = rw (of_group, e) at i in
              (inr (rest.0 i').0, (rest.0 i').1),
          λ (i, g).
              rw (of_group, e)
                (elim i [
                  | inl q ↦
                      let t = (eq_iff d.node_group ng).1 (ap (λ x. x.node_group) (sym q) ∙ g) in
                      absurd (true-ne-false (sym t ∙ e))
                  | inr j ↦ rest.1 (j, g)
                ]),
        )
  ]
    where
      true-ne-false : true ≡ false → ⊥
      true-ne-false q = cc

  of_groups-In_iff :
      (groups : List String) (clients : List (BeeClient Api)) (c : BeeClient Api)
      → In c (of_groups groups clients) ↔ (In c clients × In c.node_group groups)
  unfolding of_groups
  of_groups-In_iff [] clients c = (λ i. absurd i, λ i. absurd i.1)
  of_groups-In_iff (ng ∷ groups) clients c =
      let one = of_group-In_iff ng clients c in
      let rest = of_groups-In_iff groups clients c in
      (
        λ i. elim (In-append_cases c (of_group ng clients) (of_groups groups clients) i) [
          | inl j ↦ ((one.0 j).0, inl (one.0 j).1)
          | inr j ↦ ((rest.0 j).0, inr (rest.0 j).1)
        ],
        λ (i, g). elim g [
          | inl e ↦ In-append_left c (of_group ng clients) (of_groups groups clients) (one.1 (i, e))
          | inr j ↦
              In-append_right c (of_group ng clients) (of_groups groups clients) (rest.1 (i, j))
        ],
      )

  -- A client is asked for: there are no groups, or it is of one of them.
  abbrev pub IsWanted : List String → BeeClient Api → Type 0
  IsWanted groups c = (groups ≡ []) ⊎ In c.node_group groups

  filter-In_iff :
      (groups : List String) (clients : List (BeeClient Api)) (c : BeeClient Api)
      → In c (filter_by_node_groups groups clients) ↔ (In c clients × IsWanted groups c)
  unfolding filter_by_node_groups
  filter-In_iff [] clients c = (λ i. (i, inl refl), λ i. i.0)
  filter-In_iff (ng ∷ groups) clients c =
      let all = of_groups-In_iff (ng ∷ groups) clients c in
      (
        λ i. ((all.0 i).0, inr (all.0 i).1),
        λ (i, g). all.1 (i, elim g [ inl e ↦ absurd (cons-ne-nil e) | inr j ↦ j ]),
      )
    where
      cons-ne-nil : ng ∷ groups ≡ [] → ⊥
      cons-ne-nil e = cc

  new_nodes-In_iff :
      (beekeeper : Bool) (clients : List (BeeClient Api)) (n : ProvidedNode Api)
      → In n (new_nodes beekeeper clients)
        ↔ ((c : BeeClient Api) × In c clients × (n ≡ (c.api, provided_name beekeeper c.name)))
  unfolding new_nodes
  new_nodes-In_iff beekeeper [] n = (λ i. absurd i, λ i. absurd i.1)
  new_nodes-In_iff beekeeper (d ∷ clients) n =
      let rest = new_nodes-In_iff beekeeper clients n in
      (
        λ i. elim i [
          | inl e ↦ (d, inl refl, e)
          | inr j ↦ let (c, k, e) = rest.0 j in (c, inr k, e)
        ],
        λ (c, i, e). elim i [
          | inl q ↦ inl (e ∙ ap (λ x. (x.api, provided_name beekeeper x.name)) q)
          | inr j ↦ inr (rest.1 (c, j, e))
        ],
      )

  insert_node-In_iff :
      (before : String → String → Bool) (m : ProvidedNode Api) (nodes : List (ProvidedNode Api))
      (n : ProvidedNode Api)
      → In n (insert_node before m nodes) ↔ ((n ≡ m) ⊎ In n nodes)
  unfolding insert_node
  insert_node-In_iff before m [] n = (λ i. i, λ i. i)
  insert_node-In_iff before m (k ∷ nodes) n = elim (Bool-cases (before k.1 m.1)) [
    | inr e ↦ rw (insert_node, e) (λ i. i, λ i. i)
    | inl e ↦
        let rest = insert_node-In_iff before m nodes n in
        rw (insert_node, e)
          (
            λ i. elim i [
              | inl q ↦ inr (inl q)
              | inr j ↦ elim (rest.0 j) [ inl q ↦ inl q | inr l ↦ inr (inr l) ]
            ],
            λ i. elim i [
              | inl q ↦ inr (rest.1 (inl q))
              | inr j ↦ elim j [ inl q ↦ inl q | inr l ↦ inr (rest.1 (inr l)) ]
            ],
          )
  ]

  sort-In_iff :
      (before : String → String → Bool) (nodes : List (ProvidedNode Api)) (n : ProvidedNode Api)
      → In n (sort before nodes) ↔ In n nodes
  unfolding sort
  sort-In_iff before [] n = (λ i. i, λ i. i)
  sort-In_iff before (m ∷ nodes) n =
      let rest = sort-In_iff before nodes n in
      let one = insert_node-In_iff before m (sort before nodes) n in
      (
        λ i. elim (one.0 i) [ inl q ↦ inl q | inr j ↦ inr (rest.0 j) ],
        λ i. one.1 (elim i [ inl q ↦ inl q | inr j ↦ inr (rest.1 j) ]),
      )

-- When GetNodes, which does not look into a namespace, ends without an error, its nodes are those of
-- the clients of the asked groups, or of all clients if no group is asked for.
pub get_nodes-In_iff :
    {Api : Type 0} (p : Provider Api) (before : String → String → Bool)
    (nodes : List (ProvidedNode Api))
    → (p.use_namespace && not (str_eq p.namespace "")) ≡ false
    → get_nodes p before ≡ ok nodes
    → (n : ProvidedNode Api)
    → In n nodes ↔ (
        (c : BeeClient Api) × In c p.clients
        × IsWanted p.node_groups c
        × (n ≡ (c.api, provided_name p.beekeeper c.name)))
unfolding get_nodes
get_nodes-In_iff p before nodes u h n = by_clients p.clients refl
  where
    Goal : Type 0
    Goal = In n nodes ↔ (
        (c : BeeClient _) × In c p.clients
        × IsWanted p.node_groups c
        × (n ≡ (c.api, provided_name p.beekeeper c.name)))

    by_filter :
        (c : BeeClient _) (cs : List (BeeClient _))
        → p.clients ≡ c ∷ cs
        → (l : List (BeeClient _)) → filter_by_node_groups p.node_groups (c ∷ cs) ≡ l
        → Goal
    by_filter c cs e [] f = let h' = rw (get_nodes, u, e, f) at h in cc
    by_filter c cs e (d ∷ ds) f =
        let h' = rw (get_nodes, u, e, f) at h in
        let same : sort before (new_nodes p.beekeeper (d ∷ ds)) ≡ nodes = cc in
        let sorted = sort-In_iff before (new_nodes p.beekeeper (d ∷ ds)) n in
        let made = new_nodes-In_iff p.beekeeper (d ∷ ds) n in
        (
          λ i.
              let (b, j, q) = made.0 (sorted.0 (subst (λ l. In n l) (sym same) i)) in
              let (k, w) =
                (filter-In_iff p.node_groups (c ∷ cs) b).0 (subst (λ l. In b l) (sym f) j) in
              (b, subst (λ l. In b l) (sym e) k, w, q),
          λ (b, k, w, q).
              let j =
                subst (λ l. In b l) f
                  ((filter-In_iff p.node_groups (c ∷ cs) b).1 (subst (λ l. In b l) e k, w)) in
              subst (λ l. In n l) same (sorted.1 (made.1 (b, j, q))),
        )

    by_clients : (l : List (BeeClient _)) → p.clients ≡ l → Goal
    by_clients [] e = let h' = rw (get_nodes, u, e) at h in cc
    by_clients (c ∷ cs) e = by_filter c cs e (filter_by_node_groups p.node_groups (c ∷ cs)) refl
