-- ===== src/Setup/Members.antt =====
-- A deletion deletes the nodes that a setup has set up (cmd/beekeeper/cmd/cluster.go).
use beekeeper.Common.{
  ℕ, zero, suc, ◌≡◌, refl, ◌↔◌, ◌⊎◌, inl, inr, Bool, true, false, Option, none, some, List, [], ◌∷◌,
  ◌++◌, String, str_eq, arith, In, Bool-cases, ◌∙◌, sym, ap,
}
use mathlib.Core.List.{append_assoc, append-nil}
use beekeeper.Common.Outcome.{Outcome, ok, err, panic}
use beekeeper.Common.Dict.{Dict, lookup}
use beekeeper.Setup.Names.{ClusterNode, ClusterNodeGroup, bootnode_mode, node_name, numbered}
use beekeeper.Setup.Launch.{
  SetupError, Profiles, Launched, Setup, listed_nodes, counted_nodes, launch_bootnodes, group_nodes,
  launch_nodes,
}
use beekeeper.Setup.Delete.{
  Member, Deleted, Deletes, listed_names, counted_names, group_names, delete_volume, delete_nodes,
  delete_groups,
}
use beekeeper.Setup.Same.{
  bootnode_nodes, other_nodes, launch_nodes-launched, launch_bootnodes-launched,
}

abbrev pub members_of : String → List String → List Member
members_of ng_name [] = []
members_of ng_name (name ∷ names) = (ng_name, name) ∷ members_of ng_name names

abbrev pub all_members : Dict ClusterNodeGroup → List Member
all_members [] = []
all_members ((ng_name, v) ∷ groups) =
    members_of ng_name (group_names ng_name v) ++ all_members groups

abbrev pub members : List Launched → List Member
members [] = []
members (l ∷ ls) = (l.group, l.name) ∷ members ls

members-append : (xs ys : List Launched) → members (xs ++ ys) ≡ members xs ++ members ys
members-append [] ys = refl
members-append (x ∷ xs) ys = ap (λ l. (x.group, x.name) ∷ l) (members-append xs ys)

module _ (cluster : Deletes) (delete_storage : Bool) (profiles : Profiles) where
  delete_volume-members :
      (persistence : Option Bool) (name : String) (d : Deleted)
      → (delete_volume cluster delete_storage profiles persistence name d).1.members ≡ d.members
  unfolding delete_volume
  delete_volume-members persistence name d = ground arith

  delete_nodes-members :
      (g : String) (persistence : Option Bool) (names : List String) (d : Deleted)
      → (delete_nodes cluster delete_storage profiles g persistence names d).0 ≡ ok tt
      → (delete_nodes cluster delete_storage profiles g persistence names d).1.members
        ≡ d.members ++ members_of g names
  unfolding delete_nodes
  delete_nodes-members g persistence [] d h = sym (append-nil d.members)
  delete_nodes-members g persistence (name ∷ names) d h =
      node (cluster.deletes_node (g, name)) refl
        (λ e k. delete_nodes-members g persistence names e k)
    where
      d' : Deleted
      d' = record d { members = d.members ++ (g, name) ∷ [] }

      Goal : Type 0
      Goal =
          (delete_nodes cluster delete_storage profiles g persistence (name ∷ names) d).1.members
          ≡ d.members ++ members_of g (name ∷ names)

      Rest : Type 0
      Rest =
          (e : Deleted)
          → (delete_nodes cluster delete_storage profiles g persistence names e).0 ≡ ok tt
          → (delete_nodes cluster delete_storage profiles g persistence names e).1.members
            ≡ e.members ++ members_of g names

      volume :
          cluster.deletes_node (g, name) ≡ true
          → (r : Outcome SetupError (Unit {0}))
          → (delete_volume cluster delete_storage profiles persistence name d').0 ≡ r
          → Rest
          → Goal
      volume n (err e) p rest = let h' = rw (delete_nodes, n, p) at h in cc
      volume n panic p rest = let h' = rw (delete_nodes, n, p) at h in cc
      volume n (ok u) p rest =
          rw (delete_nodes, n, p)
            (rest _ (rw (delete_nodes, n, p) at h)
              ∙ rw (delete_volume-members persistence name d')
                  (append_assoc d.members ((g, name) ∷ []) (members_of g names)))

      node : (b : Bool) → cluster.deletes_node (g, name) ≡ b → Rest → Goal
      node false n rest = let h' = rw (delete_nodes, n) at h in cc
      node true n rest =
          volume n (delete_volume cluster delete_storage profiles persistence name d').0 refl rest

  delete_groups-members :
      (groups : Dict ClusterNodeGroup) (d : Deleted)
      → (delete_groups cluster delete_storage profiles groups d).0 ≡ ok tt
      → (delete_groups cluster delete_storage profiles groups d).1.members
        ≡ d.members ++ all_members groups
  unfolding delete_groups
  delete_groups-members [] d h = sym (append-nil d.members)
  delete_groups-members ((g, v) ∷ groups) d h =
      profile (lookup v.config profiles.node_groups) refl (λ e k. delete_groups-members groups e k)
    where
      Goal : Type 0
      Goal =
          (delete_groups cluster delete_storage profiles ((g, v) ∷ groups) d).1.members
          ≡ d.members ++ all_members ((g, v) ∷ groups)

      Rest : Type 0
      Rest =
          (e : Deleted)
          → (delete_groups cluster delete_storage profiles groups e).0 ≡ ok tt
          → (delete_groups cluster delete_storage profiles groups e).1.members
            ≡ e.members ++ all_members groups

      nodes :
          (p : Option Bool)
          → lookup v.config profiles.node_groups ≡ some p
          → (r : Outcome SetupError (Unit {0}))
          → (delete_nodes cluster delete_storage profiles g p (group_names g v) d).0 ≡ r
          → Rest
          → Goal
      nodes p q (err e) n rest = let h' = rw (delete_groups, q, n) at h in cc
      nodes p q panic n rest = let h' = rw (delete_groups, q, n) at h in cc
      nodes p q (ok u) n rest =
          rw (delete_groups, q, n)
            (rest _ (rw (delete_groups, q, n) at h)
              ∙ rw (delete_nodes-members g p (group_names g v) d n)
                  (append_assoc d.members (members_of g (group_names g v)) (all_members groups)))

      profile : (o : Option (Option Bool)) → lookup v.config profiles.node_groups ≡ o → Rest → Goal
      profile none q rest = let h' = rw (delete_groups, q) at h in cc
      profile (some p) q rest =
          nodes p q (delete_nodes cluster delete_storage profiles g p (group_names g v) d).0 refl
            rest

In-append : {A : Type 0} (a : A) (xs ys : List A) → In a (xs ++ ys) ↔ (In a xs ⊎ In a ys)
In-append a [] ys = ((λ i. inr i), (λ j. elim j [ inl i ↦ absurd i | inr i ↦ i ]))
In-append a (x ∷ xs) ys =
    let (f, g) = In-append a xs ys in
    (
      (λ i. elim i [
        | inl e ↦ inl (inl e)
        | inr j ↦ elim (f j) [ inl k ↦ inl (inr k) | inr k ↦ inr k ]
      ]),
      (λ i. elim i [
        | inl j ↦ elim j [ inl e ↦ inl e | inr k ↦ inr (g (inl k)) ]
        | inr k ↦ inr (g (inr k))
      ]),
    )

module _ (profiles : Profiles) (start : Bool) where
  members-listed_nodes :
      (config : Option String) (g : String) (i : ℕ) (nodes : List ClusterNode)
      → members (listed_nodes profiles start false config g i nodes)
        ≡ members_of g (listed_names g i nodes)
  unfolding listed_nodes listed_names
  members-listed_nodes config g i [] = refl
  members-listed_nodes config g i (node ∷ nodes) =
      ap (λ l. (g, node_name g i node) ∷ l) (members-listed_nodes config g (suc i) nodes)

  members-counted_nodes :
      (g : String) (i count : ℕ)
      → members (counted_nodes profiles start false g i count)
        ≡ members_of g (counted_names g i count)
  unfolding counted_nodes counted_names
  members-counted_nodes g i zero = refl
  members-counted_nodes g i (suc count) =
      ap (λ l. (g, numbered g i) ∷ l) (members-counted_nodes g (suc i) count)

  members-group_nodes :
      (g : String) (v : ClusterNodeGroup)
      → str_eq v.mode bootnode_mode ≡ false
      → members (group_nodes profiles start false g v) ≡ members_of g (group_names g v)
  unfolding group_nodes group_names
  members-group_nodes g v m = by_nodes v.nodes refl
    where
      by_nodes :
          (ns : List ClusterNode)
          → v.nodes ≡ ns
          → members (group_nodes profiles start false g v) ≡ members_of g (group_names g v)
      by_nodes [] e = rw (group_nodes, group_names, m, e) (members-counted_nodes g 0 v.count)
      by_nodes (n ∷ ns) e =
          rw (group_nodes, group_names, m, e) (members-listed_nodes none g 0 (n ∷ ns))

  members-bootnodes :
      (g : String) (v : ClusterNodeGroup)
      → str_eq v.mode bootnode_mode ≡ true
      → members (listed_nodes profiles start false (some g) g 0 v.nodes)
        ≡ members_of g (group_names g v)
  unfolding group_names
  members-bootnodes g v m = rw (group_names, m) (members-listed_nodes (some g) g 0 v.nodes)

  all_members-In :
      (groups : Dict ClusterNodeGroup) (x : Member)
      → In x (all_members groups) ↔ (
          In x (members (bootnode_nodes profiles start false groups))
          ⊎ In x (members (other_nodes profiles start false groups)))
  all_members-In [] x = ((λ i. inl i), (λ j. elim j [ inl i ↦ i | inr i ↦ i ]))
  all_members-In ((g, v) ∷ groups) x =
      let (f, k) = all_members-In groups x in
      let (p, q) = In-append x (members_of g (group_names g v)) (all_members groups) in
      elim (Bool-cases (str_eq v.mode bootnode_mode)) [
        | inl m ↦
            let here = members-bootnodes g v m in
            let b = listed_nodes profiles start false (some g) g 0 v.nodes in
            let (r, s) =
              In-append x (members b) (members (bootnode_nodes profiles start false groups)) in
            let split = members-append b (bootnode_nodes profiles start false groups) in
            rw (m, split)
              (
                (λ i. elim (p i) [
                  | inl j ↦ inl (s (inl (rw here j)))
                  | inr j ↦ elim (f j) [ inl z ↦ inl (s (inr z)) | inr z ↦ inr z ]
                ]),
                (λ i. elim i [
                  | inl j ↦ elim (r j) [
                    | inl z ↦ q (inl (rw here at z))
                    | inr z ↦ q (inr (k (inl z)))
                  ]
                  | inr z ↦ q (inr (k (inr z)))
                ]),
              )
        | inr m ↦
            let here = members-group_nodes g v m in
            let b = group_nodes profiles start false g v in
            let (r, s) =
              In-append x (members b) (members (other_nodes profiles start false groups)) in
            let split = members-append b (other_nodes profiles start false groups) in
            rw (m, split)
              (
                (λ i. elim (p i) [
                  | inl j ↦ inr (s (inl (rw here j)))
                  | inr j ↦ elim (f j) [ inl z ↦ inl z | inr z ↦ inr (s (inr z)) ]
                ]),
                (λ i. elim i [
                  | inl z ↦ q (inr (k (inl z)))
                  | inr j ↦ elim (r j) [
                    | inl z ↦ q (inl (rw here at z))
                    | inr z ↦ q (inr (k (inr z)))
                  ]
                ]),
              )
      ]

  -- A setup without static endpoints whose launches succeed launches exactly the nodes, by group and
  -- name, that a deletion of the same groups that succeeds deletes, whatever the storage.
  pub delete_groups-same :
      (cluster : Deletes) (delete_storage : Bool) (format : String → String) (bootnodes_in : String)
      (groups : Dict ClusterNodeGroup) (s t : Setup) (d : Deleted)
      → s.launched ≡ []
      → t.launched ≡ []
      → d.members ≡ []
      → (launch_bootnodes profiles start false format groups s).0 ≡ ok tt
      → (launch_nodes profiles start false bootnodes_in groups t).0 ≡ ok tt
      → (delete_groups cluster delete_storage profiles groups d).0 ≡ ok tt
      → (x : Member)
      → In x (delete_groups cluster delete_storage profiles groups d).1.members ↔ (
          In x (members (launch_bootnodes profiles start false format groups s).1.launched)
          ⊎ In x (members (launch_nodes profiles start false bootnodes_in groups t).1.launched))
  delete_groups-same cluster delete_storage format b groups s t d es et ed hs ht hd x =
      let ls = launch_bootnodes-launched profiles start false format groups s hs in
      let lt = launch_nodes-launched profiles start false b groups t ht in
      let ld = delete_groups-members cluster delete_storage profiles groups d hd in
      rw (ls, lt, ld) (rw (es, et, ed) (all_members-In groups x))
