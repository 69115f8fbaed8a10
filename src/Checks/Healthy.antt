-- ===== src/Checks/Healthy.antt =====
-- What the static kademlia check of pkg/check/kademlia/kademlia.go establishes when it passes.
use beekeeper.Common.{ℕ, ◌≡◌, refl, ◌↔◌, Bool, true, false, List, [], ◌∷◌, arith, String, All}
use beekeeper.Common.Int.{ℤ, pos, ◌≤ℤ◌, ltb_ℤ, eqb_ℤ}
use beekeeper.Common.Outcome.{Outcome, ok, err, panic, ◌>>=◌, ◌>>◌}
use beekeeper.Common.Dict.{Dict}
use beekeeper.Checks.Topology.{
  KademliaError, Bin, Topology, Topologies, bin_number, is_empty, check_bin, check_bins,
  check_topology, check_group, check_kademlia,
}

-- One element of a loop that stops at the first error, and the elements after it.
pub cons-ok_iff :
    {E : Type 0} {P Q : Type 0} (m k : Outcome E (Unit {0}))
    → (m ≡ ok tt) ↔ P
    → (k ≡ ok tt) ↔ Q
    → (m >> k ≡ ok tt) ↔ (P × Q)
cons-ok_iff (ok tt) k (f, g) (f', g') = ((λ h. (f refl, f' h)), (λ h. g' h.1))
cons-ok_iff (err e) k (f, g) (f', g') = ((λ h. ground arith), (λ h. let q = g h.0 in ground arith))
cons-ok_iff panic k (f, g) (f', g') = ((λ h. ground arith), (λ h. let q = g h.0 in ground arith))

-- Properties that say the same of each element say the same of a list.
pub All-same_iff :
    {A : Type 0} {P Q : A → Type 0} (xs : List A) → ((x : A) → P x ↔ Q x) → All P xs ↔ All Q xs
All-same_iff [] h = ((λ a. a), (λ a. a))
All-same_iff (x ∷ xs) h =
    let (f, g) = h x in
    let (f', g') = All-same_iff xs h in ((λ a. (f a.0, f' a.1)), (λ a. (g a.0, g' a.1)))

module _ {A : Type 0} where
  -- A bin as it should be: its key gives a number, a bin above the depth has a connected peer, and
  -- a bin at the depth or deeper has no disconnected one.
  abbrev pub IsGood : ℤ → List ℕ × Bin A → Type 0
  IsGood depth (key, b) =
      (n : ℤ) × (bin_number key ≡ ok (n, true))
      × (ltb_ℤ n depth ≡ true → pos 1 ≤ℤ b.connected)
      × (depth ≤ℤ n → is_empty b.disconnected_peers ≡ true)

  check_bin-ok_iff :
      (depth : ℤ) (key : List ℕ) (b : Bin A) (r : Outcome KademliaError (ℤ × Bool))
      → (r >>= check_bin depth b ≡ ok tt) ↔ (
          (n : ℤ) × (r ≡ ok (n, true))
          × (ltb_ℤ n depth ≡ true → pos 1 ≤ℤ b.connected)
          × (depth ≤ℤ n → is_empty b.disconnected_peers ≡ true))
  unfolding check_bin
  check_bin-ok_iff depth key b (ok (n, true)) =
      ((λ h. (n, refl, (λ l. ground arith), (λ l. ground arith))), (λ (m, e, f, g). ground arith))
  check_bin-ok_iff depth key b (ok (n, false)) =
      ((λ h. ground arith), (λ (m, e, f, g). ground arith))
  check_bin-ok_iff depth key b (err e) = ((λ h. ground arith), (λ (m, q, f, g). ground arith))
  check_bin-ok_iff depth key b panic = ((λ h. ground arith), (λ (m, q, f, g). ground arith))

  check_bins-ok_iff :
      (depth : ℤ) (bins : List (List ℕ × Bin A))
      → (check_bins depth bins ≡ ok tt) ↔ All (IsGood depth) bins
  unfolding check_bins
  check_bins-ok_iff depth [] = ((λ h. tt), (λ h. refl))
  check_bins-ok_iff depth ((key, b) ∷ bins) =
      cons-ok_iff _ _ (check_bin-ok_iff depth key b (bin_number key)) (check_bins-ok_iff depth bins)

  abbrev pub IsHealthy : String × Topology A → Type 0
  IsHealthy (_, t) = (eqb_ℤ t.depth (pos 0) ≡ false) × All (IsGood t.depth) t.bins

  check_topology-ok_iff :
      (n : String) (t : Topology A) → (check_topology t ≡ ok tt) ↔ IsHealthy (n, t)
  unfolding check_topology
  check_topology-ok_iff n t =
      let (f, g) = check_bins-ok_iff t.depth t.bins in
      ((λ h. (ground arith, f (ground arith))), (λ (z, h). let q = g h in ground arith))

  check_group-ok_iff :
      (group : Dict (Topology A)) → (check_group group ≡ ok tt) ↔ All IsHealthy group
  unfolding check_group
  check_group-ok_iff [] = ((λ h. tt), (λ h. refl))
  check_group-ok_iff ((n, t) ∷ group) =
      cons-ok_iff _ _ (check_topology-ok_iff n t) (check_group-ok_iff group)

  -- The static check passes exactly when every node of every group has a depth other than 0 and
  -- good bins: a numbered key, a connected peer above the depth, no disconnected one from it on.
  pub check_kademlia-ok_iff :
      (topologies : Topologies A)
      → (check_kademlia topologies ≡ ok tt) ↔ All (λ g. All IsHealthy g.1) topologies
  unfolding check_kademlia
  check_kademlia-ok_iff [] = ((λ h. tt), (λ h. refl))
  check_kademlia-ok_iff ((_, group) ∷ topologies) =
      cons-ok_iff _ _ (check_group-ok_iff group) (check_kademlia-ok_iff topologies)
