-- ===== src/Nuker/Rollback.antt =====
-- The rollback of pkg/nuker/nuker.go puts a stateful set back, but for the command and the image of
-- its bee container.
use beekeeper.Common.{
  ℕ, zero, suc, ◌≡◌, refl, ◌⊎◌, inl, inr, false, Option, none, some, List, [], ◌∷◌, if◌then◌else◌,
  String, str_eq, eq_iff, All, sym, ◌∙◌, ap,
}
use beekeeper.Common.Outcome.{Outcome, ok, err, panic}
use beekeeper.Common.Dict.{Dict, lookup, insert, lookup-insert}
use beekeeper.Nuker.Attempts.{Changed, modify-Step, modify-Changed, modify_either}
use beekeeper.Nuker.Update.{
  Container, StatefulSet, NukeError, Kube, bee_container_index, assign, remove_probes, probes_of,
  put_probes, restore_readiness_probes, for_update, for_rollback, modify, update_phase, run_pods,
  update_and_rollback,
}

module _ {Probe Settings : Type 0} where
  -- No two containers have one name.
  abbrev pub AreNamed : List (Container Probe Settings) → Type 0
  AreNamed [] = Unit
  AreNamed (c ∷ cs) =
      All (λ (d : Container Probe Settings). str_eq d.name c.name ≡ false) cs × AreNamed cs

  probes_of_stays :
      (n : String) (probes : Dict (Option Probe)) (cs : List (Container Probe Settings))
      → All (λ (d : Container Probe Settings). str_eq d.name n ≡ false) cs
      → lookup n (probes_of probes cs) ≡ lookup n probes
  unfolding probes_of
  probes_of_stays n probes [] h = refl
  probes_of_stays n probes (c ∷ cs) h =
      probes_of_stays n (insert c.name c.readiness_probe probes) cs h.1
      ∙ rw (lookup-insert c.name n c.readiness_probe probes, h.0) refl

  HasProbe : Dict (Option Probe) → Container Probe Settings → Type 0
  HasProbe probes c = lookup c.name probes ≡ some c.readiness_probe

  probes_of-HasProbe :
      (probes : Dict (Option Probe)) (cs : List (Container Probe Settings))
      → AreNamed cs
      → All (HasProbe (probes_of probes cs)) cs
  unfolding probes_of HasProbe
  probes_of-HasProbe probes [] h = tt
  probes_of-HasProbe probes (c ∷ cs) h = (
    probes_of_stays c.name (insert c.name c.readiness_probe probes) cs h.0
        ∙ rw (lookup-insert c.name c.name c.readiness_probe probes, (eq_iff c.name c.name).1 refl)
            refl,
    probes_of-HasProbe (insert c.name c.readiness_probe probes) cs h.1,
  )

  put_probes_id :
      (probes : Dict (Option Probe)) (cs : List (Container Probe Settings))
      → All (HasProbe probes) cs
      → (put_probes probes cs ≡ cs) × (put_probes probes (remove_probes cs) ≡ cs)
  unfolding put_probes remove_probes HasProbe
  put_probes_id probes [] h = (refl, refl)
  put_probes_id probes (c ∷ cs) h =
      let (f, g) = put_probes_id probes cs h.1 in
      (rw (put_probes, h.0, f) refl, rw (put_probes, h.0, g) refl)

  module _ (update_args restart_args : List String) (image : String) where
    with_command : List String → Container Probe Settings → Container Probe Settings
    with_command args c = record c { command = args }

    with_image : Container Probe Settings → Container Probe Settings
    with_image c = record c { image = (if str_eq image "" then c.image else image) }

    -- The bee container as it should be afterwards.
    abbrev pub restarted : Container Probe Settings → Container Probe Settings
    restarted c = record c {
      command = restart_args;
      image = (if str_eq image "" then c.image else image);
    }

    containers_back :
        (probes : Dict (Option Probe)) (i : ℕ) (cs : List (Container Probe Settings))
        → All (HasProbe probes) cs
        → (assign i with_image (put_probes probes (assign i (with_command restart_args) cs))
            ≡ assign i restarted cs)
          × (assign i with_image (
                put_probes probes (
                  assign i
                    (with_command restart_args)
                    (remove_probes (assign i (with_command update_args) cs))))
              ≡ assign i restarted cs)
    unfolding assign put_probes remove_probes HasProbe with_command with_image
    containers_back probes i [] h = (refl, refl)
    containers_back probes zero (c ∷ cs) h =
        let (f, g) = put_probes_id probes cs h.1 in
        (rw (put_probes, h.0, f) refl, rw (put_probes, h.0, g) refl)
    containers_back probes (suc i) (c ∷ cs) h =
        let (f, g) = containers_back probes i cs h.1 in
        (rw (put_probes, h.0, f) refl, rw (put_probes, h.0, g) refl)

    index_kept :
        (i : ℕ) (cs : List (Container Probe Settings))
        → bee_container_index (remove_probes (assign i (with_command update_args) cs))
          ≡ bee_container_index cs
    unfolding bee_container_index remove_probes assign with_command
    index_kept i [] = refl
    index_kept zero (c ∷ cs) = rw (removed cs) refl
      where
        removed :
            (ds : List (Container Probe Settings))
            → bee_container_index (remove_probes ds) ≡ bee_container_index ds
        removed [] = refl
        removed (d ∷ ds) = rw (removed ds) refl
    index_kept (suc i) (c ∷ cs) = rw (index_kept i cs) refl

  module _ (kube : Kube) (attempts : ℕ) (update_args restart_args : List String) (image : String)
      (ss : StatefulSet Probe Settings) where
    -- The set as it was, but for the command and the image of the bee container.
    abbrev pub put_back : ℕ → StatefulSet Probe Settings
    put_back i = record ss {
      containers = assign i (restarted update_args restart_args image) ss.containers;
    }

    run_pods_set :
        (m : Outcome NukeError (Unit {0}) × ℕ × StatefulSet Probe Settings)
        → (run_pods kube m).2 ≡ m.2
    unfolding run_pods
    run_pods_set (ok u, i, held) = refl
    run_pods_set (err e, i, held) = refl
    run_pods_set (panic, i, held) = refl

    update_phase-Changed :
        ((update_phase kube attempts update_args ss).2 ≡ ss)
        ⊎ Changed kube (for_update update_args) ss (update_phase kube attempts update_args ss).2
    unfolding update_phase
    update_phase-Changed =
        let m = modify kube (for_update update_args) attempts 0 ss in
        rw (run_pods_set m) (
          modify_either kube (for_update update_args) m ss
            (modify-Step kube (for_update update_args) attempts 0 ss))

    for_rollback-put_back :
        (held : StatefulSet Probe Settings) (i : ℕ)
        → AreNamed ss.containers
        → (held ≡ ss) ⊎ Changed kube (for_update update_args) ss held
        → bee_container_index held.containers ≡ some i
        → (for_rollback ss restart_args image i held ≡ put_back i)
          × (bee_container_index ss.containers ≡ some i)
    unfolding for_rollback for_update restore_readiness_probes with_command with_image
    for_rollback-put_back held i named (inl e) x =
        let x' = rw e at x in
        (
          rw e (
              rw
                ((containers_back update_args restart_args image (probes_of [] ss.containers) i
                  ss.containers (probes_of-HasProbe [] ss.containers named)).0)
                refl),
          x',
        )
    for_rollback-put_back held i named (inr (j, y, e)) x =
        let x' = rw e at x in
        let same : i ≡ j =
          numbers (sym x' ∙ index_kept update_args restart_args image j ss.containers ∙ y) in
        (
          rw (e, same)
              (rw
                ((containers_back update_args restart_args image (probes_of [] ss.containers) j
                  ss.containers (probes_of-HasProbe [] ss.containers named)).1)
                refl),
          rw same y,
        )
      where
        numbers : {a b : ℕ} → some a ≡ some b → a ≡ b
        numbers q = cc

    after_some :
        {A : Type 0} {b c : Option ℕ} (r s t : A) (i n : ℕ)
        → b ≡ some i
        → c ≡ some n
        → elim b as (λ _. A) [ none ↦ r | some _ ↦ elim c as (λ _. A) [ none ↦ s | some _ ↦ t ] ]
          ≡ t
    after_some r s t i n x y = rw (x, y) refl

    update_and_rollback_after :
        (i n : ℕ)
        → bee_container_index ss.containers ≡ some i
        → ss.replicas ≡ some n
        → (update_and_rollback kube attempts update_args restart_args image ss ss).1 ≡ (
            let (r, j, held) = update_phase kube attempts update_args ss in
            (modify kube (for_rollback ss restart_args image) attempts j held).2)
    unfolding update_and_rollback
    update_and_rollback_after i n x y =
        ap (λ (q : Outcome NukeError (Unit {0}) × StatefulSet Probe Settings). q.1)
          (after_some _ _ _ i n x y)

    -- When the cluster holds the stateful set as it was read, its containers have different names,
    -- it has a number of replicas, and the update of the rollback goes through, the set has a bee
    -- container and ends up as it was but for the command and the image of the first such container,
    -- whatever the update phase ended in.
    pub update_and_rollback-put_back :
        AreNamed ss.containers
        → ((n : ℕ) × (ss.replicas ≡ some n))
        → (let (r, i, held) = update_phase kube attempts update_args ss in
            (modify kube (for_rollback ss restart_args image) attempts i held).0 ≡ ok tt)
        → (i : ℕ) × (bee_container_index ss.containers ≡ some i)
          × ((update_and_rollback kube attempts update_args restart_args image ss ss).1
              ≡ put_back i)
    unfolding update_and_rollback
    update_and_rollback-put_back named (n, rep) h =
        let (r, j, held) = update_phase kube attempts update_args ss in
        let (i, x, e) =
          modify-Changed kube (for_rollback ss restart_args image)
            (modify kube (for_rollback ss restart_args image) attempts j held) held
            (modify-Step kube (for_rollback ss restart_args image) attempts j held) h in
        let (back, y) = for_rollback-put_back held i named update_phase-Changed x in
        (i, y, update_and_rollback_after i n y rep ∙ (rw e back))
