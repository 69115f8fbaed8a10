-- ===== src/Nuker/Attempts.antt =====
-- What the attempts of a change in pkg/nuker/nuker.go leave of a stateful set.
use beekeeper.Common.{ℕ, zero, suc, ◌≡◌, refl, ◌⊎◌, inl, inr, Bool, true, false, Option, none, some}
use beekeeper.Common.Outcome.{Outcome, ok, err, panic}
use beekeeper.Nuker.Update.{
  StatefulSet, NukeError, Kube, Update, updated, conflicts, fails, bee_container_index, modify,
}

module _ {Probe Settings : Type 0} where
  module _ (kube : Kube)
      (change : ℕ → StatefulSet Probe Settings → StatefulSet Probe Settings) where
    abbrev pub Changed : StatefulSet Probe Settings → StatefulSet Probe Settings → Type 0
    Changed held after =
        (bee_idx : ℕ) × (bee_container_index held.containers ≡ some bee_idx)
        × (after ≡ change bee_idx held)

    unfoldable pub Step :
        StatefulSet Probe Settings
        → Outcome NukeError (Unit {0}) × ℕ × StatefulSet Probe Settings
        → Type 0
    Step held (ok u, i, after) = Changed held after
    Step held (err e, i, after) = after ≡ held
    Step held (panic, i, after) = after ≡ held

    -- An attempt succeeds with the change made, or leaves the set as it was.
    pub modify-Step :
        (attempts i : ℕ) (held : StatefulSet Probe Settings)
        → Step held (modify kube change attempts i held)
    unfolding modify Step
    modify-Step zero i held = refl
    modify-Step (suc attempts) i held =
        attempt (kube.gets i) refl (bee_container_index held.containers) refl (kube.updates i) refl
          (modify-Step attempts (suc i) held)
      where
        attempt :
            (g : Bool)
            → kube.gets i ≡ g
            → (o : Option ℕ) → bee_container_index held.containers ≡ o
            → (u : Update) → kube.updates i ≡ u
            → Step held (modify kube change attempts (suc i) held)
            → Step held (modify kube change (suc attempts) i held)
        attempt false e o f u h rest = rw (modify, e) refl
        attempt true e none f u h rest = rw (modify, e, f) refl
        attempt true e (some bee_idx) f updated h rest = rw (modify, e, f, h) (bee_idx, f, refl)
        attempt true e (some bee_idx) f conflicts h rest = rw (modify, e, f, h) rest
        attempt true e (some bee_idx) f fails h rest = rw (modify, e, f, h) refl

    pub modify-Changed :
        (r : Outcome NukeError (Unit {0}) × ℕ × StatefulSet Probe Settings)
        (held : StatefulSet Probe Settings)
        → Step held r
        → r.0 ≡ ok tt
        → Changed held r.2
    unfolding Step
    modify-Changed (ok u, i, after) held s h = s
    modify-Changed (err e, i, after) held s h = cc
    modify-Changed (panic, i, after) held s h = cc

    pub modify_either :
        (r : Outcome NukeError (Unit {0}) × ℕ × StatefulSet Probe Settings)
        (held : StatefulSet Probe Settings)
        → Step held r
        → (r.2 ≡ held) ⊎ Changed held r.2
    unfolding Step
    modify_either (ok u, i, after) held s = inr s
    modify_either (err e, i, after) held s = inl s
    modify_either (panic, i, after) held s = inl s
