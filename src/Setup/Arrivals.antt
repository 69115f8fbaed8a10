-- ===== src/Setup/Arrivals.antt =====
-- The loop over the results of goroutines (cmd/beekeeper/cmd/cluster.go), and lists in several orders.
use beekeeper.Common.{
  ◌≡◌, refl, inl, inr, none, some, List, [], ◌∷◌, ◌++◌, arith, String, In, length, ◌∙◌, ap,
}
use mathlib.Core.List.{Permᴰ}
use beekeeper.Common.Outcome.{ok, err, panic}
use beekeeper.Setup.Launch.{SetupError}
use beekeeper.Setup.Results.{NodeResult, receive, add_address}

pub In-Permᴰ : {A : Type 0} {xs ys : List A} (a : A) → Permᴰ xs ys → In a xs → In a ys
In-Permᴰ a Permᴰ.nil i = i
In-Permᴰ a (Permᴰ.cons e p) (inl q) = inl (q ∙ e)
In-Permᴰ a (Permᴰ.cons e p) (inr i) = inr (In-Permᴰ a p i)
In-Permᴰ a (Permᴰ.swap e f) (inl q) = inr (inl (q ∙ e))
In-Permᴰ a (Permᴰ.swap e f) (inr (inl q)) = inl (q ∙ f)
In-Permᴰ a (Permᴰ.swap e f) (inr (inr i)) = inr (inr i)
In-Permᴰ a (Permᴰ.trans p q) i = In-Permᴰ a q (In-Permᴰ a p i)

pub In-split :
    {A : Type 0} (a : A) (xs : List A)
    → In a xs
    → (before : List A) × (after : List A) × (xs ≡ before ++ a ∷ after)
In-split a [] i = absurd i
In-split a (x ∷ xs) (inl e) = ([], xs, rw e refl)
In-split a (x ∷ xs) (inr i) =
    let (before, after, e) = In-split a xs i in (x ∷ before, after, ap (λ l. x ∷ l) e)

pub length-Permᴰ : {A : Type 0} {xs ys : List A} → Permᴰ xs ys → length xs ≡ length ys
length-Permᴰ Permᴰ.nil = refl
length-Permᴰ (Permᴰ.cons e p) = omega (arith, length-Permᴰ p)
length-Permᴰ (Permᴰ.swap e f) = refl
length-Permᴰ (Permᴰ.trans p q) = length-Permᴰ p ∙ length-Permᴰ q

-- The results up to one, and that one.
pub receive-append :
    (found : List String) (arrived : List NodeResult) (r : NodeResult) (before : List String)
    → receive before arrived ≡ ok found
    → receive before (arrived ++ r ∷ []) ≡ receive found (r ∷ [])
unfolding receive
receive-append found [] r before h = let same : before ≡ found = cc in rw same refl
receive-append found ((name, none) ∷ arrived) r before h = cc
receive-append found ((name, some a) ∷ arrived) r before h =
    receive-append found arrived r (add_address before a) h

-- An error comes from a result that failed.
pub receive-err :
    (arrived : List NodeResult) (before : List String) (e : SetupError)
    → receive before arrived ≡ err e
    → (name : String) × In (name, none) arrived
unfolding receive
receive-err [] before e h = cc
receive-err ((name, none) ∷ arrived) before e h = (name, inl refl)
receive-err ((name, some a) ∷ arrived) before e h =
    let (n, i) = receive-err arrived (add_address before a) e h in (n, inr i)

pub receive-ne-panic :
    (arrived : List NodeResult) (before : List String) → receive before arrived ≡ panic → ⊥
unfolding receive
receive-ne-panic [] before h = cc
receive-ne-panic ((name, none) ∷ arrived) before h = cc
receive-ne-panic ((name, some a) ∷ arrived) before h =
    receive-ne-panic arrived (add_address before a) h
