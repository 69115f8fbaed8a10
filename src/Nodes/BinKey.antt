-- ===== src/Nodes/BinKey.antt =====
-- The key of a bin that `ClosestPeer` of pkg/bee/client.go prints is read by the kademlia check of
-- pkg/check/kademlia/kademlia.go.
use beekeeper.Common.{ℕ, zero, suc, ◌<◌, ◌≡◌, refl, Bool, true, false, ◌&&◌, arith}
use beekeeper.Common.Int.{ℤ, pos, eqb_ℤ, eqb_ℤ_iff}
use beekeeper.Common.Outcome.{Outcome, ok, err, panic}
use beekeeper.Checks.Topology.{KademliaError, bin_number}
use beekeeper.Nodes.FullNode.{bin_key}

is_read : Outcome KademliaError (ℤ × Bool) → ℕ → Bool
is_read (ok (n, parsed)) b = eqb_ℤ n (pos b) && parsed
is_read _ b = false

is_read-ok :
    (r : Outcome KademliaError (ℤ × Bool)) (b : ℕ) → is_read r b ≡ true → r ≡ ok (pos b, true)
unfolding is_read
is_read-ok (ok (n, parsed)) b h = ground (arith, eqb_ℤ_iff n (pos b))
is_read-ok (err x) b h = cc
is_read-ok panic b h = cc

-- Every number below the bound passes the test.
holds_below : (ℕ → Bool) → ℕ → Bool
holds_below test zero = true
holds_below test (suc b) = test b && holds_below test b

holds_below_sound : (test : ℕ → Bool) (n b : ℕ) → holds_below test n ≡ true → b < n → test b ≡ true
unfolding holds_below
holds_below_sound test zero b h lt = absurd (omega arith)
holds_below_sound test (suc n) b h lt = ground (arith, holds_below_sound test n b)

reads : ℕ → Bool
unfolding is_read bin_number bin_key
reads b = is_read (bin_number (bin_key b)) b

reads_256 : holds_below reads 256 ≡ true
unfolding holds_below reads
reads_256 = refl

-- The kademlia check reads the number of every uint8 from the key that ClosestPeer prints of it.
pub bin_number-bin_key : (b : ℕ) → b < 256 → bin_number (bin_key b) ≡ ok (pos b, true)
unfolding reads
bin_number-bin_key b lt =
    is_read-ok (bin_number (bin_key b)) b (holds_below_sound reads 256 b reads_256 lt)
