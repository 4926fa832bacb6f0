-- ===== src/Negotiate/Credits.antt =====
-- What a response grants.
use Prim.Native.Nat.{min, max}
use gosamba.Prelude.{ℕ, ◌≤◌, ◌≡◌, arith}
use gosamba.Negotiate.{grant_credits, credit_window}

-- The grant is the request cut to the window of 512, raised to the charge and to 1: so at least one
-- credit, at least the charge, and above the window only to replace a charge above it.
pub grant_credits-bounds :
    (charge request : ℕ)
    → (grant_credits charge request ≡ max (max 1 charge) (min credit_window request))
      × (1 ≤ grant_credits charge request)
      × (charge ≤ grant_credits charge request)
      × (grant_credits charge request ≤ max credit_window charge)
unfolding grant_credits
grant_credits-bounds charge request = ground arith
