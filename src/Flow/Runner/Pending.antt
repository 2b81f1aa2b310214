-- ===== src/Flow/Runner/Pending.antt =====
-- flow/runner.go: a walk that ends without an error has no caught failure left.
use mivia_ai_sdk.Base.{◌≡◌, List, [], Option, none, some}
use mivia_ai_sdk.Flow.Step.{Step}
use mivia_ai_sdk.Flow.Execution.{RunError}
use mivia_ai_sdk.Flow.Runner.{Walk}
use mivia_ai_sdk.Flow.Runner.Final.{IsOrdered}
use mivia_ai_sdk.Flow.Runner.Ends.{IsTracked}
use mivia_ai_sdk.Flow.Runner.Caught.{AreCaught}
use mivia_ai_sdk.Flow.Runner.Settled.{Caught}

-- A walk at which its theorems can start: the outcomes are of steps, what ran was ready, and each
-- caught failure has a fallback left, all of them without an outcome.
pub record IsWalk {E R : Type 0} (steps : List Step) (w : Walk E R) : Type 0 where
  pub tracked : IsTracked steps w.outcomes
  pub ordered : IsOrdered steps w.outcomes
  pub caught : AreCaught steps w.outcomes w.pending

module _ {E R : Type 0} where
  -- The end of a walk: with an error, or with nothing pending.
  abbrev Settles : Option (Walk E R × Option (RunError E)) → Type 0
  Settles o = (end : Walk E R) → o ≡ some (end, none) → end.pending ≡ []
