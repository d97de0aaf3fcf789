-- ===== src/SopReach/Sandbox/Steps/Run.antt =====
-- A run of the scheduler: any calls of its methods, in any order.
use leads_engine.Base.{Bool, String, List, [], ◌∷◌, ◌++◌}
use leads_engine.SopReach.Sandbox.{Reach, Callback, FixtureMessage, Sandbox}
use leads_engine.SopReach.Sandbox.Steps.{Source, Step, Server}
use leads_engine.SopReach.Sandbox.Steps.Chain.{remind_step, draft_step, confirm_step}
use leads_engine.SopReach.Sandbox.Steps.Automatic.{allow_step, queue_step, release_step}
use leads_engine.SopReach.Sandbox.Steps.Callbacks.{callback_step}

pub data Request : Type 0 where
  ask_automatic : Bool → Request
  ask_remind ask_draft ask_confirm ask_queue : Reach → Request
  ask_release : String → Reach → Request
  ask_callback : Callback → Request

unfoldable pub step : Sandbox → Server → Request → Step
step s server (ask_automatic on) = allow_step s on
step s server (ask_remind r) = remind_step s r
step s server (ask_draft r) = draft_step s r
step s server (ask_confirm r) = confirm_step s server r
step s server (ask_queue r) = queue_step s r
step s server (ask_release id now) = release_step s server id now
step s server (ask_callback c) = callback_step s c

-- Each call comes with what the server would answer at that time.
unfoldable pub run : Sandbox → List (Request × Server) → Sandbox
run s [] = s
run s ((req, server) ∷ rest) = run (step s server req).state rest

unfoldable pub posts_of : Sandbox → List (Request × Server) → List (Source × FixtureMessage)
posts_of s [] = []
posts_of s ((req, server) ∷ rest) =
    (step s server req).posts ++ posts_of (step s server req).state rest
