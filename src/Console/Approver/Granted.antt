-- ===== src/Console/Approver/Granted.antt =====
-- The console's answers to the questions of one attempt.
use simple_remote.Base.{◌≡◌, ◌⊎◌, Bool, Option, none, some, List, [], ◌∷◌}
use simple_remote.Base.Text.{Str}
use simple_remote.Protocol.{Instant}
use simple_remote.Protocol.Control.{Control}
use simple_remote.Transport.Channel.{Channel}
use simple_remote.Host.Session.Approval.Agreed.{Agreed}
use simple_remote.Console.Approver.{Approver, Round, answer}
use simple_remote.Console.Approver.Fresh.{Says}

-- A call of `answer`: the clock, and what the thread gives
abbrev pub Asking : Type 0
Asking = Instant × List Round

-- What the calls of one attempt give
abbrev pub answers_of : Str → Str → List Asking → Approver → List (Option Bool)
answers_of name shown [] a = []
answers_of name shown ((now, rounds) ∷ more) a =
    let ((reply, a'), rest) = answer name shown now rounds a in
    reply ∷ answers_of name shown more a'

-- In one of the calls the line `y` came, and it was read at this time or later.
abbrev pub SomeSays : Instant → List Asking → Type 0
SomeSays since [] = ⊥
SomeSays since ((now, rounds) ∷ more) = Says since rounds ⊎ SomeSays since more

-- The time from which a line counts
abbrev pub Since : Approver → Instant → Instant → Type 0
Since a now since = (a.asked_at ≡ some since) ⊎ ((a.asked_at ≡ none) × (since ≡ now))
