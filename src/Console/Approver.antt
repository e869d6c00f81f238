-- ===== src/Console/Approver.antt =====
-- apps/host-agent/src/main.rs: `Approver`, which asks on the console and never blocks. The thread that
-- reads lines is the list of what `ask.send` and `try_recv` give, one entry for each round of the
-- loop; after the list the thread waits for a line.
pub mod Fresh
pub mod Granted
use simple_remote.Base.{
  ℕ, Bool, true, false, Option, none, some, List, [], ◌∷◌, ◌++◌, ltb, bytes_eq, codes,
  if◌then◌else◌,
}
use simple_remote.Base.Text.{Str, is_whitespace}
use simple_remote.Protocol.{Instant}

-- `str::trim`
unfoldable pub trim_start : Str → Str
trim_start [] = []
trim_start (c ∷ s) = elim (is_whitespace c) [ true ↦ trim_start s | false ↦ c ∷ s ]

unfoldable pub trim_end : Str → Str
trim_end [] = []
trim_end (c ∷ s) = elim (trim_end s) [
  | [] ↦ if is_whitespace c then [] else c ∷ []
  | d ∷ r ↦ c ∷ d ∷ r
]

unfoldable pub trim : Str → Str
trim s = trim_end (trim_start s)

pub data Try : Type 0 where
  got : Instant → Option Str → Try
  empty disconnected : Try

-- `ask_fails` counts only where the loop asks the thread for a line.
pub record Round : Type 0 where
  pub ask_fails : Bool
  pub try_recv : Try

pub record Approver : Type 0 where
  pub reading : Bool
  pub asked_at : Option Instant
  -- what was printed, newest first
  pub said : List Str

-- `Approver::spawn`
unfoldable pub spawn : Approver
spawn = record { reading = false; asked_at = none; said = [] }

-- `line.is_some_and(|l| l.trim() == "y")`
unfoldable pub is_yes : Option Str → Bool
is_yes none = false
is_yes (some l) = bytes_eq (trim l) (codes "y")

-- The loop of `answer`: the answer, whether the thread is still reading, and the rounds left over.
unfoldable pub answer_loop : Instant → Bool → List Round → (Option Bool × Bool) × List Round
answer_loop asked_at reading [] = ((none, true), [])
answer_loop asked_at reading (r ∷ rounds) =
    let again = answer_loop asked_at false rounds in
    if (if reading then false else r.ask_fails)
    then ((some false, reading), rounds)
    else elim r.try_recv [
      | got at line ↦ if ltb at asked_at then again else ((some (is_yes line), false), rounds)
      | empty ↦ ((none, true), rounds)
      | disconnected ↦ ((some false, true), rounds)
    ]

-- The line of the question
unfoldable pub question_line : Str → Str → Str
question_line name shown = codes "APPROVE? " ++ (name ++ (codes " " ++ (shown ++ codes " [y/N]")))

-- `asked_at.get_or_insert_with(..)`; `now` is what the clock gives if it is read.
unfoldable pub show_question : Str → Str → Instant → Approver → Instant × Approver
show_question name shown now a = elim a.asked_at [
  | some t ↦ (t, a)
  | none ↦ (now, record a { asked_at = some now; said = question_line name shown ∷ a.said })
]

unfoldable pub answer :
    Str → Str → Instant → List Round → Approver → (Option Bool × Approver) × List Round
answer name shown now rounds a =
    let (asked_at, a') = show_question name shown now a in
    let ((reply, reading), rest) = answer_loop asked_at a.reading rounds in
    ((reply, record a' { reading = reading }), rest)

unfoldable pub end_question : Approver → Approver
end_question a = record a { asked_at = none }
