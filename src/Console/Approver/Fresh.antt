-- ===== src/Console/Approver/Fresh.antt =====
-- An answer belongs to the question on the screen.
use simple_remote.Base.{
  ◌≤◌, ◌≡◌, ◌⊎◌, inl, inr, refl, Bool, true, false, Option, none, some, List, [], ◌∷◌, arith, codes,
  ltb, bytes_eq_sound, Bool-cases, Option-cases, ap, sym, ◌∙◌, if◌then◌else◌,
}
use simple_remote.Base.Text.{Str}
use simple_remote.Protocol.{Instant}
use simple_remote.Console.Approver.{
  Approver, Round, Try, got, empty, disconnected, trim, is_yes, answer_loop, show_question, answer,
}

-- Among the rounds is one that brings the line `y`, read at this time or later.
abbrev pub Says : Instant → List Round → Type 0
Says since [] = ⊥
Says since (r ∷ rounds) =
    ((at : Instant) × (line : Str) × (r.try_recv ≡ got at (some line))
      × (trim line ≡ codes "y")
      × (since ≤ at))
    ⊎ Says since rounds

is_yes_sound :
    (o : Option Str) → is_yes o ≡ true → (line : Str) × (o ≡ some line) × (trim line ≡ codes "y")
unfolding is_yes
is_yes_sound none e = absurd (ground arith)
is_yes_sound (some l) e = (l, refl, bytes_eq_sound (trim l) (codes "y") e)

-- The answer once the thread has been asked
abbrev reply_to : Instant → List Round → Bool → Try → Option Bool
reply_to since rounds reading (got at line) =
    if ltb at since then (answer_loop since false rounds).0.0 else some (is_yes line)
reply_to since rounds reading empty = none
reply_to since rounds reading disconnected = some false

module _ (since : Instant) (rounds : List Round)
    (rest : (answer_loop since false rounds).0.0 ≡ some true → Says since rounds) where
  reply_to-Says :
      (reading : Bool) (t : Try)
      → reply_to since rounds reading t ≡ some true
      → ((at : Instant) × (line : Str) × (t ≡ got at (some line))
          × (trim line ≡ codes "y")
          × (since ≤ at))
        ⊎ Says since rounds
  reply_to-Says reading empty e = absurd (ground arith)
  reply_to-Says reading disconnected e = absurd (ground arith)
  reply_to-Says reading (got at line) e = elim (Bool-cases (ltb at since)) [
    | inl late ↦ inr (rest (ground arith))
    | inr now ↦
        let (l, same, y) = is_yes_sound line (ground arith) in
        inl (at, l, ap (got at) same, y, ground arith)
  ]

loop_reply :
    (since : Instant) (reading : Bool) (rounds : List Round) (r : Round) (t : Try)
    → r.try_recv ≡ t
    → (if reading then false else r.ask_fails) ≡ false
    → (answer_loop since reading (r ∷ rounds)).0.0 ≡ reply_to since rounds reading t
unfolding answer_loop
loop_reply since reading rounds r empty e asked = rw (asked, e) refl
loop_reply since reading rounds r disconnected e asked = rw (asked, e) refl
loop_reply since reading rounds r (got at line) e asked = elim (Bool-cases (ltb at since)) [
  | inl late ↦ rw (asked, e, late) refl
  | inr now ↦ rw (asked, e, now) refl
]

answer_loop-Says :
    (since : Instant) (reading : Bool) (rounds : List Round)
    → (answer_loop since reading rounds).0.0 ≡ some true
    → Says since rounds
unfolding answer_loop
answer_loop-Says since reading [] e = absurd (ground arith)
answer_loop-Says since reading (r ∷ rounds) e =
    elim (Bool-cases (if reading then false else r.ask_fails)) [
      | inl failed ↦ absurd (ground arith)
      | inr asked ↦
          reply_to-Says since rounds (answer_loop-Says since false rounds) reading r.try_recv
            (sym (loop_reply since reading rounds r r.try_recv refl asked) ∙ e)
    ]

-- When a question gets the answer yes, some round brought the line `y`, and that line was read when
-- the question stood on the screen: at or after the time at which it was first shown, which is the
-- time kept for it, or the present for a new question. That time stays with the question.
pub answer-Says :
    (name shown : Str) (now : Instant) (rounds : List Round) (a : Approver)
    → (answer name shown now rounds a).0.0 ≡ some true
    → (since : Instant) × ((a.asked_at ≡ some since) ⊎ ((a.asked_at ≡ none) × (since ≡ now)))
      × Says since rounds
      × ((answer name shown now rounds a).0.1.asked_at ≡ some since)
unfolding answer show_question
answer-Says name shown now rounds a e = elim (Option-cases a.asked_at) [
  | inl new ↦
      (now, inr (new, refl), answer_loop-Says now a.reading rounds (ground arith), ground arith)
  | inr (t, old) ↦ (t, inl old, answer_loop-Says t a.reading rounds (ground arith), ground arith)
]
