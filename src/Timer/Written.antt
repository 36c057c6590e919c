-- ===== src/Timer/Written.antt =====
-- `ToTimeString` of common/Utilities/Timer.cpp writes the words of Words, in their order.
use warhead_fix.Base.{ℕ, ◌^◌, ◌<◌, ◌≡◌, false, Option, some, List, [], ◌∷◌, ◌++◌}
use warhead_fix.Base.Options
use warhead_fix.Strings.Trim.{is_space}
use warhead_fix.Timer.Text.{TextFormat}
use warhead_fix.Timer.Units.{Units}
use warhead_fix.Timer.Words.{Word, name_of, spaced}

record EndsIn (text : List ℕ) : Type 0 where
  front : List ℕ
  last : ℕ
  split : text ≡ front ++ last ∷ []
  other : is_space last ≡ false

record IsNamed (format : TextFormat) (w : Word) : Type 0 where
  small : w.number < 2 ^ 32
  named : EndsIn (name_of format w)

abbrev AllNamed : TextFormat → List Word → Type 0
AllNamed format [] = Unit
AllNamed format (w ∷ ws) = IsNamed format w × AllNamed format ws

-- The parts that the code writes are the words, with a space behind the last.
data Leads (format : TextFormat) (ws : List Word) (parts : Option (List ℕ)) : Type 0 where
  none_left : ws ≡ [] → parts ≡ some [] → Leads format ws parts
  some_left :
      (v : Word) (vs : List Word) (text : List ℕ)
      → ws ≡ v ∷ vs
      → spaced format (v ∷ vs) ≡ some text
      → EndsIn text
      → parts ≡ some (text ++ b' ' ∷ [])
      → Leads format ws parts
