-- ===== src/Strings/Tokenize/Tests.antt =====
-- An option of the log: a level, and the names of its sinks.
use warhead_fix.Base.{◌≡◌, refl, true, false, [], ◌∷◌, arith}
use warhead_fix.Base.Texts.{codes, All}
use warhead_fix.Strings.Tokenize.{find_first, shifted, find, substr, tokens_from, tokenize}
use warhead_fix.Strings.Tokenize.Pieces.{kept, joined}
use warhead_fix.Strings.Tokenize.RoundTrip.{Lacks, joined-tokenize, tokenize-joined}

names : tokenize (codes " Console  Server ") b' ' false ≡ codes "Console" ∷ codes "Server" ∷ []
unfolding tokenize tokens_from find find_first shifted substr
names = refl

empty_text : (tokenize [] b',' true ≡ [] ∷ []) × (tokenize [] b',' false ≡ [])
unfolding tokenize tokens_from find find_first shifted substr
empty_text = (refl, refl)

joined_option :
    (joined b',' (tokenize (codes "4,,Server,") b',' true) ≡ codes "4,,Server,")
    × All (Lacks b',') (tokenize (codes "4,,Server,") b',' true)
joined_option = joined-tokenize b',' (codes "4,,Server,")

tokenize-joined_example :
    tokenize (joined b',' (codes "4" ∷ [] ∷ codes "S" ∷ [])) b',' false
    ≡ kept false (codes "4" ∷ [] ∷ codes "S" ∷ [])
unfolding Lacks
tokenize-joined_example =
    tokenize-joined b',' false (codes "4") ([] ∷ codes "S" ∷ [])
      ((λ e. absurd (omega (arith, e)), tt), (tt, ((λ e. absurd (omega (arith, e)), tt), tt)))
