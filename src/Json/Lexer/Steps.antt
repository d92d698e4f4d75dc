-- ===== src/Json/Lexer/Steps.antt =====
-- One step of the lexer, and how a run of characters is taken.
use Prim.Native.Char.{Char, code}
use text.Mathlib.TextLemmas.{nil-append, cons-append, append_assoc, append-nil}
use mathlib.Core.Bool.{and-eq-true_iff}
use beckn_data_commons.Base.{
  ℕ, String, Bool, true, Option, none, some, List, [], ◌∷◌, ◌++◌, ◌≡◌, refl, ◌∙◌, ap, ◌>>=◌,
}
use beckn_data_commons.Js.{Number}
use beckn_data_commons.Js.Text.{◌<>◌, all_chars}
use beckn_data_commons.Json.Print.{Token}
use beckn_data_commons.Json.Lexer.{
  Mode, between, Step, moved, one, from_between, with_first, closed_by, step, lex,
}

bind-some {ℓ} : {A : Type ℓ} (o : Option A) → o >>= some ≡ o
bind-some none = refl
bind-some (some a) = refl

abbrev pub prepend : Token → Option (List Token) → Option (List Token)
prepend t o = o >>= λ more. some (t ∷ more)

push_assoc : (s : String) (c : Char) (t : String) → (s <> one c) <> t ≡ s <> String.◌∷◌ c t
push_assoc s c t = simp (append_assoc, cons-append, nil-append)

module _ (other : String → Number) where
  pub lex-moved :
      (m next : Mode) (c : Char) (s : String)
      → step other m c ≡ moved next
      → lex other m (String.◌∷◌ c s) ≡ lex other next s
  unfolding lex
  lex-moved m next c s e = rw e (bind-some (lex other next s))

  pub lex-token :
      (m next : Mode) (c : Char) (s : String) (t : Token)
      → step other m c ≡ some (t ∷ [], next)
      → lex other m (String.◌∷◌ c s) ≡ prepend t (lex other next s)
  unfolding lex
  lex-token m next c s t e = rw e refl

  -- A mode that collects characters of a kind takes a run of them.
  pub lex-run :
      (mode : String → Mode) (p : ℕ → Bool)
      → ((s : String) (c : Char)
          → p (code c) ≡ true
          → step other (mode s) c ≡ moved (mode (s <> one c)))
      → (s t rest : String) → all_chars p t ≡ true
      → lex other (mode s) (t <> rest) ≡ lex other (mode (s <> t)) rest
  unfolding all_chars
  lex-run mode p takes s String.[] rest h = rw (nil-append, append-nil) refl
  lex-run mode p takes s (String.◌∷◌ c t) rest h =
      let (here, later) = (and-eq-true_iff _ _).0 h in
      rw cons-append (
        lex-moved (mode s) (mode (s <> one c)) c (t <> rest) (takes s c here)
        ∙ lex-run mode p takes (s <> one c) t rest later
        ∙ ap (λ u. lex other (mode u) rest) (push_assoc s c t))

  -- What ends a word or a number is read as if nothing had been open.
  pub lex-closed :
      (m : Mode) (t : Token) (c : Char) (s : String)
      → step other m c ≡ closed_by (some t) (code c) c
      → lex other m (String.◌∷◌ c s) ≡ prepend t (lex other between (String.◌∷◌ c s))
  unfolding lex step
  lex-closed m t c s e = rw e (both_ways (from_between (code c) c))
    where
      follow : List Token × Mode → Option (List Token)
      follow r = lex other r.1 s >>= λ more. some (r.0 ++ more)

      both_ways :
          (x : Step) → (x >>= λ r. some (with_first t r)) >>= follow ≡ prepend t (x >>= follow)
      both_ways none = refl
      both_ways (some (ts, next)) =
          elim (lex other next s)
            as (λ o.
              (o >>= λ more. some ((t ∷ ts) ++ more))
              ≡ prepend t (o >>= λ more. some (ts ++ more))) [ none ↦ refl | some more ↦ refl ]
