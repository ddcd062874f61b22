-- ===== src/AgentTx/Text.antt =====
-- Text and results as tools/agent-tx uses them: `str` methods of Rust on the codes of characters, and
-- `Result`. The wire form of policies (Contract.Scval) compares its field names by the same codes.
use Prim.Native.Char.{code}
use Prim.Native.String.{String}
use stellar_agent_guard_cont.Common.{
  ℕ, zero, suc, ◌+◌, ◌≡◌, refl, Bool, true, false, ◌&&◌, Option, none, some, List, [], ◌∷◌, arith,
  leb, ◌==◌, if◌then◌else◌, length,
}

pub data Result (E A : Type 0) : Type 0 where
  ok : A → Result E A
  err : E → Result E A

-- `?`
infixl 5 ◌>>=◌
unfoldable pub ◌>>=◌ : {E A B : Type 0} → Result E A → (A → Result E B) → Result E B
ok a >>= f = f a
err e >>= f = err e

abbrev pub or_err : {E A : Type 0} → Option A → E → Result E A
or_err none e = err e
or_err (some a) e = ok a

-- The codes of a text's characters.
abbrev pub codes : String → List ℕ
codes String.[] = []
codes (String.◌∷◌ c s) = code c ∷ codes s

abbrev pub text_eq : List ℕ → List ℕ → Bool
text_eq [] [] = true
text_eq (a ∷ s) (b ∷ t) = a == b && text_eq s t
text_eq _ _ = false

abbrev pub lowercase : ℕ → ℕ
lowercase c = if leb 65 c && leb c 90 then c + 32 else c

abbrev pub to_ascii_lowercase : List ℕ → List ℕ
to_ascii_lowercase [] = []
to_ascii_lowercase (c ∷ cs) = lowercase c ∷ to_ascii_lowercase cs

abbrev pub strip_prefix : List ℕ → List ℕ → Option (List ℕ)
strip_prefix [] s = some s
strip_prefix (p ∷ ps) [] = none
strip_prefix (p ∷ ps) (c ∷ cs) = if p == c then strip_prefix ps cs else none

-- `split_once(sep)`, the part after the separator.
abbrev pub after_first : List ℕ → List ℕ → Option (List ℕ)
after_first sep [] = strip_prefix sep []
after_first sep (c ∷ cs) = elim (strip_prefix sep (c ∷ cs)) [
  | some rest ↦ some rest
  | none ↦ after_first sep cs
]

-- `rsplit_once(sep)`, the part after the separator.
abbrev pub after_last : List ℕ → List ℕ → Option (List ℕ)
after_last sep [] = strip_prefix sep []
after_last sep (c ∷ cs) = elim (after_last sep cs) [
  | some rest ↦ some rest
  | none ↦ strip_prefix sep (c ∷ cs)
]

abbrev is_found : Option (List ℕ) → Bool
is_found none = false
is_found (some _) = true

-- `contains(sub)`
abbrev pub contains_text : List ℕ → List ℕ → Bool
contains_text s sub = is_found (after_first sub s)

-- `split(separators).next()`
abbrev pub until : (ℕ → Bool) → List ℕ → List ℕ
until sep [] = []
until sep (c ∷ cs) = let rest = until sep cs in if sep c then [] else c ∷ rest

-- `trim_start_matches(prefix)`; each round drops a character at least, if the prefix is not empty.
abbrev trim_rounds : ℕ → List ℕ → List ℕ → List ℕ
trim_rounds zero prefix s = s
trim_rounds (suc n) prefix s = elim (strip_prefix prefix s) [
  | none ↦ s
  | some rest ↦ trim_rounds n prefix rest
]

abbrev pub trim_start_matches : List ℕ → List ℕ → List ℕ
trim_start_matches prefix s = trim_rounds (length s) prefix s

pub text_eq→eq : (s t : List ℕ) → text_eq s t ≡ true → s ≡ t
text_eq→eq [] [] h = refl
text_eq→eq [] (b ∷ t) h = cc h
text_eq→eq (a ∷ s) [] h = cc h
text_eq→eq (a ∷ s) (b ∷ t) h = ground (arith, text_eq→eq s t)

-- What is left of a chain that succeeded.
pub bind-ok :
    {E A B : Type 0} (m : Result E A) (f : A → Result E B) (b : B)
    → (m >>= f) ≡ ok b
    → (a : A) × (m ≡ ok a) × (f a ≡ ok b)
unfolding ◌>>=◌
bind-ok (ok a) f b h = (a, refl, h)
bind-ok (err e) f b h = cc h

pub ok_injective : {E A : Type 0} (a b : A) → ◌≡◌ {A = Result E A} (ok a) (ok b) → a ≡ b
ok_injective a b h = cc h

pub some_injective : {A : Type 0} (a b : A) → some a ≡ some b → a ≡ b
some_injective a b h = cc h
