-- ===== src/Scope/Pattern.antt =====
-- `globToRegexp` of internal/scope/scope.go, and the match of the regular expressions that it
-- builds: anchored at both ends, literal bytes up to case, and `.*`, where `.` is any byte but a
-- newline. `regexp.Compile` takes every quoted ASCII text.
use nett.Prelude.{
  ℕ, Bool, true, false, not, ◌&&◌, ◌||◌, List, [], ◌∷◌, ◌++◌, ◌==◌, ◌≡◌, ◌≢◌, ◌↔◌, inl, inr, refl,
  map, arith, or_true, and_true,
}
use nett.Text.{Bytes, to_lower, to_lower_byte, trim_space, split}

pub data Item : Type 0 where
  lit : ℕ → Item
  star : Item

abbrev pub Glob : Type 0
Glob = List Item

abbrev pub newline : ℕ
newline = 10

-- the literals of the parts, with `.*` between two parts: the last `.*` is trimmed
unfoldable pub items : List Bytes → Glob
items [] = []
items (part ∷ []) = map Item.lit part
items (part ∷ (next ∷ parts)) = map Item.lit part ++ (Item.star ∷ items (next ∷ parts))

-- globToRegexp
unfoldable pub compile : Bytes → Glob
unfolding items
compile pattern = items (split (to_lower (trim_space pattern)) b'*')

-- whether two bytes are equal under `(?i)`
unfoldable pub same_letter : ℕ → ℕ → Bool
unfolding to_lower_byte
same_letter c b = to_lower_byte c == to_lower_byte b

-- MatchString
unfoldable pub match : Glob → Bytes → Bool
match [] [] = true
match [] (b ∷ s) = false
match (Item.lit c ∷ re) [] = false
match (Item.lit c ∷ re) (b ∷ s) = same_letter c b && match re s
match (Item.star ∷ re) [] = match re []
match (Item.star ∷ re) (b ∷ s) =
    match re (b ∷ s) || (not (b == newline) && match (Item.star ∷ re) s)

-- What a glob means: each literal stands for itself up to case, each star for any text in a line.
pub data Matches : Glob → Bytes → Type 0 where
  done : Matches [] []
  letter :
      {c b : ℕ} {re : Glob} {s : Bytes}
      → to_lower_byte c ≡ to_lower_byte b
      → Matches re s
      → Matches (Item.lit c ∷ re) (b ∷ s)
  skip : {re : Glob} {s : Bytes} → Matches re s → Matches (Item.star ∷ re) s
  more :
      {b : ℕ} {re : Glob} {s : Bytes}
      → b ≢ newline
      → Matches (Item.star ∷ re) s
      → Matches (Item.star ∷ re) (b ∷ s)

pub other_byte : (b : ℕ) → not (b == newline) ≡ true → b ≢ newline
other_byte b h = ground arith

match_sound : (re : Glob) (s : Bytes) → match re s ≡ true → Matches re s
unfolding match same_letter
match_sound [] [] h = Matches.done
match_sound [] (b ∷ s) h = cc
match_sound (Item.lit c ∷ re) [] h = cc
match_sound (Item.lit c ∷ re) (b ∷ s) h =
    Matches.letter (ground arith) (match_sound re s (ground arith))
match_sound (Item.star ∷ re) [] h = Matches.skip (match_sound re [] h)
match_sound (Item.star ∷ re) (b ∷ s) h = elim (or_true (match re (b ∷ s)) _ h) [
  | inl e ↦ Matches.skip (match_sound re (b ∷ s) e)
  | inr e ↦
      let (n, m) = and_true (not (b == newline)) _ e in
      Matches.more (other_byte b n) (match_sound (Item.star ∷ re) s m)
]

match-star : (re : Glob) (s : Bytes) → match re s ≡ true → match (Item.star ∷ re) s ≡ true
unfolding match
match-star re [] h = h
match-star re (b ∷ s) h = rw h

match_complete : {re : Glob} {s : Bytes} → Matches re s → match re s ≡ true
unfolding match same_letter
match_complete Matches.done = refl
match_complete (Matches.letter {c} {b} e m) = ground (arith, match_complete m)
match_complete (Matches.skip {re} {s} m) = match-star re s (match_complete m)
match_complete (Matches.more {b} n m) = ground (arith, match_complete m)

-- The regular expression that a glob is compiled to matches a text exactly if the text is made of
-- the glob's letters in their order, up to case, with any text of one line for each star.
pub match_iff : (re : Glob) (s : Bytes) → (match re s ≡ true) ↔ Matches re s
match_iff re s = (match_sound re s, match_complete)
