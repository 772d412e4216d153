-- ===== src/Scope/Globs.antt =====
-- What the patterns of a scope mean: `globToRegexp` (internal/scope/scope.go) with the match of what it
-- builds, told of the text of the pattern itself.
use nett.Prelude.{ℕ, [], ◌∷◌, ◌==◌, ◌≡◌, ◌≢◌, if◌then◌else◌}
use nett.Text.{Bytes, to_lower_byte}
use nett.Scope.Pattern.{Item, Glob, newline}

-- What a pattern means: a `*` stands for any text in a line, and each other byte for itself up to case.
pub data Means : Bytes → Bytes → Type 0 where
  done : Means [] []
  letter :
      {c b : ℕ} {p s : Bytes}
      → c ≢ b'*'
      → to_lower_byte c ≡ to_lower_byte b
      → Means p s
      → Means (c ∷ p) (b ∷ s)
  skip : {p s : Bytes} → Means p s → Means (b'*' ∷ p) s
  more : {b : ℕ} {p s : Bytes} → b ≢ newline → Means (b'*' ∷ p) s → Means (b'*' ∷ p) (b ∷ s)

-- the items of a pattern, byte by byte
abbrev glob_of : Bytes → Glob
glob_of [] = []
glob_of (c ∷ p) =
    let below = glob_of p in if c == b'*' then Item.star ∷ below else Item.lit c ∷ below
