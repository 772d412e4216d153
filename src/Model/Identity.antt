-- ===== src/Model/Identity.antt =====
-- The identity of assets, edges and events: what the hash tells apart.
use nett.Prelude.{◌≡◌, ◌≢◌, refl, [], ◌∷◌, ◌++◌, All}
use nett.Text.{Bytes}
use nett.Model.{hash_input, hash_hex, asset_id, edge_id}

abbrev pub NoZero : Bytes → Type 0
NoZero s = All (λ c. c ≢ 0) s

-- a zero byte ends the first part
split_zero :
    (s t : Bytes) {u v : Bytes}
    → NoZero s
    → NoZero t
    → s ++ (0 ∷ u) ≡ t ++ (0 ∷ v)
    → (s ≡ t) × (u ≡ v)
split_zero [] [] h k e = (refl, cc)
split_zero [] (c ∷ t) h k e = absurd (k.0 cc)
split_zero (c ∷ s) [] h k e = absurd (h.0 cc)
split_zero (c ∷ s) (d ∷ t) h k e = let (p, q) = split_zero s t h.1 k.1 cc in (cc p, q)

-- the hash gives two texts the same value only if they are the same
abbrev pub TellsApart : (Bytes → Bytes) → Bytes → Bytes → Type 0
TellsApart hash a b = hash a ≡ hash b → a ≡ b

-- Two assets with the same identity have the same type and the same key, if the types have no zero
-- byte and the hash does not collide on the two.
pub asset_id-injective :
    (hash : Bytes → Bytes) (t u key other : Bytes)
    → NoZero t
    → NoZero u
    → TellsApart hash (hash_input (t ∷ key ∷ [])) (hash_input (u ∷ other ∷ []))
    → asset_id hash t key ≡ asset_id hash u other
    → (t ≡ u) × (key ≡ other)
unfolding asset_id hash_hex hash_input
asset_id-injective hash t u key other h k apart e = split_zero t u h k (apart e)

-- Two edges with the same identity have the same source, relation and destination, if the sources
-- and the relations have no zero byte and the hash does not collide on the two.
pub edge_id-injective :
    (hash : Bytes → Bytes) (src src' rel rel' dst dst' : Bytes)
    → NoZero src
    → NoZero src'
    → NoZero rel
    → NoZero rel'
    → TellsApart hash (hash_input (src ∷ rel ∷ dst ∷ [])) (hash_input (src' ∷ rel' ∷ dst' ∷ []))
    → edge_id hash src rel dst ≡ edge_id hash src' rel' dst'
    → (src ≡ src') × (rel ≡ rel') × (dst ≡ dst')
unfolding edge_id hash_hex hash_input
edge_id-injective hash src src' rel rel' dst dst' h h' k k' apart e =
    let (p, q) = split_zero src src' h h' (apart e) in
    let (r, s) = split_zero rel rel' k k' q in (p, r, s)
