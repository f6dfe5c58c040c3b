-- ===== src/Key/Injective.antt =====
-- When two endpoints share a key.
use ecs_gatus_app.Base.{
  ℕ, ◌≡◌, ◌≢◌, refl, ◌↔◌, ap, [], ◌∷◌, ◌++◌, map, arith, ◌==◌, if◌then◌else◌, All,
}
use ecs_gatus_app.Base.Text.{Text}
use ecs_gatus_app.Key.{replace_separators, sanitize, convert_group_and_name_to_key}

-- The characters that a key may hold.
abbrev pub IsPlain : ℕ → Type 0
IsPlain c =
    (c ≢ b'/')
    × (c ≢ b'_')
    × (c ≢ b'.')
    × (c ≢ b',')
    × (c ≢ b' ')
    × (c ≢ b'#')
    × (c ≢ b'+')
    × (c ≢ b'&')

-- One pass over the text for the eight replacements.
abbrev dash : ℕ → ℕ
dash c =
    let r = λ (old : ℕ) (d : ℕ). if d == old then b'-' else d in
    r b'&' (r b'+' (r b'#' (r b' ' (r b',' (r b'.' (r b'_' (r b'/' c)))))))

dash-IsPlain : (c : ℕ) → IsPlain (dash c)
dash-IsPlain c = ground arith

replace_separators-map : (s : Text) → replace_separators s ≡ map dash s
unfolding replace_separators
replace_separators-map [] = refl
replace_separators-map (c ∷ s) = ap (◌∷◌ (dash c)) (replace_separators-map s)

map-dash-IsPlain : (s : Text) → All IsPlain (map dash s)
map-dash-IsPlain [] = tt
map-dash-IsPlain (c ∷ s) = (dash-IsPlain c, map-dash-IsPlain s)

-- Two texts that are split by the first underscore are split in the same place.
split_unique :
    (a b c d : Text)
    → All IsPlain a
    → All IsPlain c
    → a ++ (b'_' ∷ b) ≡ c ++ (b'_' ∷ d)
    → (a ≡ c) × (b ≡ d)
split_unique [] b [] d pa pc h = ground arith
split_unique [] b (x ∷ c) d pa pc h = ground arith
split_unique (x ∷ a) b [] d pa pc h = ground arith
split_unique (x ∷ a) b (y ∷ c) d pa pc h = ground (arith, split_unique a b c d pa.1 pc.1)

-- Nothing in a sanitized text is a slash, underscore, dot, comma, space, hash, plus or ampersand.
pub sanitize-IsPlain : (s : Text) → All IsPlain (sanitize s)
unfolding sanitize
sanitize-IsPlain s = rw (replace_separators-map _) (map-dash-IsPlain _)

-- Two endpoints have the same key exactly when their groups and their names are the same once
-- sanitized: the key mixes up no group with a name.
pub convert_group_and_name_to_key-injective :
    (g n h m : Text)
    → (convert_group_and_name_to_key g n ≡ convert_group_and_name_to_key h m)
      ↔ ((sanitize g ≡ sanitize h) × (sanitize n ≡ sanitize m))
unfolding convert_group_and_name_to_key
convert_group_and_name_to_key-injective g n h m = (
  split_unique (sanitize g) (sanitize n) (sanitize h) (sanitize m) (sanitize-IsPlain g)
      (sanitize-IsPlain h),
  λ e. cc (e.0, e.1),
)
