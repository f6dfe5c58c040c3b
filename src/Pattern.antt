-- ===== src/Pattern.antt =====
-- app/pattern/pattern.go.
use ecs_gatus_app.Base.{Bool, true, [], ◌∷◌, ◌==◌, if◌then◌else◌}
use ecs_gatus_app.Base.Text.{Text, codes, text_eq}
use ecs_gatus_app.Golib.{Golib}

-- strings.ReplaceAll(s, "/", "").
unfoldable pub without_separators : Text → Text
without_separators [] = []
without_separators (c ∷ s) = let rest = without_separators s in if c == b'/' then rest else c ∷ rest

unfoldable pub match : Golib → Text → Text → Bool
unfolding without_separators
match lib pattern s =
    if text_eq pattern (codes "*")
    then true
    else lib.match_file_name (without_separators pattern) (without_separators s)
