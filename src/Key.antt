-- ===== src/Key.antt =====
-- app/config/key/key.go: the key of an endpoint or a suite.
pub mod Injective
mod Examples
use ecs_gatus_app.Base.{◌++◌, ◌∷◌}
use ecs_gatus_app.Base.Text.{Text, to_lower, trim_space, replace_char}

-- The chain of strings.ReplaceAll.
unfoldable pub replace_separators : Text → Text
unfolding replace_char
replace_separators s0 =
    let s1 = replace_char b'/' b'-' s0 in
    let s2 = replace_char b'_' b'-' s1 in
    let s3 = replace_char b'.' b'-' s2 in
    let s4 = replace_char b',' b'-' s3 in
    let s5 = replace_char b' ' b'-' s4 in
    let s6 = replace_char b'#' b'-' s5 in
    let s7 = replace_char b'+' b'-' s6 in replace_char b'&' b'-' s7

unfoldable pub sanitize : Text → Text
sanitize s = replace_separators (trim_space (to_lower s))

unfoldable pub convert_group_and_name_to_key : Text → Text → Text
convert_group_and_name_to_key group_name name = sanitize group_name ++ (b'_' ∷ sanitize name)
