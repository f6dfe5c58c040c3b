-- ===== src/Key/Examples.antt =====
-- Keys of concrete endpoints.
use ecs_gatus_app.Base.{◌≡◌, refl, ◌↔◌}
use ecs_gatus_app.Base.Text.{codes, to_lower, trim_space}
use ecs_gatus_app.Key.{replace_separators, sanitize, convert_group_and_name_to_key}
use ecs_gatus_app.Key.Injective.{convert_group_and_name_to_key-injective}

key_of_core_front_end :
    convert_group_and_name_to_key (codes "Core") (codes " front_end/v1 ")
    ≡ codes "core_front-end-v1"
unfolding convert_group_and_name_to_key sanitize replace_separators to_lower trim_space
key_of_core_front_end = refl

convert_group_and_name_to_key-injective_example :
    (convert_group_and_name_to_key (codes "a") (codes "b.c")
      ≡ convert_group_and_name_to_key (codes "A") (codes "b/c"))
    ↔ ((sanitize (codes "a") ≡ sanitize (codes "A"))
        × (sanitize (codes "b.c") ≡ sanitize (codes "b/c")))
convert_group_and_name_to_key-injective_example =
    convert_group_and_name_to_key-injective (codes "a") (codes "b.c") (codes "A") (codes "b/c")
