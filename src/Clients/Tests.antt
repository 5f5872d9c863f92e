-- ===== src/Clients/Tests.antt =====
-- Runs of the parser of client options.
use pecl_database_mysql_xdev.Common.{
  ◌≡◌, refl, ◌↔◌, true, List, [], ◌∷◌, some, ok, err, Bytes, codes, All, pos, same_text,
}
use pecl_database_mysql_xdev.Pool.{Options, default_options}
use pecl_database_mysql_xdev.Clients.{
  OptionValue, null, boolean, long, object, no_object, json_object_expected, not_recognized,
  not_supported, is_allowed, verify, get_property, assign_options, run_parser, parse_client_options,
}
use pecl_database_mysql_xdev.Clients.Choice.{IsAllowed, Chooses, run_parser-Chooses}

abbrev desc : List (Bytes × OptionValue)
desc =
    (codes "maxSize", long (pos 10))
    ∷ (codes "enabled", boolean true)
    ∷ (codes "queueTimeOut", null)
    ∷ []

abbrev ten : Options
ten = record default_options { max_size = 10 }

desc_run : run_parser (object desc) ≡ ok ten
unfolding run_parser verify is_allowed same_text assign_options get_property
desc_run = refl

unknown_run :
    run_parser (object ((codes "maxsize", long (pos 10)) ∷ []))
    ≡ err (not_recognized (codes "maxsize"))
unfolding run_parser verify is_allowed same_text assign_options get_property
unknown_run = refl

zero_run :
    run_parser (object ((codes "maxSize", long (pos 0)) ∷ []))
    ≡ err (not_supported (codes "maxSize"))
unfolding run_parser verify is_allowed same_text assign_options get_property
zero_run = refl

-- 2 ^ 32 + 1 is taken for 1.
large_run :
    run_parser (object ((codes "maxSize", long (pos 4294967297)) ∷ []))
    ≡ ok (record default_options { max_size = 1 })
unfolding run_parser verify is_allowed same_text assign_options get_property
large_run = refl

text_run : parse_client_options (λ text. some no_object) (codes "[]") ≡ err json_object_expected
unfolding parse_client_options run_parser
text_run = refl

run_parser-Chooses_example :
    (run_parser (object desc) ≡ ok ten) ↔ (All IsAllowed desc × Chooses desc default_options ten)
run_parser-Chooses_example = run_parser-Chooses desc ten
