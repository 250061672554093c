-- ===== src/Cli/Tests.antt =====
-- Runs of the name of a project and of a change of the configuration.
use gpu_share.Cli.Config.{Parsers, set_key, key_of, config_set}
use gpu_share.Base.{bad, good, codes, some, ◌≡◌, refl, nat_eq, string_eq}
use gpu_share.Common.{default_config, NodeConfig}
use gpu_share.Cli.{trim_end_underscores, trim_start_underscores, sanitize_name}

abbrev no_parsers : Parsers
no_parsers = record {
  parse_u16 = λ s. bad "invalid digit found in string";
  parse_u32 = λ s. bad "invalid digit found in string";
  parse_u64 = λ s. bad "invalid digit found in string";
  parse_bool = λ s. bad "provided string was not `true` or `false`";
}

abbrev before : NodeConfig
before = default_config "host"

abbrev after : NodeConfig
after = record (default_config "host") { region = some "eu" }

region_works : config_set no_parsers before "region" "eu" ≡ good after
unfolding config_set set_key key_of default_config
region_works = refl

name_sanitized : sanitize_name (codes "__my app!") ≡ codes "my_app"
unfolding sanitize_name trim_start_underscores trim_end_underscores
name_sanitized = refl
