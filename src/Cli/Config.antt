-- ===== src/Cli/Config.antt =====
-- `config_get` and `config_set` of crates/gpumesh-cli/src/commands.rs.
pub mod Fields
pub mod Kept
use gpu_share.Base.{
  unwrap_or, show, good, bad, Parsed, ℕ, String, Bool, true, false, Option, none, some,
  if◌then◌else◌, ◌==◌, nat_eq, string_eq, ◌&◌,
}
use gpu_share.Common.{NodeConfig}

-- The keys that either function knows, and all other texts.
pub data Key : Type 0 where
  node_name listen_port default_image rendezvous_url max_concurrent_jobs default_retries : Key
  sharing_enabled public_listing region update_url max_vram_mb : Key
  other_key : String → Key

unfoldable pub key_of : String → Key
key_of key =
    if key == "node_name"
    then Key.node_name
    else if key == "listen_port"
    then Key.listen_port
    else if key == "default_image"
    then Key.default_image
    else if key == "rendezvous_url"
    then Key.rendezvous_url
    else if key == "max_concurrent_jobs"
    then Key.max_concurrent_jobs
    else if key == "default_retries"
    then Key.default_retries
    else if key == "sharing_enabled"
    then Key.sharing_enabled
    else if key == "public_listing"
    then Key.public_listing
    else if key == "region"
    then Key.region
    else if key == "update_url"
    then Key.update_url
    else if key == "max_vram_mb"
    then Key.max_vram_mb
    else Key.other_key key

abbrev pub show_bool : Bool → String
show_bool true = "true"
show_bool false = "false"

-- `anyhow` errors are their texts.
unfoldable pub get_key : NodeConfig → Key → Parsed String
get_key cfg Key.node_name = good cfg.node_name
get_key cfg Key.listen_port = good (show cfg.listen_port)
get_key cfg Key.default_image = good cfg.default_image
get_key cfg Key.rendezvous_url = good (unwrap_or cfg.rendezvous_url "")
get_key cfg Key.max_concurrent_jobs = good (show cfg.max_concurrent_jobs)
get_key cfg Key.default_retries = good (show cfg.default_retries)
get_key cfg Key.sharing_enabled = good (show_bool cfg.sharing_enabled)
get_key cfg Key.public_listing = good (show_bool cfg.public_listing)
get_key cfg Key.region = good (unwrap_or cfg.region "")
get_key cfg Key.update_url = good (unwrap_or cfg.update_url "")
get_key cfg Key.max_vram_mb = bad "unknown key: max_vram_mb"
get_key cfg (Key.other_key other) = bad ("unknown key: " & other)

unfoldable pub config_get : NodeConfig → String → Parsed String
unfolding get_key key_of
config_get cfg key = get_key cfg (key_of key)

-- `str::parse` for the types of the fields: `u16`, `u32`, `u64` and `bool`.
pub record Parsers : Type 0 where
  pub parse_u16 : String → Parsed ℕ
  pub parse_u32 : String → Parsed ℕ
  pub parse_u64 : String → Parsed ℕ
  pub parse_bool : String → Parsed Bool

abbrev pub set_parsed : {A : Type 0} → (A → NodeConfig) → Parsed A → Parsed NodeConfig
set_parsed change (bad e) = bad e
set_parsed change (good a) = good (change a)

abbrev pub some_text : String → Option String
some_text value = if value == "" then none else some value

unfoldable pub set_key : Parsers → NodeConfig → Key → String → Parsed NodeConfig
set_key p cfg Key.node_name value = good (record cfg { node_name = value })
set_key p cfg Key.listen_port value =
    set_parsed (λ n. record cfg { listen_port = n }) (p.parse_u16 value)
set_key p cfg Key.default_image value = good (record cfg { default_image = value })
set_key p cfg Key.rendezvous_url value = good (record cfg { rendezvous_url = some_text value })
set_key p cfg Key.max_concurrent_jobs value =
    set_parsed (λ n. record cfg { max_concurrent_jobs = n }) (p.parse_u32 value)
set_key p cfg Key.default_retries value =
    set_parsed (λ n. record cfg { default_retries = n }) (p.parse_u32 value)
set_key p cfg Key.sharing_enabled value =
    set_parsed (λ b. record cfg { sharing_enabled = b }) (p.parse_bool value)
set_key p cfg Key.public_listing value =
    set_parsed (λ b. record cfg { public_listing = b }) (p.parse_bool value)
set_key p cfg Key.region value = good (record cfg { region = some_text value })
set_key p cfg Key.update_url value = good (record cfg { update_url = some_text value })
set_key p cfg Key.max_vram_mb value =
    set_parsed (λ n. record cfg { max_vram_mb = some n }) (p.parse_u64 value)
set_key p cfg (Key.other_key other) value = bad ("unknown or read-only key: " & other)

unfoldable pub config_set : Parsers → NodeConfig → String → String → Parsed NodeConfig
unfolding set_key key_of
config_set p cfg key value = set_key p cfg (key_of key) value
