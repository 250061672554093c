-- ===== src/Cli/Config/Fields.antt =====
-- Each field of the configuration is shown by its own key of
-- crates/gpumesh-cli/src/commands.rs alone.
use gpu_share.Cli.Config.{Key, get_key}
use gpu_share.Base.{ℕ, String, Bool, Option, some, ◌≡◌, ◌≢◌, refl, nat_eq, string_eq}
use gpu_share.Common.{NodeConfig}

pub node_name_only :
    (cfg : NodeConfig) (v : String) (other : Key)
    → Key.node_name ≢ other
    → get_key (record cfg { node_name = v }) other ≡ get_key cfg other
unfolding get_key
node_name_only cfg v Key.node_name ne = absurd (ne refl)
node_name_only cfg v Key.listen_port ne = refl
node_name_only cfg v Key.default_image ne = refl
node_name_only cfg v Key.rendezvous_url ne = refl
node_name_only cfg v Key.max_concurrent_jobs ne = refl
node_name_only cfg v Key.default_retries ne = refl
node_name_only cfg v Key.sharing_enabled ne = refl
node_name_only cfg v Key.public_listing ne = refl
node_name_only cfg v Key.region ne = refl
node_name_only cfg v Key.update_url ne = refl
node_name_only cfg v Key.max_vram_mb ne = refl
node_name_only cfg v (Key.other_key o) ne = refl

pub listen_port_only :
    (cfg : NodeConfig) (v : ℕ) (other : Key)
    → Key.listen_port ≢ other
    → get_key (record cfg { listen_port = v }) other ≡ get_key cfg other
unfolding get_key
listen_port_only cfg v Key.node_name ne = refl
listen_port_only cfg v Key.listen_port ne = absurd (ne refl)
listen_port_only cfg v Key.default_image ne = refl
listen_port_only cfg v Key.rendezvous_url ne = refl
listen_port_only cfg v Key.max_concurrent_jobs ne = refl
listen_port_only cfg v Key.default_retries ne = refl
listen_port_only cfg v Key.sharing_enabled ne = refl
listen_port_only cfg v Key.public_listing ne = refl
listen_port_only cfg v Key.region ne = refl
listen_port_only cfg v Key.update_url ne = refl
listen_port_only cfg v Key.max_vram_mb ne = refl
listen_port_only cfg v (Key.other_key o) ne = refl

pub default_image_only :
    (cfg : NodeConfig) (v : String) (other : Key)
    → Key.default_image ≢ other
    → get_key (record cfg { default_image = v }) other ≡ get_key cfg other
unfolding get_key
default_image_only cfg v Key.node_name ne = refl
default_image_only cfg v Key.listen_port ne = refl
default_image_only cfg v Key.default_image ne = absurd (ne refl)
default_image_only cfg v Key.rendezvous_url ne = refl
default_image_only cfg v Key.max_concurrent_jobs ne = refl
default_image_only cfg v Key.default_retries ne = refl
default_image_only cfg v Key.sharing_enabled ne = refl
default_image_only cfg v Key.public_listing ne = refl
default_image_only cfg v Key.region ne = refl
default_image_only cfg v Key.update_url ne = refl
default_image_only cfg v Key.max_vram_mb ne = refl
default_image_only cfg v (Key.other_key o) ne = refl

pub rendezvous_url_only :
    (cfg : NodeConfig) (v : Option String) (other : Key)
    → Key.rendezvous_url ≢ other
    → get_key (record cfg { rendezvous_url = v }) other ≡ get_key cfg other
unfolding get_key
rendezvous_url_only cfg v Key.node_name ne = refl
rendezvous_url_only cfg v Key.listen_port ne = refl
rendezvous_url_only cfg v Key.default_image ne = refl
rendezvous_url_only cfg v Key.rendezvous_url ne = absurd (ne refl)
rendezvous_url_only cfg v Key.max_concurrent_jobs ne = refl
rendezvous_url_only cfg v Key.default_retries ne = refl
rendezvous_url_only cfg v Key.sharing_enabled ne = refl
rendezvous_url_only cfg v Key.public_listing ne = refl
rendezvous_url_only cfg v Key.region ne = refl
rendezvous_url_only cfg v Key.update_url ne = refl
rendezvous_url_only cfg v Key.max_vram_mb ne = refl
rendezvous_url_only cfg v (Key.other_key o) ne = refl

pub max_concurrent_jobs_only :
    (cfg : NodeConfig) (v : ℕ) (other : Key)
    → Key.max_concurrent_jobs ≢ other
    → get_key (record cfg { max_concurrent_jobs = v }) other ≡ get_key cfg other
unfolding get_key
max_concurrent_jobs_only cfg v Key.node_name ne = refl
max_concurrent_jobs_only cfg v Key.listen_port ne = refl
max_concurrent_jobs_only cfg v Key.default_image ne = refl
max_concurrent_jobs_only cfg v Key.rendezvous_url ne = refl
max_concurrent_jobs_only cfg v Key.max_concurrent_jobs ne = absurd (ne refl)
max_concurrent_jobs_only cfg v Key.default_retries ne = refl
max_concurrent_jobs_only cfg v Key.sharing_enabled ne = refl
max_concurrent_jobs_only cfg v Key.public_listing ne = refl
max_concurrent_jobs_only cfg v Key.region ne = refl
max_concurrent_jobs_only cfg v Key.update_url ne = refl
max_concurrent_jobs_only cfg v Key.max_vram_mb ne = refl
max_concurrent_jobs_only cfg v (Key.other_key o) ne = refl

pub default_retries_only :
    (cfg : NodeConfig) (v : ℕ) (other : Key)
    → Key.default_retries ≢ other
    → get_key (record cfg { default_retries = v }) other ≡ get_key cfg other
unfolding get_key
default_retries_only cfg v Key.node_name ne = refl
default_retries_only cfg v Key.listen_port ne = refl
default_retries_only cfg v Key.default_image ne = refl
default_retries_only cfg v Key.rendezvous_url ne = refl
default_retries_only cfg v Key.max_concurrent_jobs ne = refl
default_retries_only cfg v Key.default_retries ne = absurd (ne refl)
default_retries_only cfg v Key.sharing_enabled ne = refl
default_retries_only cfg v Key.public_listing ne = refl
default_retries_only cfg v Key.region ne = refl
default_retries_only cfg v Key.update_url ne = refl
default_retries_only cfg v Key.max_vram_mb ne = refl
default_retries_only cfg v (Key.other_key o) ne = refl

pub sharing_enabled_only :
    (cfg : NodeConfig) (v : Bool) (other : Key)
    → Key.sharing_enabled ≢ other
    → get_key (record cfg { sharing_enabled = v }) other ≡ get_key cfg other
unfolding get_key
sharing_enabled_only cfg v Key.node_name ne = refl
sharing_enabled_only cfg v Key.listen_port ne = refl
sharing_enabled_only cfg v Key.default_image ne = refl
sharing_enabled_only cfg v Key.rendezvous_url ne = refl
sharing_enabled_only cfg v Key.max_concurrent_jobs ne = refl
sharing_enabled_only cfg v Key.default_retries ne = refl
sharing_enabled_only cfg v Key.sharing_enabled ne = absurd (ne refl)
sharing_enabled_only cfg v Key.public_listing ne = refl
sharing_enabled_only cfg v Key.region ne = refl
sharing_enabled_only cfg v Key.update_url ne = refl
sharing_enabled_only cfg v Key.max_vram_mb ne = refl
sharing_enabled_only cfg v (Key.other_key o) ne = refl

pub public_listing_only :
    (cfg : NodeConfig) (v : Bool) (other : Key)
    → Key.public_listing ≢ other
    → get_key (record cfg { public_listing = v }) other ≡ get_key cfg other
unfolding get_key
public_listing_only cfg v Key.node_name ne = refl
public_listing_only cfg v Key.listen_port ne = refl
public_listing_only cfg v Key.default_image ne = refl
public_listing_only cfg v Key.rendezvous_url ne = refl
public_listing_only cfg v Key.max_concurrent_jobs ne = refl
public_listing_only cfg v Key.default_retries ne = refl
public_listing_only cfg v Key.sharing_enabled ne = refl
public_listing_only cfg v Key.public_listing ne = absurd (ne refl)
public_listing_only cfg v Key.region ne = refl
public_listing_only cfg v Key.update_url ne = refl
public_listing_only cfg v Key.max_vram_mb ne = refl
public_listing_only cfg v (Key.other_key o) ne = refl

pub region_only :
    (cfg : NodeConfig) (v : Option String) (other : Key)
    → Key.region ≢ other
    → get_key (record cfg { region = v }) other ≡ get_key cfg other
unfolding get_key
region_only cfg v Key.node_name ne = refl
region_only cfg v Key.listen_port ne = refl
region_only cfg v Key.default_image ne = refl
region_only cfg v Key.rendezvous_url ne = refl
region_only cfg v Key.max_concurrent_jobs ne = refl
region_only cfg v Key.default_retries ne = refl
region_only cfg v Key.sharing_enabled ne = refl
region_only cfg v Key.public_listing ne = refl
region_only cfg v Key.region ne = absurd (ne refl)
region_only cfg v Key.update_url ne = refl
region_only cfg v Key.max_vram_mb ne = refl
region_only cfg v (Key.other_key o) ne = refl

pub update_url_only :
    (cfg : NodeConfig) (v : Option String) (other : Key)
    → Key.update_url ≢ other
    → get_key (record cfg { update_url = v }) other ≡ get_key cfg other
unfolding get_key
update_url_only cfg v Key.node_name ne = refl
update_url_only cfg v Key.listen_port ne = refl
update_url_only cfg v Key.default_image ne = refl
update_url_only cfg v Key.rendezvous_url ne = refl
update_url_only cfg v Key.max_concurrent_jobs ne = refl
update_url_only cfg v Key.default_retries ne = refl
update_url_only cfg v Key.sharing_enabled ne = refl
update_url_only cfg v Key.public_listing ne = refl
update_url_only cfg v Key.region ne = refl
update_url_only cfg v Key.update_url ne = absurd (ne refl)
update_url_only cfg v Key.max_vram_mb ne = refl
update_url_only cfg v (Key.other_key o) ne = refl

pub max_vram_mb_only :
    (cfg : NodeConfig) (v : ℕ) (other : Key)
    → Key.max_vram_mb ≢ other
    → get_key (record cfg { max_vram_mb = some v }) other ≡ get_key cfg other
unfolding get_key
max_vram_mb_only cfg v Key.node_name ne = refl
max_vram_mb_only cfg v Key.listen_port ne = refl
max_vram_mb_only cfg v Key.default_image ne = refl
max_vram_mb_only cfg v Key.rendezvous_url ne = refl
max_vram_mb_only cfg v Key.max_concurrent_jobs ne = refl
max_vram_mb_only cfg v Key.default_retries ne = refl
max_vram_mb_only cfg v Key.sharing_enabled ne = refl
max_vram_mb_only cfg v Key.public_listing ne = refl
max_vram_mb_only cfg v Key.region ne = refl
max_vram_mb_only cfg v Key.update_url ne = refl
max_vram_mb_only cfg v Key.max_vram_mb ne = refl
max_vram_mb_only cfg v (Key.other_key o) ne = refl
