-- ===== src/Cli/Config/Kept.antt =====
-- What `config_set` of crates/gpumesh-cli/src/commands.rs changes of what `config_get` shows.
use gpu_share.Cli.Config.Fields.{
  max_vram_mb_only, update_url_only, region_only, public_listing_only, sharing_enabled_only,
  default_retries_only, max_concurrent_jobs_only, rendezvous_url_only, default_image_only,
  listen_port_only, node_name_only,
}
use gpu_share.Cli.Config.{
  key_of, set_parsed, Parsers, config_get, some_text, get_key, Key, set_key, config_set,
}
use gpu_share.Base.{
  str_iff, ◌∙◌, bad, Bool-cases, Parsed, good, unwrap_or, ℕ, String, Bool, true, false, some, inl,
  inr, ◌≡◌, ◌≢◌, refl, ap, sym, ◌==◌, nat_eq, string_eq,
}
use gpu_share.Common.{NodeConfig}

-- The keys that hold a text.
abbrev pub is_text : Key → Bool
is_text Key.node_name = true
is_text Key.default_image = true
is_text Key.rendezvous_url = true
is_text Key.region = true
is_text Key.update_url = true
is_text _ = false

set_parsed-good :
    {A : Type 0} (change : A → NodeConfig) (r : Parsed A) (cfg : NodeConfig)
    → set_parsed change r ≡ good cfg
    → (a : A) × (change a ≡ cfg)
set_parsed-good change (bad e) cfg h = cc
set_parsed-good change (good a) cfg h = (a, good_inj h)
  where
    good_inj : {a b : NodeConfig} → good a ≡ good b → a ≡ b
    good_inj e = cc

good_config : {a b : NodeConfig} → good a ≡ good b → a ≡ b
good_config e = cc

some_text_lem : (value : String) → unwrap_or (some_text value) "" ≡ value
some_text_lem value = elim (Bool-cases (value == "")) [
  | inl y ↦ rw y (sym ((str_iff value "").0 y))
  | inr n ↦ rw n refl
]

-- A change of a field that no other key shows.
shown_by_others :
    (p : Parsers) (cfg cfg' : NodeConfig) (key other : Key) (value : String)
    → set_key p cfg key value ≡ good cfg'
    → key ≢ other
    → get_key cfg' other ≡ get_key cfg other
unfolding set_key get_key
shown_by_others p cfg cfg' Key.node_name other value h ne =
    ap (λ (c : NodeConfig). get_key c other) (sym (good_config h)) ∙ node_name_only cfg _ other ne
shown_by_others p cfg cfg' Key.listen_port other value h ne =
    let (a, e) =
      set_parsed-good (λ (x : ℕ). record cfg { listen_port = x }) (p.parse_u16 value) cfg' h in
    ap (λ (c : NodeConfig). get_key c other) (sym e) ∙ listen_port_only cfg a other ne
shown_by_others p cfg cfg' Key.default_image other value h ne =
    ap (λ (c : NodeConfig). get_key c other) (sym (good_config h))
    ∙ default_image_only cfg _ other ne
shown_by_others p cfg cfg' Key.rendezvous_url other value h ne =
    ap (λ (c : NodeConfig). get_key c other) (sym (good_config h))
    ∙ rendezvous_url_only cfg (some_text value) other ne
shown_by_others p cfg cfg' Key.max_concurrent_jobs other value h ne =
    let (a, e) =
      set_parsed-good (λ (x : ℕ). record cfg { max_concurrent_jobs = x }) (p.parse_u32 value) cfg'
        h in
    ap (λ (c : NodeConfig). get_key c other) (sym e) ∙ max_concurrent_jobs_only cfg a other ne
shown_by_others p cfg cfg' Key.default_retries other value h ne =
    let (a, e) =
      set_parsed-good (λ (x : ℕ). record cfg { default_retries = x }) (p.parse_u32 value) cfg' h in
    ap (λ (c : NodeConfig). get_key c other) (sym e) ∙ default_retries_only cfg a other ne
shown_by_others p cfg cfg' Key.sharing_enabled other value h ne =
    let (a, e) =
      set_parsed-good (λ (x : Bool). record cfg { sharing_enabled = x }) (p.parse_bool value) cfg'
        h in
    ap (λ (c : NodeConfig). get_key c other) (sym e) ∙ sharing_enabled_only cfg a other ne
shown_by_others p cfg cfg' Key.public_listing other value h ne =
    let (a, e) =
      set_parsed-good (λ (x : Bool). record cfg { public_listing = x }) (p.parse_bool value) cfg'
        h in
    ap (λ (c : NodeConfig). get_key c other) (sym e) ∙ public_listing_only cfg a other ne
shown_by_others p cfg cfg' Key.region other value h ne =
    ap (λ (c : NodeConfig). get_key c other) (sym (good_config h))
    ∙ region_only cfg (some_text value) other ne
shown_by_others p cfg cfg' Key.update_url other value h ne =
    ap (λ (c : NodeConfig). get_key c other) (sym (good_config h))
    ∙ update_url_only cfg (some_text value) other ne
shown_by_others p cfg cfg' Key.max_vram_mb other value h ne =
    let (a, e) =
      set_parsed-good (λ (x : ℕ). record cfg { max_vram_mb = some x }) (p.parse_u64 value) cfg' h in
    ap (λ (c : NodeConfig). get_key c other) (sym e) ∙ max_vram_mb_only cfg a other ne
shown_by_others p cfg cfg' (Key.other_key o) other value h ne = cc

-- A change that succeeds leaves what every other key shows, and a key that holds a text shows the
-- text given.
pub config_get-config_set :
    (p : Parsers) (cfg cfg' : NodeConfig) (key value : String)
    → config_set p cfg key value ≡ good cfg'
    → ((other : String) → key_of key ≢ key_of other → config_get cfg' other ≡ config_get cfg other)
      × (is_text (key_of key) ≡ true → config_get cfg' key ≡ good value)
unfolding config_set config_get
config_get-config_set p cfg cfg' key value h = (
  λ other ne. shown_by_others p cfg cfg' (key_of key) (key_of other) value h ne,
  λ t. own (key_of key) h t,
)
  where
    own :
        (k : Key)
        → set_key p cfg k value ≡ good cfg'
        → is_text k ≡ true
        → get_key cfg' k ≡ good value
    own Key.node_name h t =
        unfold set_key get_key in
        ap (λ (c : NodeConfig). get_key c Key.node_name) (sym (good_config h))
    own Key.listen_port h t = cc
    own Key.default_image h t =
        unfold set_key get_key in
        ap (λ (c : NodeConfig). get_key c Key.default_image) (sym (good_config h))
    own Key.rendezvous_url h t =
        unfold set_key get_key in
        ap (λ (c : NodeConfig). get_key c Key.rendezvous_url) (sym (good_config h))
        ∙ ap (λ (v : String). good v) (some_text_lem value)
    own Key.max_concurrent_jobs h t = cc
    own Key.default_retries h t = cc
    own Key.sharing_enabled h t = cc
    own Key.public_listing h t = cc
    own Key.region h t =
        unfold set_key get_key in
        ap (λ (c : NodeConfig). get_key c Key.region) (sym (good_config h))
        ∙ ap (λ (v : String). good v) (some_text_lem value)
    own Key.update_url h t =
        unfold set_key get_key in
        ap (λ (c : NodeConfig). get_key c Key.update_url) (sym (good_config h))
        ∙ ap (λ (v : String). good v) (some_text_lem value)
    own Key.max_vram_mb h t = cc
    own (Key.other_key o) h t = cc
