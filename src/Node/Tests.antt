-- ===== src/Node/Tests.antt =====
-- Runs of two toy nodes, of which one has allowed the other.
use gpu_share.Node.Trust.{change_list, resolve, allow_peer}
use gpu_share.Node.Reached.{accepts, changes, started, next, Reached-IsSound, AreFiled}
use gpu_share.Node.Sound.{IsSound}
use gpu_share.Node.Trust.Restart.{bootstrap-run_change, allows, change_of}
use gpu_share.Node.Toy.{at_rest, bob, files, env}
use gpu_share.Network.Channel.{IsNext}
use gpu_share.Node.Inbound.Admitted.{handle_inbound_sound, handle_inbound_complete}
use gpu_share.Node.Inbound.{handle_inbound}
use gpu_share.Base.Int.{leb_ℤ, ltb_ℤ, ◌+ℤ◌, ◌-ℤ◌, pos}
use gpu_share.Node.Status.Widths.{truncate_lem, is_ascii}
use gpu_share.Storage.Peers.{Peers, PeerRecord, lookup}
use gpu_share.Base.{
  len_utf8, byte_len, is_some, String, true, false, none, some, List, [], ◌∷◌, ◌≡◌, refl, ap,
  nat_eq, string_eq, ◌+◌, ◌-◌, ◌<◌, ◌&◌,
}
use gpu_share.Common.{protocol_major, default_config, ok, Result}
use gpu_share.Base.Map
use gpu_share.Base.Map.{Map}
use gpu_share.Base.Set
use gpu_share.Node.Status.{truncate}
use gpu_share.Node.Greeting.{authorize_inbound, make_hello, bare_hello, is_permitted, key_fits}
use gpu_share.Security.AllowList.{
  default, allow, is_allowed, is_desktop_allowed, is_gpu_remote_allowed,
}
use gpu_share.Security.Crypto.Toy.{toy_crypto, alice}
use gpu_share.Security.Crypto.{
  from_seed, sign_b64, public_key_hex, node_id_from_verifying, verify_signature,
  node_id_from_public_hex,
}
use gpu_share.Security.Hello.{sign_hello, verify_hello, canonical_bytes}
use gpu_share.Node.{
  save_allowlist, load_peers, load_allowlist, load_config, MeshNode, holds, bootstrap,
}
use gpu_share.Network.{Conn, ConnectionMode}
use Prim.Native.Char.{code, Char}
use gpu_share.Protocol.{Message, hello, hello_ack, ProtocolHello}

truncate_lem_example :
    ((s : String) → is_ascii s ≡ true → is_some (truncate s 4) ≡ true)
    × ((p : String) (c : Char) (rest : String)
        → 4 < byte_len (p & String.◌∷◌ c rest)
        → byte_len p < 4 - 1
        → 4 - 1 < byte_len p + len_utf8 (code c)
        → truncate (p & String.◌∷◌ c rest) 4 ≡ none)
truncate_lem_example = truncate_lem 4

abbrev record_of_alice : PeerRecord
record_of_alice = record {
  node_id = alice.node_id;
  node_name = "alice";
  public_key_hex = public_key_hex toy_crypto alice;
  addrs = "10.0.0.1:7777" ∷ [];
  gpu_model = none;
  vram_mb = none;
  paired_at = pos 1000;
  last_seen = none;
}

abbrev known : Peers
known = (alice.node_id, record_of_alice) ∷ []

-- The host knows and allows alice.
abbrev host : MeshNode
host = at_rest bob (allow default alice.node_id) known

abbrev greeting : ProtocolHello
greeting = make_hello env (at_rest alice default [])

allowed : authorize_inbound env host greeting ≡ ok tt
unfolding authorize_inbound is_permitted key_fits is_allowed is_desktop_allowed
    is_gpu_remote_allowed allow make_hello bare_hello lookup Set.contains Set.insert Set.remove
    Map.get default_config verify_hello sign_hello canonical_bytes toy_crypto from_seed
    public_key_hex node_id_from_verifying verify_signature node_id_from_public_hex sign_b64 ◌-ℤ◌
    ◌+ℤ◌ ltb_ℤ leb_ℤ
allowed = refl

abbrev opened : List (Result Message) → Conn
opened inbox = record {
  inbox = inbox;
  sent = [];
  link = ok tt;
  is_closed = false;
  peer_node_id = none;
  peer_name = none;
  connection_mode = ConnectionMode.direct;
}

abbrev calling : Conn
calling = opened (ok (hello greeting) ∷ [])

this_version : greeting.major ≡ protocol_major
unfolding make_hello sign_hello bare_hello
this_version = refl

handle_inbound_complete_example :
    ((handle_inbound env host calling).1 ≡ ok tt)
    × ((handle_inbound env host calling).0.1.peer_node_id ≡ some greeting.node_id)
handle_inbound_complete_example =
    handle_inbound_complete env host calling greeting [] refl refl this_version allowed

served :
    handle_inbound env host calling
    ≡ (((handle_inbound env host calling).0.0, (handle_inbound env host calling).0.1), ok tt)
served =
    ap
      (λ (r : Result (Unit {0})).
        (((handle_inbound env host calling).0.0, (handle_inbound env host calling).0.1), r))
      (handle_inbound_complete env host calling greeting [] refl refl this_version allowed).0

handle_inbound_sound_example :
    (peer : ProtocolHello) × (authorize_inbound env host peer ≡ ok tt)
    × (peer.major ≡ protocol_major)
    × IsNext (hello peer) calling.inbox (handle_inbound env host calling).0.1.inbox
    × ((handle_inbound env host calling).0.1.peer_node_id ≡ some peer.node_id)
    × ((handle_inbound env host calling).0.0.allowlist ≡ host.allowlist)
    × ((handle_inbound env host calling).0.0.config ≡ host.config)
    × ((handle_inbound env host calling).0.0.identity ≡ host.identity)
handle_inbound_sound_example =
    handle_inbound_sound env host (handle_inbound env host calling).0.0 calling
      (handle_inbound env host calling).0.1 served

abbrev dialling : MeshNode
dialling = record host { endpoint = some [] }

abbrev dial : List String → String → Result Conn
dial addrs id = ok (opened (ok (hello_ack greeting) ∷ []))

abbrev link : Conn
link = record (opened []) {
  sent = hello (make_hello env dialling) ∷ [];
  peer_node_id = some greeting.node_id;
  peer_name = some greeting.node_name;
}

begun : bootstrap env (files bob default known) ≡ ok (at_rest bob default known)
unfolding bootstrap load_config load_allowlist load_peers
begun = refl

allowing : (allow_peer env alice.node_id (at_rest bob default known)).1 ≡ ok tt
unfolding allow_peer resolve change_list save_allowlist lookup Map.get from_seed
    node_id_from_verifying toy_crypto
allowing = refl

abbrev allowed_node : MeshNode
allowed_node = (allow_peer env alice.node_id (at_rest bob default known)).0

begun_again : bootstrap env allowed_node.saved ≡ ok host
unfolding bootstrap load_config load_allowlist load_peers allow_peer resolve change_list
    save_allowlist lookup Map.get from_seed node_id_from_verifying toy_crypto allow Set.insert
    Set.remove
begun_again = refl

bootstrap-run_change_example :
    (r : PeerRecord) × (lookup alice.node_id known ≡ some r)
    × (allowed_node.allowlist ≡ change_of allows default r.node_id)
    × (host.allowlist ≡ allowed_node.allowlist)
bootstrap-run_change_example =
    bootstrap-run_change allows env env alice.node_id (at_rest bob default known) allowed_node host
      (ap (λ (r : Result (Unit {0})). (allowed_node, r)) allowing) begun_again

keyed : AreFiled (holds known)
keyed = (refl, unfold Map.get in refl, tt)

Reached-IsSound_example : IsSound (handle_inbound env allowed_node calling).0.0
Reached-IsSound_example =
    Reached-IsSound env (files bob default known) (handle_inbound env allowed_node calling).0.0
      keyed
      (next (next (started (at_rest bob default known) begun) (changes allows env alice.node_id))
        (accepts env calling))
