-- ===== src/Schedule/Tests.antt =====
-- A choice between two peers, of which the preferred one is busy.
use gpu_share.Protocol.{PeerInfoMsg}
use gpu_share.Base.{
  String, true, Option, none, some, List, [], ◌∷◌, ◌≡◌, refl, if◌then◌else◌, ◌==◌, nat_eq,
  string_eq,
}
use gpu_share.Common.{idle, busy, ok}
use gpu_share.Schedule.{
  result_of, is_eligible, score_all, sort_scored, schedule_peer, ScheduleRequest,
}

abbrev idle_info : PeerInfoMsg
idle_info = record {
  node_id = "n1";
  node_name = "one";
  gpu_model = some "RTX";
  vram_total_mb = some 8192;
  vram_free_mb = some 8000;
  utilization = some 3;
  temperature_c = none;
  status = idle;
  sharing = true;
  addrs = [];
}

abbrev busy_info : PeerInfoMsg
busy_info = record idle_info { node_id = "n2"; node_name = "two"; status = busy }

probe : String → Option PeerInfoMsg
probe id = if id == "n1" then some idle_info else some busy_info

abbrev request : ScheduleRequest
request = record { group = none; gpu_memory_mb = some 4096; prefer_peer = some "two" }

abbrev peers : List (String × String)
peers = ("n2", "two") ∷ ("n1", "one") ∷ []

idle_chosen : schedule_peer probe request peers ≡ ok (result_of "n1" "one" idle_info)
unfolding schedule_peer probe sort_scored score_all is_eligible
idle_chosen = refl
