-- ===== src/Tests/Node.antt =====
-- The theorems on the coordinator in a cluster of three nodes.
use agent_memory.Prelude.{
  ◌<◌, ◌≤◌, ◌≡◌, ◌≢◌, refl, ap, true, false, List, [], ◌∷◌, Option, none, some, Text, codes, arith,
  eq_text, elem, NoDup,
}
use agent_memory.Prelude.Int.{pos}
use agent_memory.Map.{lookup, insert}
use agent_memory.Types.Version.{equal_version}
use agent_memory.Types.Clock.{tick, observe}
use agent_memory.Types.Value.{equal_value, Policy, WriteReq, ReadReq}
use agent_memory.Conflict.Resolve.{resolve, resolve_many, resolve_view, agreed}
use agent_memory.Repair.Scan.{stale_among}
use agent_memory.Conflict.Resolve.Laws.{IsOf}
use agent_memory.Store.Kv
use agent_memory.Store.Wal.{written}
use agent_memory.Cluster
use agent_memory.Cluster.{Peer, Membership}
use agent_memory.Node.Replica
use agent_memory.Node.Replica.{new_replica, merge_incoming, log_and_store, store_merged}
use agent_memory.Node.Coordinator.{
  World, Fate, delivered, lost, validate_quorum, start_write, serve_read, update, replicate_write,
  apply_replicate, local_prepare,
}
use agent_memory.Node.Coordinator.Write.{
  WriteResp, Event, finishes, success, write, goroutine, run, step, receive, finish_loop,
}
use agent_memory.Node.Coordinator.Read.{
  ReadResp, no_error, Answer, answers, read, collect, has_ended, view_of, respond,
}
use agent_memory.Node.Coordinator.Acked.{AllUnder}
use agent_memory.Node.Coordinator.Quorum.{Sub}
use agent_memory.Node.Coordinator.Answered.{successes, write_answers, write_succeeds}
use agent_memory.Node.Coordinator.Handoff.{IsCovered, write_covers}
use agent_memory.Node.Coordinator.Visible.{deliver_all, payload}
use agent_memory.Node.Coordinator.Overlap.{read_after_write}
use agent_memory.Store.Kv.{new_kv}
use agent_memory.Prelude.Order.{list_ord}
use agent_memory.Tests.Codec.{framed_codec, framed_entries}
use agent_memory.Tests.Values.{color}

abbrev pub n1 : Text
n1 = codes "n1"

abbrev pub n2 : Text
n2 = codes "n2"

abbrev pub n3 : Text
n3 = codes "n3"

abbrev pub three : Membership
three = record {
  self = n1;
  peers =
      record { id = n1; addr = [] }
      ∷ record { id = n2; addr = [] }
      ∷ record { id = n3; addr = [] }
      ∷ [];
}

abbrev pub cluster : World
cluster = λ id. record {
  id = id;
  members = record three { self = id };
  replica = new_replica id none;
  hints = [];
  tag_counter = 0;
  read_repair = true;
}

abbrev pub paint : WriteReq
paint = record {
  key = color;
  content = codes "red";
  policy = Policy.lww;
  w = pos 2;
  client_ts = pos 0;
  orset_op = [];
  orset_elem = [];
  tombstone = false;
}

-- The request to `n2` is lost.
abbrev pub schedule : List Event
schedule = finishes n3 (delivered written) ∷ finishes n2 lost ∷ finishes n1 (delivered written) ∷ []

pub cluster-AllUnder : AllUnder Policy.lww color cluster
unfolding new_replica Replica.get Kv.get lookup
cluster-AllUnder id cur e = absurd (cc (e))

pub schedule-NoDup : NoDup (n3 ∷ n2 ∷ n1 ∷ [])
unfolding eq_text
schedule-NoDup = (refl, (refl, (refl, tt)))

pub schedule-Sub : Sub (n3 ∷ n2 ∷ n1 ∷ []) (Cluster.ids three)
unfolding Cluster.ids Cluster.ids_of
schedule-Sub t h = ground arith

pub replies-NoDup : NoDup (n2 ∷ n3 ∷ [])
unfolding eq_text
replies-NoDup = (refl, (refl, tt))

pub replies-Sub : Sub (n2 ∷ n3 ∷ []) (Cluster.ids three)
unfolding Cluster.ids Cluster.ids_of
replies-Sub t h = ground arith

pub three_small : Cluster.n three < 4
unfolding Cluster.n
three_small = omega arith

all : Cluster.n three ≤ 3
unfolding Cluster.n
all = omega arith

some_peer : 0 < Cluster.n three
unfolding Cluster.n
some_peer = omega arith

there : elem n2 (n3 ∷ n2 ∷ n1 ∷ []) ≡ true
unfolding eq_text
there = refl

differ_back : eq_text n2 n1 ≡ false
unfolding eq_text
differ_back = refl

pub differ : eq_text n1 n2 ≡ false
unfolding eq_text
differ = refl

fine : validate_quorum (pos 2) (cluster n1) ≡ true
unfolding validate_quorum Cluster.n
fine = refl

two_successes :
    successes n1 color
      (payload n1 paint schedule cluster)
      schedule
      (update n1 (start_write paint (cluster n1)).0 cluster)
    ≡ 2
unfolding successes goroutine eq_text replicate_write apply_replicate Replica.apply merge_incoming
    log_and_store store_merged Kv.apply Kv.get lookup insert update new_replica start_write
    local_prepare tick observe Replica.get equal_value
two_successes = refl

-- Two nodes answer the read; the one that the write did not reach has no value.
abbrev pub look : ReadReq
look = record { key = color; r = pos 2 }

abbrev pub replies : List Answer
replies = answers n2 ∷ answers n3 ∷ []

abbrev pub no_repairs : Text → Fate
no_repairs id = lost

abbrev pub wrote : WriteResp
wrote = success (start_write paint (cluster n1)).1 2

abbrev pub w1 : World
w1 = (write n1 paint schedule cluster).0

abbrev pub got : ReadResp
got = record {
  value = payload n1 paint schedule cluster;
  found = true;
  replicas_responded = 2;
  replicas_agreed = true;
  repaired = false;
  error = no_error;
}

pub write-wrote : write n1 paint schedule cluster ≡ (w1, some wrote)
write-wrote =
    ap (λ (r : Option WriteResp). (w1, r))
      (write_succeeds n1 paint schedule cluster fine 2 refl schedule-NoDup schedule-Sub
        (omega (arith, two_successes)))

pub wrote_ok : wrote.ok ≡ true
unfolding success
wrote_ok = refl

pub read-got : (read n2 look no_repairs replies w1).1 ≡ some got
unfolding read collect has_ended view_of serve_read Replica.reads_enabled respond resolve_many
    resolve_view agreed stale_among validate_quorum Cluster.n write run step receive finish_loop
    goroutine eq_text replicate_write apply_replicate Replica.apply merge_incoming log_and_store
    store_merged Kv.apply Kv.get lookup insert update new_replica start_write local_prepare tick
    observe Replica.get equal_value equal_version
read-got = refl

read_after_write_example :
    IsOf Policy.lww got.value × (resolve (payload n1 paint schedule cluster) got.value ≡ got.value)
unfolding deliver_all
read_after_write_example =
    read_after_write n1 n2 paint look cluster schedule [] no_repairs replies w1
      (read n2 look no_repairs replies w1).0 wrote got 2 2 cluster-AllUnder schedule-NoDup
      schedule-Sub write-wrote wrote_ok tt replies-NoDup replies-Sub refl
      (ap (λ (r : Option ReadResp). ((read n2 look no_repairs replies w1).0, r)) read-got) refl refl
      refl three_small

write_covers_example :
    IsCovered n1 Policy.lww color
      (payload n1 paint schedule cluster)
      n2
      (write n1 paint schedule cluster).0
write_covers_example =
    write_covers n1 paint schedule cluster n2 cluster-AllUnder fine there differ_back

write_answers_example : (write n1 paint schedule cluster).1 ≢ none
write_answers_example = write_answers n1 paint schedule cluster fine all some_peer
