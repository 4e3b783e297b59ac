-- ===== src/Tests/Command.antt =====
-- The theorems on the commands and on the start of a node, at concrete inputs, and a run of its timer.
use agent_memory.Prelude.{
  ◌≡◌, refl, true, false, not, ◌&&◌, [], ◌∷◌, none, some, Text, codes, eq_text, to_lower, ◌==◌,
}
use agent_memory.Prelude.Int.{ℤ, pos}
use agent_memory.Node.Lifecycle.{
  looping, waiting, Timers, no_timers, start_anti_entropy, stop_anti_entropy, is_closed, starts,
  stops, selects, ticks, Reach, fresh, next,
}
use agent_memory.Node.Lifecycle.Laws.{stop_never_panics, stopped_loops_end}
use agent_memory.Node.Server.{Site, reply}
use agent_memory.Node.Server.Client.{write_status}
use agent_memory.Node.Server.Routes.{waits, serve}
use agent_memory.AgentApi.{add_tag, remove_tag}
use agent_memory.Command.Start.{Flags, wal_path}
use agent_memory.Command.Memctl.{Options, default_options, cmd_tag}
use agent_memory.Command.Memctl.Laws.{request_of}
use agent_memory.Command.Memctl.Laws.Posts.{serve-cmd_tag}
use agent_memory.Tests.Codec.{framed_codec, framed_entries}
use agent_memory.Tests.Http.{framed_json, framed_marshal}
use agent_memory.Tests.Node.{n1, cluster}
use agent_memory.Tests.Server.{during}

abbrev site : Site
site = record { nodes = cluster; nets = λ id. none }

-- memctl read -key user:color
abbrev look_up : Options
look_up = record default_options { key = codes "user:color" }

-- memctl add-tag -entity user -tag vip
abbrev vip : Options
vip = record default_options { entity = codes "user"; tag = codes "vip" }

serve-cmd_tag_example :
    (serve n1 during (request_of framed_marshal (cmd_tag (codes "POST") vip)) site
      ≡ waits
          (reply write_status
            (add_tag n1 (codes "user") (codes "vip") (pos 2) during.events cluster))
          site)
    × (serve n1 during (request_of framed_marshal (cmd_tag (codes "DELETE") vip)) site
        ≡ waits
            (reply write_status
              (remove_tag n1 (codes "user") (codes "vip") (pos 2) during.events cluster))
            site)
serve-cmd_tag_example = serve-cmd_tag framed_marshal n1 during site vip refl

abbrev every : ℤ
every = pos 500000000

-- The timer is started, its loop comes to its `select`, and the timer is stopped.
abbrev on_timers : Timers
on_timers = record { on = true; every = every; channel = 1; closed = []; loops = waiting 1 ∷ [] }

abbrev off_timers : Timers
off_timers = record {
  on = false;
  every = every;
  channel = 1;
  closed = 1 ∷ [];
  loops = waiting 1 ∷ [];
}

on-Reach : Reach every on_timers
unfolding start_anti_entropy
on-Reach =
    next (start_anti_entropy (no_timers every)) on_timers
      (next (no_timers every) (start_anti_entropy (no_timers every)) fresh
        (starts (no_timers every)))
      (selects (start_anti_entropy (no_timers every)) [] [] refl)

off-Reach : Reach every off_timers
unfolding stop_anti_entropy
off-Reach = next on_timers off_timers on-Reach (stops on_timers)

stop_never_panics_example : (on_timers.on && is_closed 1 []) ≡ false
stop_never_panics_example = stop_never_panics every on_timers on-Reach

stopped_loops_end_example :
    is_closed 1 off_timers.closed ≡ not (off_timers.on && (1 == off_timers.channel))
stopped_loops_end_example = stopped_loops_end every off_timers [] [] 1 off-Reach refl

-- A stop and a start while the loop works leave two loops behind.
abbrev two_timers : Timers
two_timers = record {
  on = true;
  every = every;
  channel = 2;
  closed = 1 ∷ [];
  loops = waiting 2 ∷ waiting 2 ∷ [];
}

two_loops : Reach every two_timers
unfolding start_anti_entropy stop_anti_entropy
two_loops =
    let working : Timers = record on_timers { loops = looping ∷ [] } in
    let stopped : Timers = record off_timers { loops = looping ∷ [] } in
    let again : Timers = record two_timers { loops = looping ∷ looping ∷ [] } in
    let first : Timers = record two_timers { loops = waiting 2 ∷ looping ∷ [] } in
    next first two_timers
      (next again first
        (next stopped again
          (next working stopped (next on_timers working on-Reach (ticks on_timers [] [] 1 refl))
            (stops working))
          (starts stopped))
        (selects again [] (looping ∷ []) refl))
      (selects first (waiting 2 ∷ []) [] refl)

abbrev alone : Flags
alone = record { id = some (codes "A"); peers = none; wal = none; anti_entropy = none }

abbrev no_vars : Text → Text
no_vars key = []

abbrev no_files : Text → Text
no_files path = []

-- The folder has one file for both.
same_log : wal_path (codes "A") [] ≡ wal_path (codes "a") []
unfolding wal_path eq_text to_lower
same_log = refl
