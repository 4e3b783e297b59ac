-- ===== src/Tests/Store.antt =====
-- The theorems on the store at concrete inputs, and runs of its operations.
use agent_memory.Prelude.{◌≡◌, refl, [], none, some, take, ◌==◌, arith, if◌then◌else◌}
use agent_memory.Prelude.Order.{list_ord}
use agent_memory.Store.Kv
use agent_memory.Store.Kv.{Kv, new_kv, has_prefix, prefix}
use agent_memory.Store.Kv.Laws.{IsValid, new_kv-IsValid, apply-IsValid}
use agent_memory.Store.Wal
use agent_memory.Store.Wal.{Wal, Io, written, short, empty_wal, open_wal, drop_cr}
use agent_memory.Store.Wal.Laws.Torn.{open_wal-short}
use agent_memory.Store.Wal.Laws.{next_entry, IsDurable, append-IsDurable, open_wal-IsDurable}
use agent_memory.Tests.Codec.{framed_entries}
use agent_memory.Tests.Values.{red, color}

-- A log on an empty file.
abbrev on_empty : Wal
on_empty = record empty_wal { file = some [] }

on_empty-IsDurable : IsDurable on_empty
on_empty-IsDurable = record { on_disk = refl; counted = refl; fits = tt }

appended-IsDurable : IsDurable (Wal.append written color red on_empty).0
appended-IsDurable =
    append-IsDurable on_empty color red on_empty-IsDurable (omega arith) (omega arith)

open_wal-IsDurable_example :
    open_wal (Wal.append written color red on_empty).0.file
    ≡ some (Wal.append written color red on_empty).0
open_wal-IsDurable_example =
    open_wal-IsDurable (Wal.append written color red on_empty).0 appended-IsDurable

apply-IsValid_example : IsValid (Kv.apply color red new_kv).0
apply-IsValid_example = apply-IsValid new_kv color red new_kv-IsValid

broken_line :
    framed_entries.unmarshal
      (drop_cr (take 3 (framed_entries.marshal (next_entry color red on_empty))))
    ≡ none
unfolding drop_cr
broken_line = refl

open_wal-short_example :
    open_wal (Wal.append (short 3) color red on_empty).0.file
    ≡ (if 3 == 0 then some on_empty else none)
open_wal-short_example =
    open_wal-short on_empty color red 3 on_empty-IsDurable (omega arith) broken_line
