-- ===== src/Store/Wal.antt =====
-- internal/store/wal.go: the write-ahead log, one JSON entry to a line. The file is its bytes; what
-- the operating system does to a write is an argument of the call.
pub mod Laws
use agent_memory.Prelude.{
  ℕ, ◌+◌, ◌%◌, ◌*◌, ◌≡◌, ◌<◌, Bool, true, false, ◌&&◌, ◌||◌, not, List, [], ◌∷◌, ◌++◌, Option, none,
  some, if◌then◌else◌, Text, ltb, leb, ◌==◌, length, take, eq_text, All,
}
use agent_memory.Types.Clock.{u64_mod}
use agent_memory.Types.Value.{Value, HistoryEntry}

-- `json.Marshal` and `json.Unmarshal` at `HistoryEntry`, as bytes. The output is one object on one
-- line: it begins with a brace and ends with one, and holds no line feed.
pub record EntryCodec : Type 0 where
  pub marshal : HistoryEntry → Text
  pub unmarshal : Text → Option HistoryEntry
  pub roundtrip : (e : HistoryEntry) → unmarshal (marshal e) ≡ some e
  pub body : HistoryEntry → Text
  pub braces : (e : HistoryEntry) → marshal e ≡ b'{' ∷ (body e ++ b'}' ∷ [])
  pub one_line : (e : HistoryEntry) → All (λ c. (c == 10) ≡ false) (body e)

-- `file` is `none` for a log with no path.
pub record Wal : Type 0 where
  pub file : Option Text
  pub seq : ℕ
  pub log : List HistoryEntry

abbrev pub empty_wal : Wal
empty_wal = record { file = none; seq = 0; log = [] }

-- What becomes of `Write` and `Sync`: all is on disk, the first bytes alone are written, or the
-- bytes are written and the sync fails.
pub data Io : Type 0 where
  written : Io
  short : ℕ → Io
  unsynced : Io

abbrev pub is_space : ℕ → Bool
is_space c = c == b' ' || (c == 9 || (c == 10 || c == 13))

-- The first loop of `bytesTrimSpace`.
trim_left : Text → Text
trim_left [] = []
trim_left (c ∷ s) = let rest = trim_left s in if is_space c then rest else c ∷ s

-- The second loop.
trim_right : Text → Text
trim_right [] = []
trim_right (c ∷ s) = elim (trim_right s) [
  | [] ↦ if is_space c then [] else c ∷ []
  | d ∷ t ↦ c ∷ d ∷ t
]

unfoldable pub bytes_trim_space : Text → Text
unfolding trim_left trim_right
bytes_trim_space b = trim_right (trim_left b)

-- A scanned line without its carriage return.
unfoldable pub drop_cr : Text → Text
drop_cr [] = []
drop_cr (c ∷ []) = if c == 13 then [] else c ∷ []
drop_cr (c ∷ d ∷ s) = c ∷ drop_cr (d ∷ s)

-- bufio.ScanLines; `line` is what is read of the current line. A last line with no line feed counts
-- unless it is empty.
last_line : Text → List (Text × Text)
last_line [] = []
last_line (c ∷ line) = (c ∷ line, drop_cr (c ∷ line)) ∷ []

scan_from : Text → Text → List (Text × Text)
scan_from line [] = last_line line
scan_from line (c ∷ s) =
    let next = (line, drop_cr line) ∷ scan_from [] s in
    let more = scan_from (line ++ c ∷ []) s in if c == 10 then next else more

-- The raw lines of a file, each beside the token that the scanner returns for it.
unfoldable pub scan_lines : Text → List (Text × Text)
unfolding scan_from last_line drop_cr
scan_lines = scan_from []

-- 8*1024*1024, the limit on the scanner's buffer
abbrev pub max_line : ℕ
max_line = 8388608

-- The bytes that reach the file.
abbrev pub reaches : Io → Text → Text
reaches written b = b
reaches (short n) b = take n b
reaches unsynced b = b

abbrev pub succeeds : Io → Bool
succeeds written = true
succeeds _ = false

module _ ⦃codec : EntryCodec⦄ where
  -- The loop of `load`; `none` is an error, of a line that is too long or that does not parse.
  load_lines : Wal → List (Text × Text) → Option Wal
  load_lines w [] = some w
  load_lines w ((raw, line) ∷ lines) =
      let skipped = load_lines w lines in
      if not (ltb (length raw) max_line)
      then none
      else if length (bytes_trim_space line) == 0
      then skipped
      else elim (codec.unmarshal line) [
        | none ↦ none
        | some e ↦
            load_lines
              (record w { log = w.log ++ e ∷ []; seq = if ltb w.seq e.seq then e.seq else w.seq })
              lines
      ]

  -- `OpenWAL` at a file that can be opened, with the bytes that it holds; `none` for an empty path.
  unfoldable pub open_wal : Option Text → Option Wal
  unfolding load_lines scan_lines
  open_wal none = some empty_wal
  open_wal (some bytes) = load_lines (record empty_wal { file = some bytes }) (scan_lines bytes)

  -- The new log, the entry, and whether the error is nil.
  unfoldable pub append : Io → Text → Value → Wal → Wal × HistoryEntry × Bool
  append io key v w =
      let seq' = (w.seq + 1) % u64_mod in
      let e : HistoryEntry = record { seq = seq'; key = key; value = v } in
      let w' : Wal = record w { seq = seq'; log = w.log ++ e ∷ [] } in
      elim w.file [
        | none ↦ (w', e, true)
        | some bytes ↦ (
          record w' { file = some (bytes ++ reaches io (codec.marshal e ++ 10 ∷ [])) },
          e,
          succeeds io,
        )
      ]

-- `Close`: whether the error is nil. `closed` is what the operating system says of closing the file.
unfoldable pub close : Bool → Wal → Bool
close closed w = elim w.file [ none ↦ true | some bytes ↦ closed ]

-- The loop of `History`.
unfoldable pub history_of : Text → List HistoryEntry → List HistoryEntry
history_of key [] = []
history_of key (e ∷ log) =
    let rest = history_of key log in if eq_text e.key key then e ∷ rest else rest

unfoldable pub history : Text → Wal → List HistoryEntry
unfolding history_of
history key w = history_of key w.log

unfoldable pub replay : Wal → List HistoryEntry
replay w = w.log
