-- ===== src/Store/Wal/Laws.antt =====
-- What a log that was written comes back as.
pub mod Torn
use mathlib.Core.List.{append_assoc, append-nil}
use agent_memory.Prelude.{
  ℕ, ◌+◌, ◌%◌, ◌≡◌, ◌≢◌, ◌<◌, true, false, List, [], ◌∷◌, ◌++◌, some, if◌then◌else◌, Text, ltb,
  ◌==◌, length, All, arith, ap, refl, sym, ◌∙◌,
}
use agent_memory.Types.Clock.{u64_mod}
use agent_memory.Types.Value.{Value, HistoryEntry}
use agent_memory.Store.Wal.{
  Wal, EntryCodec, Io, written, empty_wal, is_space, trim_right, bytes_trim_space, drop_cr,
  last_line, scan_from, max_line, load_lines, open_wal, append, reaches, succeeds,
}

abbrev NoFeed : Text → Type 0
NoFeed = All (λ c. (c == 10) ≡ false)

NoFeed-append : (s t : Text) → NoFeed s → NoFeed t → NoFeed (s ++ t)
NoFeed-append [] t h k = k
NoFeed-append (c ∷ s) t h k = (h.0, NoFeed-append s t h.1 k)

-- A line that is ended by a line feed is scanned as one token.
scan_line :
    (line b rest : Text)
    → NoFeed b
    → scan_from line (b ++ 10 ∷ rest) ≡ (line ++ b, drop_cr (line ++ b)) ∷ scan_from [] rest
unfolding scan_from
scan_line line [] rest h = rw append-nil refl
scan_line line (c ∷ b) rest h = rw h.0 (
    scan_line (line ++ c ∷ []) b rest h.1
    ∙ ap (λ (t : Text). (t, drop_cr t) ∷ scan_from [] rest) (append_assoc line (c ∷ []) b))

drop_cr-brace : (s : Text) → drop_cr (s ++ b'}' ∷ []) ≡ s ++ b'}' ∷ []
unfolding drop_cr
drop_cr-brace [] = refl
drop_cr-brace (c ∷ []) = refl
drop_cr-brace (c ∷ d ∷ s) = ap (◌∷◌ c) (drop_cr-brace (d ∷ s))

trim_right-brace : (c : ℕ) (s : Text) → is_space c ≡ false → trim_right (c ∷ s) ≢ []
unfolding trim_right
trim_right-brace c s h e = ground arith

nonempty : (t : Text) → t ≢ [] → (length t == 0) ≡ false
nonempty [] h = absurd (h refl)
nonempty (c ∷ t) h = ground arith

module _ ⦃codec : EntryCodec⦄ where
  module _ (e : HistoryEntry) where
    marshal-NoFeed : NoFeed (codec.marshal e)
    marshal-NoFeed =
        rw codec.braces
          (refl, NoFeed-append (codec.body e) (b'}' ∷ []) (codec.one_line e) (refl, tt))

    drop_cr-marshal : drop_cr (codec.marshal e) ≡ codec.marshal e
    drop_cr-marshal = rw codec.braces (drop_cr-brace (b'{' ∷ codec.body e))

    trim-marshal : (length (bytes_trim_space (codec.marshal e)) == 0) ≡ false
    unfolding bytes_trim_space
    trim-marshal =
        rw codec.braces (nonempty _ (trim_right-brace b'{' (codec.body e ++ b'}' ∷ []) refl))

  -- The bytes of a log: each entry on its line.
  abbrev pub file_of : List HistoryEntry → Text
  file_of [] = []
  file_of (e ∷ log) = codec.marshal e ++ 10 ∷ file_of log

  -- Every entry fits the scanner's buffer.
  abbrev pub Fits : List HistoryEntry → Type 0
  Fits = All (λ e. length (codec.marshal e) < max_line)

  abbrev pub max_seq : ℕ → List HistoryEntry → ℕ
  max_seq n [] = n
  max_seq n (e ∷ log) = max_seq (if ltb n e.seq then e.seq else n) log

  -- The entries of a log are read, whatever stands behind them.
  load-append :
      (w : Wal) (log : List HistoryEntry) (t : Text)
      → Fits log
      → load_lines w (scan_from [] (file_of log ++ t))
        ≡ load_lines (record w { log = w.log ++ log; seq = max_seq w.seq log }) (scan_from [] t)
  unfolding load_lines
  load-append w [] t h = rw append-nil refl
  load-append w (e ∷ log) t h =
      let fits : ltb (length (codec.marshal e)) max_line ≡ true = ground arith in
      let seq' = if ltb w.seq e.seq then e.seq else w.seq in
      let w' : Wal = record w { log = w.log ++ e ∷ []; seq = seq' } in
      rw
        (
          append_assoc (codec.marshal e) (10 ∷ file_of log) t,
          scan_line [] (codec.marshal e) (file_of log ++ t) (marshal-NoFeed e),
          drop_cr-marshal e,
          fits,
          trim-marshal e,
          codec.roundtrip e,
        )
        (load-append w' log t h.1
          ∙ ap
              (λ (l : List HistoryEntry).
                load_lines (record w { log = l; seq = max_seq seq' log }) (scan_from [] t))
              (append_assoc w.log (e ∷ []) log))

  load-file_of :
      (w : Wal) (log : List HistoryEntry)
      → Fits log
      → load_lines w (scan_from [] (file_of log))
        ≡ some (record w { log = w.log ++ log; seq = max_seq w.seq log })
  unfolding load_lines scan_from last_line
  load-file_of w log h =
      ap (λ t. load_lines w (scan_from [] t)) (sym (append-nil (file_of log)))
      ∙ load-append w log [] h

  -- The file holds the log, and the sequence number is the greatest of it.
  pub record IsDurable (w : Wal) : Type 0 where
    pub on_disk : w.file ≡ some (file_of w.log)
    pub counted : max_seq 0 w.log ≡ w.seq
    pub fits : Fits w.log

  -- A log whose file holds its entries, one to a line that fits the buffer of the scanner, and
  -- whose sequence number is the greatest of them, opens again as it was.
  pub open_wal-IsDurable : (w : Wal) → IsDurable w → open_wal w.file ≡ some w
  unfolding open_wal
  open_wal-IsDurable w d =
      ap open_wal d.on_disk
      ∙ (load-file_of (record empty_wal { file = some (file_of w.log) }) w.log d.fits ∙ same)
    where
      same : some (record w { file = some (file_of w.log); seq = max_seq 0 w.log }) ≡ some w
      same = ground (arith, d.on_disk, d.counted)

  max_seq-append :
      (n : ℕ) (log : List HistoryEntry) (e : HistoryEntry)
      → max_seq n (log ++ e ∷ []) ≡ (if ltb (max_seq n log) e.seq then e.seq else max_seq n log)
  max_seq-append n [] e = refl
  max_seq-append n (x ∷ log) e = max_seq-append (if ltb n x.seq then x.seq else n) log e

  file_of-append :
      (log : List HistoryEntry) (e : HistoryEntry)
      → file_of (log ++ e ∷ []) ≡ file_of log ++ (codec.marshal e ++ 10 ∷ [])
  file_of-append [] e = refl
  file_of-append (x ∷ log) e =
      rw (file_of-append log e) (sym (append_assoc (codec.marshal x) (10 ∷ file_of log) _))

  Fits-append :
      (log : List HistoryEntry) (e : HistoryEntry)
      → Fits log
      → length (codec.marshal e) < max_line
      → Fits (log ++ e ∷ [])
  Fits-append [] e h k = (k, tt)
  Fits-append (x ∷ log) e h k = (h.0, Fits-append log e h.1 k)

  -- The entry of an append, and the log after it.
  abbrev pub next_entry : Text → Value → Wal → HistoryEntry
  next_entry key v w = record { seq = (w.seq + 1) % u64_mod; key = key; value = v }

  -- Whatever the file system does, the entry is in the log in memory.
  pub log-append :
      (io : Io) (key : Text) (v : Value) (w : Wal)
      → ((append io key v w).1 ≡ next_entry key v w)
        × ((append io key v w).0.log ≡ w.log ++ next_entry key v w ∷ [])
  unfolding append
  log-append io key v w = ground arith

  -- A write that succeeds is no error, and without a file there is no error.
  pub done-append : (key : Text) (v : Value) (w : Wal) → (append written key v w).2 ≡ true
  unfolding append
  done-append key v w = ground arith

  append-some :
      (io : Io) (key : Text) (v : Value) (w : Wal) (bytes : Text)
      → w.file ≡ some bytes
      → append io key v w ≡ (
        record {
          file = some (bytes ++ reaches io (codec.marshal (next_entry key v w) ++ 10 ∷ []));
          seq = (w.seq + 1) % u64_mod;
          log = w.log ++ next_entry key v w ∷ [];
        },
        next_entry key v w,
        succeeds io,
      )
  unfolding append
  append-some io key v w bytes h = ground arith

  -- An append that the file system carries out keeps the file and the log in step, if the next
  -- sequence number is below 2^64 and the line fits the buffer of the scanner.
  pub append-IsDurable :
      (w : Wal) (key : Text) (v : Value)
      → IsDurable w
      → w.seq + 1 < u64_mod
      → length (codec.marshal (next_entry key v w)) < max_line
      → IsDurable (append written key v w).0
  append-IsDurable w key v d h k =
      rw (append-some written key v w (file_of w.log) d.on_disk) (record {
        on_disk = ap some (sym (file_of-append w.log (next_entry key v w)));
        counted = ground (arith, max_seq-append 0 w.log (next_entry key v w), d.counted);
        fits = Fits-append w.log (next_entry key v w) d.fits k;
      })
