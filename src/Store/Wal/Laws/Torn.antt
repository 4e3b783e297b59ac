-- ===== src/Store/Wal/Laws/Torn.antt =====
-- A log whose last line was written in part.
use mathlib.Core.List.{append_assoc, append-nil}
use agent_memory.Prelude.{
  ℕ, zero, suc, ◌≡◌, ◌<◌, refl, ap, sym, subst, ◌∙◌, Bool, false, not, [], ◌∷◌, ◌++◌, Option, none,
  some, if◌then◌else◌, Text, ltb, ◌==◌, length, take, take-All, take_before, arith,
}
use agent_memory.Types.Value.{Value}
use agent_memory.Store.Wal.{
  Wal, EntryCodec, short, empty_wal, bytes_trim_space, drop_cr, last_line, scan_from, max_line,
  load_lines, open_wal, append, scan_lines,
}
use agent_memory.Store.Wal.Laws.{
  NoFeed, trim_right-brace, nonempty, marshal-NoFeed, file_of, IsDurable, open_wal-IsDurable,
  load-append, next_entry, append-some,
}

scan-last : (line t : Text) → NoFeed t → scan_from line t ≡ last_line (line ++ t)
unfolding scan_from
scan-last line [] h = rw append-nil refl
scan-last line (c ∷ t) h =
    rw h.0 (scan-last (line ++ c ∷ []) t h.1 ∙ ap last_line (append_assoc line (c ∷ []) t))

drop_cr-front : (c : ℕ) (s : Text) → (c == 13) ≡ false → (t : Text) × (drop_cr (c ∷ s) ≡ c ∷ t)
unfolding drop_cr
drop_cr-front c [] h = ([], rw h refl)
drop_cr-front c (d ∷ s) h = (drop_cr (d ∷ s), refl)

never_zero : {A : Type 0} (k : ℕ) (x : Option A) → (if suc k == 0 then x else none) ≡ none
never_zero k x = ground arith

broken_if :
    {A : Type 0} (a b : Bool) (x : Option A)
    → b ≡ false
    → (if not a then none else if b then x else none) ≡ none
broken_if a b x h = ground (arith, h)

-- What begins with a brace and does not parse is an error of the log.
module _ ⦃codec : EntryCodec⦄ where
  load_broken :
      (w : Wal) (s : Text)
      → codec.unmarshal (drop_cr (b'{' ∷ s)) ≡ none
      → load_lines w ((b'{' ∷ s, drop_cr (b'{' ∷ s)) ∷ []) ≡ none
  unfolding load_lines bytes_trim_space
  load_broken w s h =
      let (t, e) = drop_cr-front b'{' s refl in
      let full : (length (bytes_trim_space (b'{' ∷ t)) == 0) ≡ false =
        nonempty _ (trim_right-brace b'{' t refl) in
      rw h (
        broken_if (ltb (length (b'{' ∷ s)) max_line)
          (length (bytes_trim_space (drop_cr (b'{' ∷ s))) == 0) (some w) (rw e full))

  -- The file after a write of `k` bytes.
  torn_file :
      (w : Wal) (key : Text) (v : Value) (k : ℕ)
      → IsDurable w
      → k < length (codec.marshal (next_entry key v w))
      → (append (short k) key v w).0.file
        ≡ some (file_of w.log ++ take k (codec.marshal (next_entry key v w)))
  torn_file w key v k d h = rw (append-some (short k) key v w (file_of w.log) d.on_disk) (
      ap (λ t. some (file_of w.log ++ t))
        (take_before k (codec.marshal (next_entry key v w)) (10 ∷ []) h))

  load_torn :
      (w : Wal) (s : Text)
      → NoFeed (b'{' ∷ s)
      → codec.unmarshal (drop_cr (b'{' ∷ s)) ≡ none
      → load_lines w (scan_from [] (b'{' ∷ s)) ≡ none
  unfolding last_line
  load_torn w s n h = ap (load_lines w) (scan-last [] (b'{' ∷ s) n) ∙ load_broken w s h

  -- The log of a file with a line that is torn behind its entries.
  open_torn :
      (w : Wal) (s : Text)
      → IsDurable w
      → NoFeed (b'{' ∷ s)
      → codec.unmarshal (drop_cr (b'{' ∷ s)) ≡ none
      → open_wal (some (file_of w.log ++ b'{' ∷ s)) ≡ none
  unfolding open_wal scan_lines
  open_torn w s d n h =
      load-append (record empty_wal { file = some (file_of w.log ++ b'{' ∷ s) }) w.log (b'{' ∷ s)
        d.fits
      ∙ load_torn _ s n h

  -- A log in which a write ended in the middle of its line does not open again, and one in which no
  -- byte of the line was written opens as it was before, if what was written does not parse as an
  -- entry and the log held its entries before.
  pub open_wal-short :
      (w : Wal) (key : Text) (v : Value) (k : ℕ)
      → IsDurable w
      → k < length (codec.marshal (next_entry key v w))
      → codec.unmarshal (drop_cr (take k (codec.marshal (next_entry key v w)))) ≡ none
      → open_wal (append (short k) key v w).0.file ≡ (if k == 0 then some w else none)
  open_wal-short w key v zero d h broken =
      ap open_wal
        (torn_file w key v zero d h ∙ ap some (append-nil (file_of w.log)) ∙ sym d.on_disk)
      ∙ open_wal-IsDurable w d
  open_wal-short w key v (suc k) d h broken =
      let e = next_entry key v w in
      let s = take k (codec.body e ++ b'}' ∷ []) in
      let front : take (suc k) (codec.marshal e) ≡ b'{' ∷ s = ap (take (suc k)) (codec.braces e) in
      let nf : NoFeed (b'{' ∷ s) =
        subst NoFeed front (take-All _ (suc k) (codec.marshal e) (marshal-NoFeed e)) in
      ap open_wal (torn_file w key v (suc k) d h ∙ ap (λ t. some (file_of w.log ++ t)) front)
      ∙ open_torn w s d nf (subst (λ t. codec.unmarshal (drop_cr t) ≡ none) front broken)
      ∙ sym (never_zero k (some w))
