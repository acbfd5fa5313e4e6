-- ===== src/Dest/Exact.antt =====
-- internal/dest/s3/exact.go: the body of a write of exactly so many bytes.
pub mod Whole
use gitdr.Common.{
  ℕ, zero, suc, ◌+◌, ◌-◌, ◌^◌, Bool, true, false, not, Option, none, some, List, [], ◌∷◌, ◌++◌,
  Text, length, if◌then◌else◌, ltb, ◌==◌, min, ℤ, pos, negsuc,
}
use gitdr.Dest.Reader.{
  ReadError, eof, no_progress, moved_outside, holds_more, ended_after, is_eof, ReadResult,
}

-- `exactReader`: where it stands from the artifact's start, and the error that ended it.
pub record ExactReader (S : Type 0) : Type 0 where
  pub inner : S
  pub n : ℤ
  pub error : Option ReadError

-- A read's answer, with what it took from the stream below.
pub record ExactRead (S : Type 0) : Type 0 where
  pub bytes : Text
  pub error : Option ReadError
  pub after : ExactReader S
  pub taken : Text

abbrev pub empty_reads : ℕ
empty_reads = 100

abbrev pub end_error : ℕ → Option ReadError → Option ReadError
end_error n error = if is_eof error then some (ended_after n) else error

-- The error of the read that completes the artifact: none where it passed bytes on.
abbrev pub last_error : Text → Option ReadError
last_error [] = some eof
last_error (_ ∷ _) = none

module _ {S : Type 0} (read : S → ℕ → ReadResult S) (size : ℕ) where
  -- `past`.
  unfoldable pub past : ℕ → S → ReadResult S
  past zero s = record { bytes = []; error = some no_progress; after = s }
  past (suc left) s =
      let r = read s 1 in
      let later = past left r.after in
      if ltb 0 (length r.bytes)
      then record { bytes = r.bytes; error = some holds_more; after = r.after }
      else elim r.error [
        | none ↦ later
        | some e ↦ record { bytes = []; error = some e; after = r.after }
      ]

  -- The end of `Read`: what completes the artifact passes only where the stream ends.
  abbrev pub complete : ℕ → Text → Text → Option ReadError → S → ExactRead S
  complete n got taken error s =
      if not (is_eof error)
      then record {
        bytes = [];
        error = error;
        after = record { inner = s; n = pos n; error = error };
        taken = taken;
      }
      else record {
        bytes = got;
        error = last_error got;
        after = record { inner = s; n = pos (n + length got); error = some eof };
        taken = taken;
      }

  -- With bytes that may complete the artifact, and the error they came with.
  unfoldable pub pass_on : ℕ → ReadResult S → ExactRead S
  unfolding past
  pass_on n r =
      if ltb (n + length r.bytes) size
      then record {
        bytes = r.bytes;
        error = end_error (n + length r.bytes) r.error;
        after = record {
          inner = r.after;
          n = pos (n + length r.bytes);
          error = end_error (n + length r.bytes) r.error;
        };
        taken = r.bytes;
      }
      else elim r.error [
        | some e ↦ complete n r.bytes r.bytes (some e) r.after
        | none ↦
            let q = past empty_reads r.after in
            complete n r.bytes (r.bytes ++ q.bytes) q.error q.after
      ]

  -- The read below, left out where there is no room for it.
  abbrev pub ask_below : S → ℕ → ReadResult S
  ask_below s want =
      if want == 0 then record { bytes = []; error = none; after = s } else read s want

  abbrev pub unmoved : ExactReader S → Option ReadError → ExactRead S
  unmoved e error = record { bytes = []; error = error; after = e; taken = [] }

  abbrev pub outside : ExactReader S → ExactRead S
  outside e = unmoved (record e { error = some moved_outside }) (some moved_outside)

  abbrev pub read_at : ExactReader S → ℤ → ℕ → ExactRead S
  read_at e (negsuc _) room = outside e
  read_at e (pos n) room =
      if ltb size n then outside e else pass_on n (ask_below e.inner (min room (size - n)))

  -- `Read`, into room for so many bytes.
  unfoldable pub read_exact : ExactReader S → ℕ → ExactRead S
  unfolding pass_on
  read_exact e room = elim e.error [
    | some err ↦ unmoved e (some err)
    | none ↦ if room == 0 then unmoved e none else read_at e e.n room
  ]

  -- Reads in a row: what they pass on, what they take, and the reader after them.
  unfoldable pub read_exactly : ExactReader S → List ℕ → Text × Text × ExactReader S
  unfolding read_exact
  read_exactly e [] = ([], [], e)
  read_exactly e (room ∷ rooms) =
      let r = read_exact e room in
      let (passed, taken, after) = read_exactly r.after rooms in
      (r.bytes ++ passed, r.taken ++ taken, after)

-- `exact`, over a stream that is at the artifact's start.
abbrev pub exact : {S : Type 0} → S → ExactReader S
exact s = record { inner = s; n = pos 0; error = none }
