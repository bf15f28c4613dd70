-- ===== src/Bundle/Reader.antt =====
-- `ReadSegment` of internal/store/store.go.
use cost_optimization.Prelude.{Bool, true, false, not, List, [], ◌∷◌, if◌then◌else◌}
use cost_optimization.Bundle.{Codec, Gunzip, empty_file, torn_header, scanned}

module _ (c : Codec) where
  -- The loop over the lines: the records, and whether a line was torn.
  unfoldable pub read_lines : List c.Line → List c.Line × Bool
  read_lines [] = ([], false)
  read_lines (l ∷ ls) =
      let (records, torn) = read_lines ls in
      let line = c.trim l in
      if c.is_blank line
      then (records, torn)
      else if not (c.is_json line)
      then (records, true)
      else (line ∷ records, torn)

  -- The records, and whether the tail was truncated.
  abbrev pub finish_read : Gunzip c.Line → List c.Line × Bool
  finish_read empty_file = ([], false)
  finish_read torn_header = ([], true)
  finish_read (scanned ls failed) =
      let (records, torn) = read_lines ls in (records, (if failed then true else torn))

  unfoldable pub read_segment : c.Bytes → List c.Line × Bool
  unfolding read_lines
  read_segment b = finish_read (c.gunzip b)
