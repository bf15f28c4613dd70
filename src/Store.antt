-- ===== src/Store.antt =====
-- internal/store/store.go: the spool. What a call of the operating system does is an input: the
-- outcome of the calls of a flush, and of those that close a segment. A record is known by the length
-- of its JSON and its time. The mutex makes every method one step. File sizes, Go's int64, are natural
-- numbers. The field `seq` of activeSeg, which nothing reads, is left out.
pub mod Segments
pub mod Appending
pub mod Retention
pub mod Naming
mod Tally
mod Elsewhere
mod Accounting
mod Spooling
mod Soundness
pub mod Everything
mod Tests
use cost_optimization.Prelude.{ℕ, String, Bool, Option, List}
use cost_optimization.Prelude.Assoc.{Map}
use cost_optimization.Model.{Time}

abbrev pub auto_flush_records : ℕ
auto_flush_records = 512

-- A variable of the package, which only tests change.
abbrev pub max_segment_bytes : ℕ
max_segment_bytes = 33554432

pub record Record : Type 0 where
  pub bytes : ℕ
  pub ts : Time

-- seg-<kind>-<date>-<seq>.ndjson.gz
pub record SegmentName : Type 0 where
  pub kind : String
  pub date : String
  pub seq : ℕ

pub record SegmentInfo : Type 0 where
  pub name : SegmentName
  pub kind : String
  pub records : ℕ
  pub min_ts : Time
  pub max_ts : Time
  pub size_bytes : ℕ
  pub recovered : Bool

pub record ActiveSeg : Type 0 where
  pub date : String
  pub buf : List Record
  pub records : ℕ
  pub min_ts : Time
  pub max_ts : Time
  pub size : ℕ
  pub raw_buffered : ℕ

-- A file of closed/: the records of its whole members, whether a torn one is among these, and its
-- sidecar where it has one.
pub record ClosedFile : Type 0 where
  pub name : SegmentName
  pub content : List Record
  pub torn : Bool
  pub sidecar : Option SegmentInfo

-- The store, and the files: for each kind the records of the whole members that its active file holds,
-- and whether a torn member is among these, which a reader of the file cannot decompress.
pub record Store : Type 0 where
  pub active : Map String ActiveSeg
  pub dropped : ℕ
  pub files : Map String (List Record)
  pub torn_files : Map String Bool
  pub closed : List ClosedFile

-- How the calls of a flush end: with the length of the member, with an error before any of it is
-- written, with an error of Write that leaves a part of the member at the end of the file, or with an
-- error of Sync or Close after the whole member is written.
pub data FlushOutcome : Type 0 where
  flushed : ℕ → FlushOutcome
  failed_before torn_member failed_after : FlushOutcome

-- How the calls that close a segment end: with the size of the file, with an error of Stat, Rename or
-- Remove that leaves the file where it is, or with an error in writing the sidecar. The last: every
-- call of Stat in closed/ fails with an error that does not say that there is no such file.
pub data CloseOutcome : Type 0 where
  closed_with : ℕ → CloseOutcome
  not_moved no_sidecar stat_denied : CloseOutcome

pub data StoreError : Type 0 where
  not_a_record flush_failed close_failed : StoreError
