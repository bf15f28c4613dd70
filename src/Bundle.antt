-- ===== src/Bundle.antt =====
-- internal/bundle/bundle.go: the encrypted export and its import. What is not of the repository is the
-- parameter `Codec`: age, SHA-256, tar, gzip and JSON. A file name is a text that `fmt.Sprintf` forms.
-- The texts of errors, which follow from the kind of error, are left out.
pub mod Reader
pub mod Import
pub mod Export
pub mod Authentic
mod RoundTrip
mod Restored
mod Failure
mod Tests
use cost_optimization.Prelude.{ℕ, ◌≡◌, String, Bool, List, Option, some}
use cost_optimization.Model.Bundle.{Manifest, SegmentMeta}

-- What a gzip reader gives: no member at all, a torn header, or the lines of a scan with whether it
-- ended in an error.
pub data Gunzip {ℓ} (Line : Type ℓ) : Type ℓ where
  empty_file torn_header : Gunzip Line
  scanned : List Line → Bool → Gunzip Line

pub record Codec : Type 1 where
  pub Bytes : Type 0
  pub Line : Type 0
  pub Identities : Type 0
  -- The n-th call with a recipient: each draws a key of its own.
  pub encrypt : ℕ → String → Bytes → Option Bytes
  pub decrypt : Identities → Bytes → Option Bytes
  pub sha256 : Bytes → String
  pub size : Bytes → ℕ
  pub marshal : Manifest → Bytes
  pub unmarshal : Bytes → Option Manifest
  pub gunzip : Bytes → Gunzip Line
  pub trim : Line → Line
  pub is_blank : Line → Bool
  pub is_json : Line → Bool
  -- filepath.ToSlash(filepath.Clean(name))
  pub clean : String → String

-- The identities open what was encrypted for the recipient, and JSON keeps a manifest.
pub record IsLawful (c : Codec) (recipient : String) (ids : c.Identities) : Type 0 where
  pub decrypt-encrypt :
      (n : ℕ) (plain : c.Bytes) {sealed : c.Bytes}
      → c.encrypt n recipient plain ≡ some sealed
      → c.decrypt ids sealed ≡ some plain
  pub unmarshal-marshal : (m : Manifest) → c.unmarshal (c.marshal m) ≡ some m

-- What archive/tar finds: entries, with none where reading the content fails, up to the end of the
-- archive or to an error.
pub record Entry (B : Type 0) : Type 0 where
  pub name : String
  pub content : Option B

pub record Tar (B : Type 0) : Type 0 where
  pub entries : List (Entry B)
  pub corrupt : Bool

pub data Status : Type 0 where
  imported hash_mismatch decrypt_failed truncated_records missing : Status

pub record SegmentResult (L : Type 0) : Type 0 where
  pub meta : SegmentMeta
  pub status : Status
  pub records : List L

pub data Fatal : Type 0 where
  open_failed bad_tar manifest_missing manifest_decrypt_failed manifest_parse_failed : Fatal

pub record ImportResult (L : Type 0) : Type 0 where
  pub manifest : Option Manifest
  pub segments : List (SegmentResult L)
  pub fatal : Option Fatal

abbrev pub manifest_name : String
manifest_name = "manifest.json.age"
