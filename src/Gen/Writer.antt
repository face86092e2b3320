-- ===== src/Gen/Writer.antt =====
-- The output writer of pkg/gen/out.go, with CompareContentWithFile of pkg/gen/checksum.go and CopyFile
-- and IsFile of pkg/helper. What they call of os, io, filepath and crypto/md5 is a record of functions
-- over the disk. The permissions are not modelled, and neither is closing a copied file, whose error is
-- not returned.
use apigear_cli.Base.{
  String, Bool, true, false, Option, none, some, ◌⊎◌, inl, inr, ◌==◌, if◌then◌else◌, ◌≡◌, refl,
  eq_refl,
}
use apigear_cli.Gen.State.{OutputWriter, World}

-- A Stat that succeeds tells whether the path is a directory. `io_copy` takes the file to write, and the
-- one to read.
pub record Os (Bytes Handle Disk : Type 0) : Type 0 where
  pub dir : String → String
  pub mkdir_all : String → Disk → Option String × Disk
  pub write_bytes : String → Bytes → Disk → Option String × Disk
  pub stat : String → Disk → String ⊎ Bool
  pub is_not_exist : String → Bool
  pub read_bytes : String → Disk → String ⊎ Bytes
  pub open_file : String → Disk → String ⊎ Handle
  pub create : String → Disk → (String ⊎ Handle) × Disk
  pub io_copy : Handle → Handle → Disk → Option String × Disk
  pub md5 : Bytes → String

module _ {Bytes Handle Disk : Type 0} (os : Os Bytes Handle Disk) where
  abbrev is_plain : String ⊎ Bool → Bool
  is_plain (inl e) = false
  is_plain (inr true) = false
  is_plain (inr false) = true

  -- helper.IsFile
  unfoldable pub is_file : String → Disk → Bool
  is_file path d = is_plain (os.stat path d)

  abbrev write_in : Bytes → String → Option String × Disk → Option String × Disk
  write_in input target (none, d) = os.write_bytes target input d
  write_in input target (some e, d) = (some e, d)

  -- fsWriter.Write
  unfoldable pub fs_write : Bytes → String → Disk → Option String × Disk
  fs_write input target d = write_in input target (os.mkdir_all (os.dir target) d)

  abbrev copy_to : Handle → (String ⊎ Handle) × Disk → Option String × Disk
  copy_to source (inl e, d) = (some e, d)
  copy_to source (inr target, d) = os.io_copy target source d

  abbrev copy_in : Handle → String → Option String × Disk → Option String × Disk
  copy_in source target (none, d) = copy_to source (os.create target d)
  copy_in source target (some e, d) = (some e, d)

  abbrev copy_opened : String → Disk → String ⊎ Handle → Option String × Disk
  copy_opened target d (inl e) = (some e, d)
  copy_opened target d (inr source) = copy_in source target (os.mkdir_all (os.dir target) d)

  -- helper.CopyFile
  unfoldable pub fs_copy : String → String → Disk → Option String × Disk
  fs_copy source target d = copy_opened target d (os.open_file source d)

  abbrev compare_read : Bytes → String ⊎ Bytes → String ⊎ Bool
  compare_read input (inl e) = inl e
  compare_read input (inr bytes) = inr (os.md5 input == os.md5 bytes)

  abbrev compare_found : Bytes → String → Disk → String ⊎ Bool → String ⊎ Bool
  compare_found input target d (inl e) =
      if os.is_not_exist e then inr false else compare_read input (os.read_bytes target d)
  compare_found input target d (inr dir) = compare_read input (os.read_bytes target d)

  -- CompareContentWithFile
  unfoldable pub compare_content_with_file : Bytes → String → Disk → String ⊎ Bool
  compare_content_with_file input target d = compare_found input target d (os.stat target d)

  -- NewOutputWriter
  abbrev pub fs_writer : OutputWriter Bytes Disk
  fs_writer = record { write = fs_write; copy = fs_copy; compare = compare_content_with_file }

  -- What the generator calls, where its writer is the one of the file system.
  abbrev pub on_os : {Meta : Type 0} → World Meta Bytes Disk → World Meta Bytes Disk
  on_os w = record w { is_file = is_file; output = fs_writer }

  -- What os documents for the files that are there. MkdirAll makes directories only: it leaves what can
  -- be read, and as a directory that it makes is empty, a path in that directory that is no file does
  -- not become one. WriteFile to a path that is no file, through a link too, changes no other file.
  pub record KeepsFiles : Type 0 where
    pub mkdir_reads :
        (dir path : String) (x : Bytes) (d : Disk)
        → os.read_bytes path d ≡ inr x
        → os.read_bytes path (os.mkdir_all dir d).1 ≡ inr x
    pub mkdir_files :
        (target : String) (d : Disk)
        → is_file target d ≡ false
        → is_file target (os.mkdir_all (os.dir target) d).1 ≡ false
    pub write_reads :
        (target path : String) (input x : Bytes) (d : Disk)
        → is_file target d ≡ false
        → os.read_bytes path d ≡ inr x
        → os.read_bytes path (os.write_bytes target input d).1 ≡ inr x

  -- What os.WriteFile then writes to the path of the disk is in a file there, and can be read.
  abbrev pub ReadsBack : String → Bytes → Disk → Type 0
  ReadsBack target input d =
      (os.write_bytes target input d).0 ≡ none
      → (os.stat target (os.write_bytes target input d).1 ≡ inr false)
        × (os.read_bytes target (os.write_bytes target input d).1 ≡ inr input)

  pub fs_write-new :
      KeepsFiles
      → (input : Bytes) (target path : String) (x : Bytes) (d : Disk) → is_file target d ≡ false
      → os.read_bytes path d ≡ inr x
      → os.read_bytes path (fs_write input target d).1 ≡ inr x
  unfolding fs_write
  fs_write-new keeps input target path x d new there =
      written (os.mkdir_all (os.dir target) d) (keeps.mkdir_files target d new)
        (keeps.mkdir_reads (os.dir target) path x d there)
    where
      written :
          (r : Option String × Disk)
          → is_file target r.1 ≡ false
          → os.read_bytes path r.1 ≡ inr x
          → os.read_bytes path (write_in input target r).1 ≡ inr x
      written (none, d') new there = keeps.write_reads target path input x d' new there
      written (some e, d') new there = there

  -- A file that holds the content.
  abbrev pub Holds : String → Bytes → Disk → Type 0
  Holds target input d = (os.stat target d ≡ inr false) × (os.read_bytes target d ≡ inr input)

  pub fs_write-Holds :
      (input : Bytes) (target : String) (d : Disk)
      → ReadsBack target input (os.mkdir_all (os.dir target) d).1
      → (fs_write input target d).0 ≡ none
      → Holds target input (fs_write input target d).1
  unfolding fs_write
  fs_write-Holds input target d = written (os.mkdir_all (os.dir target) d)
    where
      written :
          (r : Option String × Disk)
          → ReadsBack target input r.1
          → (write_in input target r).0 ≡ none
          → Holds target input (write_in input target r).1
      written (none, d') reads ok = reads ok
      written (some e, d') reads ok = absurd (cc ok)

  pub is_file-Holds :
      (target : String) (input : Bytes) (d : Disk) → Holds target input d → is_file target d ≡ true
  unfolding is_file
  is_file-Holds target input d (file, there) = rw file refl

  pub compare_content_with_file-Holds :
      (input : Bytes) (target : String) (d : Disk)
      → Holds target input d
      → compare_content_with_file input target d ≡ inr true
  unfolding compare_content_with_file
  compare_content_with_file-Holds input target d (file, there) =
      rw (file, there, eq_refl (os.md5 input)) refl
