-- ===== src/Storage/Copy/Copies.antt =====
-- A copy of a file has the contents, the permissions and the hash of its source.
use libreseed.Prelude.{
  ◌≡◌, ◌≢◌, refl, ◌∙◌, Bool, true, false, none, some, Option, [], is_empty, arith, Result, ok, err,
  wrap_err, inl, inr, Bool-cases, if◌then◌else◌,
}
use libreseed.Text.{Bytes, bytes_discrete}
use libreseed.GoMap.{lookup}
use libreseed.Crypto.Keys.{Primitives}
use libreseed.Storage.{File, Files, WriteError, Env, Disk}
use libreseed.Storage.Atomic.{Outcome, atomic_write-Outcome}
use libreseed.Storage.Copy
use libreseed.Storage.Copy.{
  CopyError, not_copied, copy_file, copy_content, open_source, compute_file_hash,
}

module _ {D : Type 0} (env : Env D) (src dst : Bytes) (files : Files D) where
  -- After an error nothing but the temporary file has changed; after a success the destination is
  -- the file that the source was, and the files other than it and the temporary one are as before.
  unfoldable pub IsCopied : Result CopyError (Unit {0}) × Disk D → Type 0
  IsCopied (err e, d) =
      (key : Bytes)
      → key ≢ env.tmp
      → lookup bytes_discrete key d.files ≡ lookup bytes_discrete key files
  IsCopied (ok u, d) =
      (source : File D) × (lookup bytes_discrete src files ≡ some source)
      × (lookup bytes_discrete dst d.files ≡ some source)
      × (lookup bytes_discrete env.tmp d.files ≡ none)
      × ((key : Bytes)
          → key ≢ env.tmp
          → key ≢ dst
          → lookup bytes_discrete key d.files ≡ lookup bytes_discrete key files)

  Outcome-IsCopied :
      (source : File D) (apart : dst ≢ env.tmp) (r : Result WriteError (Unit {0}) × Disk D)
      → lookup bytes_discrete src files ≡ some source
      → Outcome env dst source.content source.mode files apart r
      → IsCopied (wrap_err not_copied r.0, r.1)
  unfolding Outcome IsCopied
  Outcome-IsCopied source apart (ok u, d) e h = (source, e, h.1, h.2, h.0)
  Outcome-IsCopied source apart (err f, d) e h = h.0

  copy_content-IsCopied :
      (source : File D) (apart : dst ≢ env.tmp)
      → lookup bytes_discrete src files ≡ some source
      → IsCopied (copy_content env dst source files)
  unfolding copy_content
  copy_content-IsCopied source apart e = Outcome-IsCopied source apart _ e (
      atomic_write-Outcome env dst source.content source.mode files apart
        (record { files = files; history = [] }) (λ key n. refl, tt))

  same-IsCopied : (e : CopyError) → IsCopied (err e, record { files = files; history = [] })
  unfolding IsCopied
  same-IsCopied e = λ key n. refl

  -- If the temporary file is not the destination, then a success of `CopyFile` leaves at the
  -- destination the file that the source was, with its permissions, and no temporary file, and
  -- changes nothing else; an error changes no file but the temporary one.
  pub copy_file-IsCopied :
      (opens stats : Bool) → dst ≢ env.tmp → IsCopied (copy_file env opens stats src dst files)
  unfolding copy_file
  copy_file-IsCopied opens stats apart = elim (Bool-cases (is_empty src)) [
    | inl a ↦ rw a (same-IsCopied _)
    | inr a ↦ elim (Bool-cases (is_empty dst)) [
      | inl b ↦ rw (a, b) (same-IsCopied _)
      | inr b ↦ rw (a, b) (from_source opens (lookup bytes_discrete src files) refl)
    ]
  ]
    where
      from_source :
          (opens : Bool) (found : Option (File D))
          → lookup bytes_discrete src files ≡ found
          → IsCopied (elim (open_source opens found) [
            | none ↦ (err Copy.source_not_opened, record { files = files; history = [] })
            | some source ↦
                if stats
                then copy_content env dst source files
                else (err Copy.source_not_statted, record { files = files; history = [] })
          ])
      from_source true none e = same-IsCopied _
      from_source false found e = same-IsCopied _
      from_source true (some source) e = elim (Bool-cases stats) [
        | inl s ↦ rw s (copy_content-IsCopied source apart e)
        | inr s ↦ rw s (same-IsCopied _)
      ]

module _ {D : Type 0} (env : Env D) (src dst : Bytes) (files : Files D) where
  nonempty_of_ok :
      (opens stats : Bool)
      → (copy_file env opens stats src dst files).0 ≡ ok tt
      → (is_empty src ≡ false) × (is_empty dst ≡ false)
  unfolding copy_file
  nonempty_of_ok opens stats h = elim (Bool-cases (is_empty src)) [
    | inl a ↦ absurd (ground arith)
    | inr a ↦ elim (Bool-cases (is_empty dst)) [ inl b ↦ absurd (ground arith) | inr b ↦ (a, b) ]
  ]

  -- Both names hold the source after a success.
  both_of_ok :
      (r : Result CopyError (Unit {0}) × Disk D)
      → src ≢ env.tmp
      → src ≢ dst
      → IsCopied env src dst files r
      → r.0 ≡ ok tt
      → (source : File D) × (lookup bytes_discrete src r.1.files ≡ some source)
        × (lookup bytes_discrete dst r.1.files ≡ some source)
  unfolding IsCopied
  both_of_ok (err e, d) m apart c h = absurd (cc h)
  both_of_ok (ok u, d) m apart (source, before, there, no_temp, others) h =
      (source, others src m apart ∙ before, there)

compute_file_hash-of_lookup :
    (prims : Primitives) (path : Bytes) (files : Files Bytes) (f : File Bytes)
    → is_empty path ≡ false
    → lookup bytes_discrete path files ≡ some f
    → compute_file_hash prims true true path files ≡ ok (prims.sha256 f.content)
unfolding compute_file_hash
compute_file_hash-of_lookup prims path files f n e = rw (n, e) refl

-- If the temporary file is neither name and the source is not the destination, then after a
-- success of `CopyFile` the hashes that `ComputeFileHash` returns of the two files are the same,
-- if both can be read.
pub compute_file_hash-copy :
    (prims : Primitives) (env : Env Bytes) (src dst : Bytes) (files : Files Bytes)
    (opens stats : Bool)
    → dst ≢ env.tmp
    → src ≢ env.tmp
    → src ≢ dst
    → (copy_file env opens stats src dst files).0 ≡ ok tt
    → let after = (copy_file env opens stats src dst files).1.files in
      (hash : Bytes) × (compute_file_hash prims true true src after ≡ ok hash)
      × (compute_file_hash prims true true dst after ≡ ok hash)
compute_file_hash-copy prims env src dst files opens stats n m apart h =
    let r = copy_file env opens stats src dst files in
    let (a, b) = nonempty_of_ok env src dst files opens stats h in
    let (source, one, two) =
      both_of_ok env src dst files r m apart (copy_file-IsCopied env src dst files opens stats n)
        h in
    (
      prims.sha256 source.content,
      compute_file_hash-of_lookup prims src r.1.files source a one,
      compute_file_hash-of_lookup prims dst r.1.files source b two,
    )
